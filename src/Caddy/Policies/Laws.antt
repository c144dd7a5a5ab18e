-- ===== src/Caddy/Policies/Laws.antt =====
-- Where the headers that open a protected route come from, and that each of them is stripped.
use caddy_reverse_proxy.Common.{
  ◌≡◌, ◌≢◌, refl, sym, subst, ◌∙◌, ◌⊎◌, inl, inr, Bool, true, false, not, ◌&&◌, ◌||◌, List, [], ◌∷◌,
  ◌++◌, if◌then◌else◌, arith, Bool-cases, All, Any, any,
}
use caddy_reverse_proxy.Text.{Text, codes, ◌==◌, to_lower, trim_space}
use caddy_reverse_proxy.Text.Laws.{==_iff}
use caddy_reverse_proxy.Model.Config.{AuthConfig}
use caddy_reverse_proxy.Caddy.Policies.{
  HeaderPolicy, nonblank, auth_tokens, defaulted, token_policies, protected_header_policies,
  unique_header_names_from, unique_header_names, bearer_policy, admin_policy,
}

-- A token that the configuration holds, and that is not blank.
abbrev pub IsToken : AuthConfig → Text → Type 0
IsToken auth token =
    (trim_space token ≢ []) × Any (λ t. t ≡ token) (auth.admin_token ∷ auth.admin_tokens)

-- A header that opens protected routes: one of the two headers with a token, each if it is allowed
-- or nothing at all is configured, or the additional header.
abbrev pub IsCredential : AuthConfig → Text → Text → Type 0
IsCredential auth name value =
    let p = auth.protected_routes in
    ((token : Text) × IsToken auth token
      × (((p.allow_bearer_token || defaulted p) ≡ true)
            × (name ≡ codes "Authorization")
            × (value ≡ codes "Bearer " ++ token)
          ⊎ ((p.allow_admin_token_header || defaulted p) ≡ true)
            × (name ≡ codes "X-Admin-Token")
            × (value ≡ token)))
    ⊎ (name ≢ [])
      × (value ≢ [])
      × (name ≡ p.additional_header_name)
      × (value ≡ p.additional_header_value)

pub All-append :
    {A : Type 0} (P : A → Type 0) (xs ys : List A) → All P xs → All P ys → All P (xs ++ ys)
All-append P [] ys h k = k
All-append P (x ∷ xs) ys (h, hs) k = (h, All-append P xs ys hs k)

All-nonblank :
    (P : Text → Type 0) (tokens : List Text)
    → All P tokens
    → All (λ t. (trim_space t ≢ []) × P t) (nonblank tokens)
unfolding nonblank
All-nonblank P [] h = tt
All-nonblank P (t ∷ tokens) (h, hs) = elim (Bool-cases (trim_space t == [])) [
  | inl e ↦ rw e (All-nonblank P tokens hs)
  | inr e ↦
      let filled : trim_space t ≢ [] = λ k. ground (arith, ==_iff (trim_space t) []) in
      rw e ((filled, h), All-nonblank P tokens hs)
]

All-Any_self :
    (all tokens : List Text)
    → ((t : Text) → Any (λ u. u ≡ t) tokens → Any (λ u. u ≡ t) all)
    → All (λ t. Any (λ u. u ≡ t) all) tokens
All-Any_self all [] h = tt
All-Any_self all (t ∷ tokens) h = (h t (inl refl), All-Any_self all tokens λ u m. h u (inr m))

auth_tokens-IsToken : (auth : AuthConfig) → All (IsToken auth) (auth_tokens auth)
unfolding auth_tokens
auth_tokens-IsToken auth =
    let all = auth.admin_token ∷ auth.admin_tokens in
    All-nonblank (λ t. Any (λ u. u ≡ t) all) all (All-Any_self all all λ t m. m)

pub All-when :
    {A : Type 0} (P : A → Type 0) (b : Bool) (x : A)
    → (b ≡ true → P x)
    → All P (if b then x ∷ [] else [])
All-when P true x h = (h refl, tt)
All-when P false x h = tt

module _ (auth : AuthConfig) where
  abbrev pub Opens : HeaderPolicy → Type 0
  Opens policy = IsCredential auth policy.name policy.value

  token_policies-Opens :
      (bearer admin : Bool) (tokens : List Text)
      → bearer ≡ (auth.protected_routes.allow_bearer_token || defaulted auth.protected_routes)
      → admin ≡ (auth.protected_routes.allow_admin_token_header || defaulted auth.protected_routes)
      → All (IsToken auth) tokens
      → All Opens (token_policies bearer admin tokens)
  unfolding token_policies
  token_policies-Opens bearer admin [] b a h = tt
  token_policies-Opens bearer admin (t ∷ tokens) b a (h, hs) =
      All-append Opens _ _
        (All-when Opens bearer (bearer_policy t) λ e. inl (t, h, inl (sym b ∙ e, refl, refl)))
        (All-append Opens _ _
          (All-when Opens admin (admin_policy t) λ e. inl (t, h, inr (sym a ∙ e, refl, refl)))
          (token_policies-Opens bearer admin tokens b a hs))

  pub protected_header_policies-Opens : All Opens (protected_header_policies auth)
  unfolding protected_header_policies
  protected_header_policies-Opens =
      let p = auth.protected_routes in
      All-append Opens _ _
        (token_policies-Opens _ _ (auth_tokens auth) refl refl (auth_tokens-IsToken auth))
        (All-when Opens
          (not (p.additional_header_name == []) && not (p.additional_header_value == []))
          (record { name = p.additional_header_name; value = p.additional_header_value })
          λ e. inr (
            λ n. ground (arith, ==_iff p.additional_header_name []),
            λ n. ground (arith, ==_iff p.additional_header_value []),
            refl,
            refl,
          ))

-- `names` has the name of the policy, up to case.
abbrev pub Names : List Text → HeaderPolicy → Type 0
Names names policy = Any (λ n. to_lower n ≡ to_lower policy.name) names

abbrev Seen : List Text → List Text → HeaderPolicy → Type 0
Seen seen names policy = (any (λ old. old == to_lower policy.name) seen ≡ true) ⊎ Names names policy

Seen-cons :
    (key name : Text) (seen names : List Text) (policies : List HeaderPolicy)
    → key ≡ to_lower name
    → All (Seen (key ∷ seen) names) policies
    → All (Seen seen (name ∷ names)) policies
unfolding any
Seen-cons key name seen names [] e h = tt
Seen-cons key name seen names (policy ∷ policies) e (inr n, hs) =
    (inr (inr n), Seen-cons key name seen names policies e hs)
Seen-cons key name seen names (policy ∷ policies) e (inl s, hs) = (
  elim (Bool-cases (key == to_lower policy.name)) [
    | inl same ↦ inr (inl (sym e ∙ (==_iff key (to_lower policy.name)).0 same))
    | inr differs ↦ inl (rw differs at s)
  ],
  Seen-cons key name seen names policies e hs,
)

unique_header_names_from-Seen :
    (seen : List Text) (policies : List HeaderPolicy)
    → All (Seen seen (unique_header_names_from seen policies)) policies
unfolding unique_header_names_from
unique_header_names_from-Seen seen [] = tt
unique_header_names_from-Seen seen (policy ∷ policies) =
    let names : Bool → List Text = λ b. elim b [
      | true ↦ unique_header_names_from seen policies
      | false ↦ policy.name ∷ unique_header_names_from (to_lower policy.name ∷ seen) policies
    ] in
    elim (Bool-cases (any (λ old. old == to_lower policy.name) seen)) [
      | inl e ↦
          subst (λ b. All (Seen seen (names b)) (policy ∷ policies)) (sym e)
            (inl e, unique_header_names_from-Seen seen policies)
      | inr e ↦
          subst (λ b. All (Seen seen (names b)) (policy ∷ policies)) (sym e)
            (
              inr (inl refl),
              Seen-cons (to_lower policy.name) policy.name seen _ policies refl
                  (unique_header_names_from-Seen (to_lower policy.name ∷ seen) policies),
            )
    ]

All-Names :
    (names : List Text) (policies : List HeaderPolicy)
    → All (Seen [] names) policies
    → All (Names names) policies
unfolding any
All-Names names [] h = tt
All-Names names (policy ∷ policies) (inl s, hs) = cc
All-Names names (policy ∷ policies) (inr n, hs) = (n, All-Names names policies hs)

pub unique_header_names-Names :
    (policies : List HeaderPolicy) → All (Names (unique_header_names policies)) policies
unfolding unique_header_names
unique_header_names-Names policies =
    All-Names _ policies (unique_header_names_from-Seen [] policies)
