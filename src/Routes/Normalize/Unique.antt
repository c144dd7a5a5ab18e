-- ===== src/Routes/Normalize/Unique.antt =====
-- uniqueStrings keeps the first of equal strings.
use caddy_reverse_proxy.Common.{
  ◌≡◌, ◌≢◌, sym, subst, ap, ◌↔◌, ◌⊎◌, Bool, true, false, List, [], ◌∷◌, Bool-cases, inl, inr, any,
  All, Any, Distinct, arith,
}
use caddy_reverse_proxy.Common.Lists.Laws.{All-mono}
use caddy_reverse_proxy.Text.{Text, ◌==◌}
use caddy_reverse_proxy.Text.Laws.{==_iff}
use caddy_reverse_proxy.Routes.Normalize.{unique_from, unique_strings}

abbrev Unseen : List Text → Text → Type 0
Unseen seen value = any (λ old. old == value) seen ≡ false

Unseen-cons :
    (old : Text) (seen : List Text) (v : Text) → Unseen (old ∷ seen) v → (old ≢ v) × Unseen seen v
unfolding any
Unseen-cons old seen v h = (ground (arith, ==_iff old v), ground (arith, ==_iff old v))

module _ (value : Text) (seen values : List Text) where
  -- A turn of the loop, by whether the string is seen.
  abbrev next : Bool → List Text
  next b = elim b [
    | true ↦ unique_from seen values
    | false ↦ value ∷ unique_from (value ∷ seen) values
  ]

  unique_from-known :
      any (λ old. old == value) seen ≡ true
      → unique_from seen (value ∷ values) ≡ unique_from seen values
  unfolding unique_from
  unique_from-known h = ap next h

  unique_from-fresh :
      any (λ old. old == value) seen ≡ false
      → unique_from seen (value ∷ values) ≡ value ∷ unique_from (value ∷ seen) values
  unfolding unique_from
  unique_from-fresh h = ap next h

unique_from-Distinct :
    (seen values : List Text)
    → Distinct ◌≢◌ (unique_from seen values) × All (Unseen seen) (unique_from seen values)
unfolding unique_from
unique_from-Distinct seen [] = (tt, tt)
unique_from-Distinct seen (value ∷ values) = elim (Bool-cases (any (λ old. old == value) seen)) [
  | inl known ↦ rw (unique_from-known value seen values known) (unique_from-Distinct seen values)
  | inr fresh ↦
      let (apart, unseen) = unique_from-Distinct (value ∷ seen) values in
      let rest = unique_from (value ∷ seen) values in
      rw (unique_from-fresh value seen values fresh) (
        (All-mono _ _ (λ v h. (Unseen-cons value seen v h).0) rest unseen, apart),
        (fresh, All-mono _ _ (λ v h. (Unseen-cons value seen v h).1) rest unseen),
      )
]

any-Any :
    (v : Text) (seen : List Text) → (any (λ old. old == v) seen ≡ true) ↔ Any (λ t. v ≡ t) seen
unfolding any
any-Any v [] = (λ h. cc, λ h. absurd h)
any-Any v (old ∷ seen) = ground (arith, ==_iff old v, any-Any v seen)

unique_from-Any :
    (v : Text) (seen values : List Text)
    → (Any (λ t. v ≡ t) seen ⊎ Any (λ t. v ≡ t) (unique_from seen values))
      ↔ (Any (λ t. v ≡ t) seen ⊎ Any (λ t. v ≡ t) values)
unfolding unique_from
unique_from-Any v seen [] = (λ h. h, λ h. h)
unique_from-Any v seen (value ∷ values) = elim (Bool-cases (any (λ old. old == value) seen)) [
  | inl known ↦
      let member : Any (λ t. value ≡ t) seen = (any-Any value seen).0 known in
      rw (unique_from-known value seen values known) (
        λ h. elim ((unique_from-Any v seen values).0 h) [
          | inl old ↦ inl old
          | inr given ↦ inr (inr given)
        ],
        λ h. (unique_from-Any v seen values).1 (elim h [
          | inl old ↦ inl old
          | inr now ↦ elim now [
            | inl same ↦ inl (subst (λ t. Any (λ u. t ≡ u) seen) (sym same) member)
            | inr later ↦ inr later
          ]
        ]),
      )
  | inr fresh ↦
      rw (unique_from-fresh value seen values fresh)
        (ground (arith, unique_from-Any v (value ∷ seen) values))
]

-- uniqueStrings answers strings that differ pairwise, and exactly those that it is given.
pub unique_strings_lem :
    (values : List Text)
    → Distinct ◌≢◌ (unique_strings values)
      × ((v : Text) → Any (λ t. v ≡ t) (unique_strings values) ↔ Any (λ t. v ≡ t) values)
unfolding unique_strings
unique_strings_lem values =
    ((unique_from-Distinct [] values).0, λ v. ground (arith, unique_from-Any v [] values))
