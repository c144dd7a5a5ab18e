-- ===== src/Caddy/Servers/Laws.antt =====
-- Which hosts a wildcard certificate covers.
use caddy_reverse_proxy.Common.{
  ℕ, ◌+◌, ◌≡◌, ◌≢◌, refl, sym, ap, subst, ◌∙◌, ◌⊎◌, ◌↔◌, inl, inr, Bool, true, false, ◌||◌, List,
  [], ◌∷◌, ◌++◌, arith, Bool-cases, Any, any, length,
}
use caddy_reverse_proxy.Text.{Text, codes, ◌==◌, contains, has_prefix, drop}
use caddy_reverse_proxy.Text.HostPort.{trim_suffix}
use caddy_reverse_proxy.Text.Laws.{==_iff}
use caddy_reverse_proxy.Caddy.Matchers.Paths.{has_prefix-true}
use caddy_reverse_proxy.Caddy.Servers.{
  covered_prefix, subject_covers, host_text, wildcard_certificate_covers_host,
}

length-append : (s t : Text) → length (s ++ t) ≡ length s + length t
length-append [] t = omega arith
length-append (c ∷ s) t = omega (arith, length-append s t)

longer : (c : ℕ) (s t : Text) → (c ∷ (s ++ t)) == t ≡ false
longer c s t = elim (Bool-cases ((c ∷ (s ++ t)) == t)) [
  | inl e ↦
      let same = ap (λ (u : Text). length u) ((==_iff (c ∷ (s ++ t)) t).0 e) in
      absurd (omega (arith, same, length-append s t))
  | inr e ↦ e
]

trim_suffix-append : (s : Text) (c : ℕ) (t : Text) → trim_suffix (s ++ c ∷ t) (c ∷ t) ≡ s
unfolding trim_suffix
trim_suffix-append [] c t = ground (arith, ==_iff (c ∷ t) (c ∷ t))
trim_suffix-append (d ∷ s) c t =
    rw (longer d s (c ∷ t)) (ap (λ (u : Text). d ∷ u) (trim_suffix-append s c t))

trim_suffix-cases : (s t : Text) → (trim_suffix s t ≡ s) ⊎ (s ≡ trim_suffix s t ++ t)
unfolding trim_suffix
trim_suffix-cases [] t = inl refl
trim_suffix-cases (c ∷ s) t = elim (Bool-cases ((c ∷ s) == t)) [
  | inl e ↦ rw e (inr ((==_iff (c ∷ s) t).0 e))
  | inr e ↦ rw e (elim (trim_suffix-cases s t) [
    | inl k ↦ inl (ap (λ (u : Text). c ∷ u) k)
    | inr k ↦ inr (ap (λ (u : Text). c ∷ u) k)
  ])
]

-- The host is one label in front of what stands behind the star of the subject.
abbrev pub IsCovered : Text → Text → Type 0
IsCovered host subject =
    (label : Text) × (suffix : Text) × (subject ≡ codes "*." ++ suffix)
    × (host ≡ label ++ b'.' ∷ suffix)
    × (label ≢ [])
    × (contains b'.' label ≡ false)

covered_prefix-append :
    (label : Text) (c : ℕ) (suffix : Text)
    → label ≢ []
    → contains b'.' label ≡ false
    → covered_prefix (label ++ c ∷ suffix) label ≡ true
covered_prefix-append label c suffix filled plain =
    let differs : label == (label ++ c ∷ suffix) ≡ false =
      elim (Bool-cases (label == (label ++ c ∷ suffix))) [
        | inl e ↦
            let same = ap (λ (u : Text). length u) ((==_iff label (label ++ c ∷ suffix)).0 e) in
            absurd (omega (arith, same, length-append label (c ∷ suffix)))
        | inr e ↦ e
      ] in
    rw (differs, plain) (ground (arith, ==_iff label []))

subject_covers-IsCovered :
    (host subject : Text) → subject_covers host subject ≡ true → IsCovered host subject
unfolding subject_covers
subject_covers-IsCovered host subject h =
    let (suffix, e) = has_prefix-true subject (codes "*.") (ground arith) in
    let cut = codes "." ++ drop 2 subject in
    let behind : drop 2 subject ≡ suffix = rw e (unfold drop in refl) in
    (
      trim_suffix host cut,
      suffix,
      e,
      elim (trim_suffix-cases host cut) [
        | inl k ↦ absurd (ground (arith, ==_iff (trim_suffix host cut) host))
        | inr k ↦ subst (λ (t : Text). host ≡ trim_suffix host cut ++ b'.' ∷ t) behind k
      ],
      λ n. ground (arith, ==_iff (trim_suffix host cut) []),
      ground arith,
    )

has_prefix-star : (suffix : Text) → has_prefix (codes "*." ++ suffix) (codes "*.") ≡ true
unfolding has_prefix
has_prefix-star suffix = refl

IsCovered-subject_covers :
    (host subject : Text) → IsCovered host subject → subject_covers host subject ≡ true
unfolding subject_covers drop
IsCovered-subject_covers host subject (label, suffix, e, k, filled, plain) =
    rw (e, k, has_prefix-star suffix, trim_suffix-append label b'.' suffix)
      (covered_prefix-append label b'.' suffix filled plain)

any_iff :
    (p : Text → Bool) (P : Text → Type 0) (xs : List Text)
    → ((x : Text) → (p x ≡ true) ↔ P x)
    → (any p xs ≡ true) ↔ Any P xs
unfolding any
any_iff p P [] h = (λ e. cc, λ e. absurd e)
any_iff p P (x ∷ xs) h = ground (arith, h x, any_iff p P xs h)

Any-nonempty :
    (host : Text) (subjects : List Text)
    → Any (λ subject. IsCovered host (host_text subject)) subjects
    → host ≢ []
Any-nonempty host [] m e = absurd m
Any-nonempty host (subject ∷ subjects) (inl (label, suffix, _, k, filled, _)) e =
    nonempty label suffix filled (sym k ∙ e)
  where
    nonempty : (label suffix : Text) → label ≢ [] → label ++ b'.' ∷ suffix ≡ [] → ⊥
    nonempty [] suffix filled h = filled refl
    nonempty (c ∷ label) suffix filled h = cc
Any-nonempty host (subject ∷ subjects) (inr m) e = Any-nonempty host subjects m e

-- wildcardCertificateCoversHost accepts a host exactly when, with spaces, capitals and a last dot
-- normalised, it is no wildcard itself and some subject is a star in front of a suffix that turns
-- into the host when one nonempty label without dots takes the place of the star.
pub wildcard_certificate_covers_host_lem :
    (subjects : List Text) (host : Text)
    → (wildcard_certificate_covers_host subjects host ≡ true) ↔ (
        (has_prefix (host_text host) (codes "*.") ≡ false)
        × Any (λ subject. IsCovered (host_text host) (host_text subject)) subjects)
unfolding wildcard_certificate_covers_host
wildcard_certificate_covers_host_lem subjects host =
    let covers =
      any_iff (λ subject. subject_covers (host_text host) (host_text subject))
        (λ subject. IsCovered (host_text host) (host_text subject)) subjects
        λ subject. (
          subject_covers-IsCovered (host_text host) (host_text subject),
          IsCovered-subject_covers (host_text host) (host_text subject),
        ) in
    elim (Bool-cases (host_text host == [] || has_prefix (host_text host) (codes "*."))) [
      | inl e ↦ rw e (
        λ h. cc,
        λ h. absurd (
            let filled = Any-nonempty (host_text host) subjects h.1 in
            ground (arith, ==_iff (host_text host) [])),
      )
      | inr e ↦ rw e (λ h. (ground arith, covers.0 h), λ h. covers.1 h.1)
    ]
