-- ===== src/Caddy/Matchers/Paths.antt =====
-- Paths below prefixes, and what intersectPathPrefixes makes of two prefixes.
use mathlib.Core.List.{append_assoc}
use caddy_reverse_proxy.Common.{
  ℕ, ◌≡◌, refl, sym, ap, subst, ◌∙◌, ◌↔◌, ◌⊎◌, inl, inr, true, false, Option, none, some, [], ◌∷◌,
  ◌++◌, arith, Bool-cases,
}
use caddy_reverse_proxy.Text.{Text, codes, ◌==◌, has_prefix}
use caddy_reverse_proxy.Text.Laws.{==_iff}
use caddy_reverse_proxy.Caddy.Matchers.{trim_prefix, intersect_trimmed, intersect_path_prefixes}

-- A path is below a prefix if it is the prefix or goes on behind it with a slash. Every path is below
-- the empty prefix.
abbrev pub Below : Text → Text → Type 0
Below path prefix =
    (prefix ≡ []) ⊎ (path ≡ prefix) ⊎ ((rest : Text) × (path ≡ prefix ++ b'/' ∷ rest))

abbrev pub BelowSome : Text → Option Text → Type 0
BelowSome path none = ⊥
BelowSome path (some prefix) = Below path prefix

has_prefix-append : (s t : Text) → has_prefix (s ++ t) s ≡ true
unfolding has_prefix
has_prefix-append [] t = refl
has_prefix-append (c ∷ s) t = ground (arith, has_prefix-append s t)

pub has_prefix-true : (s p : Text) → has_prefix s p ≡ true → (t : Text) × (s ≡ p ++ t)
unfolding has_prefix
has_prefix-true s [] h = (s, refl)
has_prefix-true [] (d ∷ p) h = cc
has_prefix-true (c ∷ s) (d ∷ p) h =
    let (t, e) = has_prefix-true s p (ground arith) in
    let same : c ≡ d = ground arith in (t, rw same (ap (λ (u : Text). d ∷ u) e))

pub has_prefix-Below : (s p : Text) → has_prefix s (p ++ codes "/") ≡ true → Below s p
has_prefix-Below s p h =
    let (t, e) = has_prefix-true s (p ++ codes "/") h in inr (inr (t, e ∙ append_assoc p _ t))

pub Below-has_prefix : (p rest : Text) → has_prefix (p ++ b'/' ∷ rest) (p ++ codes "/") ≡ true
Below-has_prefix p rest =
    subst (λ (s : Text). has_prefix s (p ++ codes "/") ≡ true) (append_assoc p (codes "/") rest)
      (has_prefix-append (p ++ codes "/") rest)

append-ne-nil : (p : Text) (c : ℕ) (rest : Text) → [] ≡ p ++ c ∷ rest → ⊥
append-ne-nil [] c rest h = cc
append-ne-nil (d ∷ p) c rest h = cc

Below-trans : (s q p : Text) → Below s q → Below q p → Below s p
Below-trans s q p h (inl e) = inl e
Below-trans s q p h (inr (inl e)) = subst (λ (t : Text). Below s t) e h
Below-trans s q p (inl e) (inr (inr (r, k))) = absurd (append-ne-nil p b'/' r (sym e ∙ k))
Below-trans s q p (inr (inl e)) (inr (inr (r, k))) = inr (inr (r, e ∙ k))
Below-trans s q p (inr (inr (t, e))) (inr (inr (r, k))) = inr (
    inr (
      r ++ b'/' ∷ t,
      e ∙ ap (λ (u : Text). u ++ b'/' ∷ t) k ∙ append_assoc p (b'/' ∷ r) (b'/' ∷ t),
    ))

abbrev Comparable : Text → Text → Type 0
Comparable p q = Below p q ⊎ Below q p

-- Two prefixes of one text, each with a slash behind it.
data Nested : Text → Text → Type 0 where
  same : (p : Text) → Nested p p
  deeper : (p r : Text) → Nested p (p ++ b'/' ∷ r)
  shallower : (p r : Text) → Nested (p ++ b'/' ∷ r) p

Nested-cons : (c : ℕ) {p q : Text} → Nested p q → Nested (c ∷ p) (c ∷ q)
Nested-cons c (same p) = same (c ∷ p)
Nested-cons c (deeper p r) = deeper (c ∷ p) r
Nested-cons c (shallower p r) = shallower (c ∷ p) r

Nested-of_append : (p q s t : Text) → p ++ b'/' ∷ s ≡ q ++ b'/' ∷ t → Nested p q
Nested-of_append [] [] s t h = same []
Nested-of_append [] (d ∷ q) s t h =
    let e : b'/' ≡ d = cc in subst (λ (c : ℕ). Nested [] (c ∷ q)) e (deeper [] q)
Nested-of_append (c ∷ p) [] s t h =
    let e : b'/' ≡ c = cc in subst (λ (d : ℕ). Nested (d ∷ p) []) e (shallower [] p)
Nested-of_append (c ∷ p) (d ∷ q) s t h =
    let e : c ≡ d = cc in
    subst (λ (x : ℕ). Nested (c ∷ p) (x ∷ q)) e (Nested-cons c (Nested-of_append p q s t (cc)))

Nested-Comparable : {p q : Text} → Nested p q → Comparable p q
Nested-Comparable (same p) = inl (inr (inl refl))
Nested-Comparable (deeper p r) = inr (inr (inr (r, refl)))
Nested-Comparable (shallower p r) = inl (inr (inr (r, refl)))

Below-Comparable : (s p q : Text) → Below s p → Below s q → Comparable p q
Below-Comparable s p q (inl e) k = inr (inl e)
Below-Comparable s p q h (inl e) = inl (inl e)
Below-Comparable s p q (inr (inl e)) k = inl (subst (λ (t : Text). Below t q) e k)
Below-Comparable s p q h (inr (inl e)) = inr (subst (λ (t : Text). Below t p) e h)
Below-Comparable s p q (inr (inr (r, e))) (inr (inr (t, k))) =
    Nested-Comparable (Nested-of_append p q r t (sym e ∙ k))

-- What intersectPathPrefixes answers on `left` and `right`, by how they lie.
abbrev Answer : Text → Text → Option Text → Type 0
Answer left right answer =
    (Below left right × (answer ≡ some left))
    ⊎ (Below right left × (answer ≡ some right))
    ⊎ ((Below left right → ⊥) × (Below right left → ⊥) × (answer ≡ none))

not-Below :
    (s p : Text)
    → (p == [] ≡ false)
    → (s == p ≡ false)
    → has_prefix s (p ++ codes "/") ≡ false
    → Below s p
    → ⊥
not-Below s p nonempty differs outside (inl e) = ground (arith, ==_iff p [])
not-Below s p nonempty differs outside (inr (inl e)) = ground (arith, ==_iff s p)
not-Below s p nonempty differs outside (inr (inr (r, e))) =
    let inside : has_prefix s (p ++ codes "/") ≡ true =
      subst (λ (t : Text). has_prefix t (p ++ codes "/") ≡ true) (sym e) (Below-has_prefix p r) in
    cc

intersect_trimmed-Answer : (l r : Text) → Answer l r (intersect_trimmed l r)
unfolding intersect_trimmed
intersect_trimmed-Answer l r = elim (Bool-cases (l == [])) [
  | inl e ↦ rw e (inr (inl (inl ((==_iff l []).0 e), refl)))
  | inr nl ↦ rw nl (elim (Bool-cases (r == [])) [
    | inl e ↦ rw e (inl (inl ((==_iff r []).0 e), refl))
    | inr nr ↦ rw nr (elim (Bool-cases (l == r)) [
      | inl e ↦ rw e (inl (inr (inl ((==_iff l r).0 e)), refl))
      | inr ne ↦ rw ne (elim (Bool-cases (has_prefix l (r ++ codes "/"))) [
        | inl e ↦ rw e (inl (has_prefix-Below l r e, refl))
        | inr out ↦ rw out (elim (Bool-cases (has_prefix r (l ++ codes "/"))) [
          | inl e ↦ rw e (inr (inl (has_prefix-Below r l e, refl)))
          | inr off ↦ rw off (
              inr (
                inr (
                  not-Below l r nr ne out,
                  not-Below r l nl (ground (arith, ==_iff l r, ==_iff r l)) off,
                  refl,
                )))
        ])
      ])
    ])
  ])
]

Answer-Below :
    (path l r : Text) (answer : Option Text)
    → Answer l r answer
    → (Below path l × Below path r) ↔ BelowSome path answer
Answer-Below path l r answer (inl (b, e)) = rw e (λ h. h.0, λ h. (h, Below-trans path l r h b))
Answer-Below path l r answer (inr (inl (b, e))) =
    rw e (λ h. h.1, λ h. (Below-trans path r l h b, h))
Answer-Below path l r answer (inr (inr (lr, rl, e))) =
    rw e
      (λ h. elim (Below-Comparable path l r h.0 h.1) [ inl b ↦ lr b | inr b ↦ rl b ], λ h. absurd h)

-- intersectPathPrefixes finds the paths that two prefixes have in common: a path is below both
-- prefixes, trimmed of spaces and trailing slashes, exactly when the function answers a prefix and
-- the path is below that.
pub intersect_path_prefixes_lem :
    (left right path : Text)
    → (Below path (trim_prefix left) × Below path (trim_prefix right))
      ↔ BelowSome path (intersect_path_prefixes left right)
unfolding intersect_path_prefixes
intersect_path_prefixes_lem left right path =
    Answer-Below path (trim_prefix left) (trim_prefix right) _ (intersect_trimmed-Answer _ _)

Answer-some :
    (l r : Text) (answer : Option Text) {q : Text}
    → Answer l r answer
    → answer ≡ some q
    → (q ≡ l) ⊎ (q ≡ r)
Answer-some l r answer (inl (b, e)) h = inl (cc)
Answer-some l r answer (inr (inl (b, e))) h = inr (cc)
Answer-some l r answer (inr (inr (lr, rl, e))) h = cc

pub intersect_path_prefixes-eq-some :
    (left right : Text) {q : Text}
    → intersect_path_prefixes left right ≡ some q
    → (q ≡ trim_prefix left) ⊎ (q ≡ trim_prefix right)
unfolding intersect_path_prefixes
intersect_path_prefixes-eq-some left right h =
    Answer-some (trim_prefix left) (trim_prefix right) _ (intersect_trimmed-Answer _ _) h
