-- ===== src/Text/Trim.antt =====
-- strings.TrimFunc trims all that there is to trim.
use caddy_reverse_proxy.Common.{ℕ, ◌≡◌, refl, ap, ◌∙◌, inl, inr, Bool, false, Bool-cases, [], ◌∷◌}
use caddy_reverse_proxy.Text.{Text, is_space, push_kept, trim_left, trim_right, trim, trim_space}

module _ (p : ℕ → Bool) where
  trim_right-push_kept :
      (c : ℕ) (s : Text) → trim_right p s ≡ s → trim_right p (push_kept p c s) ≡ push_kept p c s
  unfolding trim_right
  trim_right-push_kept c [] h = elim (Bool-cases (p c)) [
    | inl e ↦ rw e refl
    | inr e ↦ rw (e, e) refl
  ]
  trim_right-push_kept c (d ∷ s) h = ap (push_kept p c) h

  trim_right-twice : (s : Text) → trim_right p (trim_right p s) ≡ trim_right p s
  unfolding trim_right
  trim_right-twice [] = refl
  trim_right-twice (c ∷ s) = trim_right-push_kept c (trim_right p s) (trim_right-twice s)

  trim_left-push_kept :
      (c : ℕ) (s : Text) → p c ≡ false → trim_left p (push_kept p c s) ≡ push_kept p c s
  unfolding trim_left
  trim_left-push_kept c [] h = rw (h, h) refl
  trim_left-push_kept c (d ∷ s) h = rw h refl

  trim_left-trim : (s : Text) → trim_left p (trim p s) ≡ trim p s
  unfolding trim trim_left trim_right
  trim_left-trim [] = refl
  trim_left-trim (c ∷ s) = elim (Bool-cases (p c)) [
    | inl e ↦ rw e (trim_left-trim s)
    | inr e ↦ rw e (trim_left-push_kept c (trim_right p s) e)
  ]

  trim-twice : (s : Text) → trim p (trim p s) ≡ trim p s
  unfolding trim
  trim-twice s = ap (trim_right p) (trim_left-trim s) ∙ trim_right-twice (trim_left p s)

pub trim_space-twice : (s : Text) → trim_space (trim_space s) ≡ trim_space s
unfolding trim_space
trim_space-twice s = trim-twice is_space s
