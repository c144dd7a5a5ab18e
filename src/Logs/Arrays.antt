-- ===== src/Logs/Arrays.antt =====
-- Go slices of a fixed length as lists with native indices.
use caddy_reverse_proxy.Common.{
  ℕ, zero, suc, ◌-◌, ◌+◌, ◌%◌, ◌<◌, ◌≤◌, ◌≡◌, ◌≢◌, ◌⊎◌, inl, inr, refl, ap, ◌∙◌, Bool-cases, ltb,
  List, [], ◌∷◌, arith, length,
}
use native.Mathlib.Nat.{mod-eq_of_lt, mod-eq-sub-mod}

module _ {A : Type 0} where
  abbrev pub replicate : ℕ → A → List A
  replicate zero a = []
  replicate (suc n) a = a ∷ replicate n a

  -- An index out of range, which panics in Go, reads as `d` here and writes nothing.
  abbrev pub get_or : List A → ℕ → A → A
  get_or [] i d = d
  get_or (x ∷ xs) zero d = x
  get_or (x ∷ xs) (suc i) d = get_or xs i d

  abbrev pub set : List A → ℕ → A → List A
  set [] i a = []
  set (x ∷ xs) zero a = a ∷ xs
  set (x ∷ xs) (suc i) a = x ∷ set xs i a

  pub length-replicate : (n : ℕ) (a : A) → length (replicate n a) ≡ n
  length-replicate zero a = refl
  length-replicate (suc n) a = ap suc (length-replicate n a)

  pub length-set : (xs : List A) (i : ℕ) (a : A) → length (set xs i a) ≡ length xs
  length-set [] i a = refl
  length-set (x ∷ xs) zero a = refl
  length-set (x ∷ xs) (suc i) a = ap suc (length-set xs i a)

  pub get_or-set : (xs : List A) (i : ℕ) (a d : A) → i < length xs → get_or (set xs i a) i d ≡ a
  get_or-set [] i a d h = absurd (omega arith)
  get_or-set (x ∷ xs) zero a d h = refl
  get_or-set (x ∷ xs) (suc i) a d h = get_or-set xs i a d (omega arith)

  pub get_or-set_other :
      (xs : List A) (i j : ℕ) (a d : A) → i ≢ j → get_or (set xs i a) j d ≡ get_or xs j d
  get_or-set_other [] i j a d h = refl
  get_or-set_other (x ∷ xs) zero zero a d h = absurd (h refl)
  get_or-set_other (x ∷ xs) zero (suc j) a d h = refl
  get_or-set_other (x ∷ xs) (suc i) zero a d h = refl
  get_or-set_other (x ∷ xs) (suc i) (suc j) a d h = get_or-set_other xs i j a d (λ e. h (ap suc e))

-- An index that has gone around at most once.
pub mod_once : (n m : ℕ) → n < m + m → ((n < m) × (n % m ≡ n)) ⊎ ((m ≤ n) × (n % m ≡ n - m))
mod_once n m h = elim (Bool-cases (ltb n m)) [
  | inl below ↦ inl (ground arith, mod-eq_of_lt (ground arith))
  | inr above ↦
      let over : m ≤ n = ground arith in
      inr (over, mod-eq-sub-mod over ∙ mod-eq_of_lt (omega arith))
]
