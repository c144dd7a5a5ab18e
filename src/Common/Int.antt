-- ===== src/Common/Int.antt =====
-- Go's `int` and `int64` values as integers, under the library's names. The program adds to none of
-- them, so no operation wraps around.
use Prim.Native.Nat.{ℕ, ◌≤◌}
use mathlib.Core.Path.{◌≡◌}
use mathlib.Core.Logic.{◌↔◌}
use mathlib.Core.Bool.{Bool, true, false}
use native.Mathlib.Omega.{arith}
use caddy_reverse_proxy.Common.{ltb, eqb}

-- `negsuc n` is -(n + 1).
pub data ℤ : Type 0 where
  pos : ℕ → ℤ
  negsuc : ℕ → ℤ

-- a == b
abbrev pub eq_ℤ : ℤ → ℤ → Bool
eq_ℤ (pos a) (pos b) = eqb a b
eq_ℤ (negsuc a) (negsuc b) = eqb a b
eq_ℤ _ _ = false

-- a < k, for a numeral k
abbrev pub lt_ℤ : ℤ → ℕ → Bool
lt_ℤ (pos a) k = ltb a k
lt_ℤ (negsuc a) k = true

-- k < a
abbrev pub gt_ℤ : ℤ → ℕ → Bool
gt_ℤ (pos a) k = ltb k a
gt_ℤ (negsuc a) k = false

-- lo ≤ a ≤ hi
abbrev pub InRange : ℕ → ℤ → ℕ → Type 0
InRange lo a hi = (n : ℕ) × (a ≡ pos n) × (lo ≤ n) × (n ≤ hi)

pub eq_ℤ_iff : (a b : ℤ) → (eq_ℤ a b ≡ true) ↔ (a ≡ b)
eq_ℤ_iff (pos a) (pos b) = ground arith
eq_ℤ_iff (negsuc a) (negsuc b) = ground arith
eq_ℤ_iff _ _ = ground arith

pub InRange-of_tests :
    (lo : ℕ) (a : ℤ) (hi : ℕ) → lt_ℤ a lo ≡ false → gt_ℤ a hi ≡ false → InRange lo a hi
InRange-of_tests lo (pos n) hi h k = (n, ground arith, ground arith, ground arith)
InRange-of_tests lo (negsuc n) hi h k = cc
