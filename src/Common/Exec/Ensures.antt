-- ===== src/Common/Exec/Ensures.antt =====
-- What holds after a method that returns: one rule for each way to build it.
use mathlib.Core.Path.{◌≡◌, refl}
use mathlib.Core.Bool.{Bool, true, false}
use caddy_reverse_proxy.Common.Tests.{if◌then◌else◌}
use caddy_reverse_proxy.Common.Results.{Result, ok, err}
use caddy_reverse_proxy.Common.Exec.{Exec, pure, modify, continue, ◌>>=◌}
use caddy_reverse_proxy.Common.Exec.Keeps.{Keeps}

-- From a state with `P`, if `m` returns it leaves a state with `Q`.
pub record Ensures {S E A : Type 0} (P : S → Type 0) (m : Exec S E A) (Q : S → Type 0)
    : Type 0 where
  pub at : (s : S) → P s → (a : A) → (m s).0 ≡ ok a → Q (m s).1

module _ {S E A : Type 0} {P Q : S → Type 0} where
  pub Ensures-pure : (a : A) → ((s : S) → P s → Q s) → Ensures P (pure {E = E} a) Q
  unfolding pure
  Ensures-pure a k = record { at = λ s h _ _. k s h }

  pub Ensures-if :
      (b : Bool) (m n : Exec S E A)
      → Ensures P m Q
      → Ensures P n Q
      → Ensures P (if b then m else n) Q
  Ensures-if true m n km kn = km
  Ensures-if false m n km kn = kn

module _ {S E A : Type 0} {P : S → Type 0} where
  pub Ensures_of_Keeps : (m : Exec S E A) → Keeps P m → Ensures P m P
  Ensures_of_Keeps m k = record { at = λ s h _ _. k.at s h }

module _ {S E : Type 0} {P Q : S → Type 0} where
  pub Ensures-modify : (f : S → S) → ((s : S) → P s → Q (f s)) → Ensures P (modify {E = E} f) Q
  unfolding modify
  Ensures-modify f k = record { at = λ s h _ _. k s h }

module _ {S E A B : Type 0} {Q R : S → Type 0} where
  continue-ensures :
      (o : Result E A × S) (f : A → Exec S E B)
      → ((a : A) → o.0 ≡ ok a → Q o.1)
      → ((a : A) → Ensures Q (f a) R)
      → (b : B) → (continue o f).0 ≡ ok b
      → R (continue o f).1
  continue-ensures (ok a, s) f h k b e = (k a).at s (h a refl) b e
  continue-ensures (err x, s) f h k b e = cc

module _ {S E A B : Type 0} {P Q R : S → Type 0} where
  pub Ensures-bind :
      (m : Exec S E A) (f : A → Exec S E B)
      → Ensures P m Q
      → ((a : A) → Ensures Q (f a) R)
      → Ensures P (m >>= f) R
  unfolding ◌>>=◌
  Ensures-bind m f km kf = record { at = λ s h b e. continue-ensures (m s) f (km.at s h) kf b e }
