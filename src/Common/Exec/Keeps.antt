-- ===== src/Common/Exec/Keeps.antt =====
-- Properties that a method keeps, whether it returns or fails: one rule for each kind of action.
use mathlib.Core.Path.{◌≡◌, refl}
use mathlib.Core.Bool.{Bool, true, false}
use caddy_reverse_proxy.Common.Tests.{if◌then◌else◌}
use caddy_reverse_proxy.Common.Results.{Result, ok, err}
use caddy_reverse_proxy.Common.Exec.{
  Exec, pure, lift, gets, change, changed, modify, continue, ◌>>=◌,
}

pub record Keeps {S E A : Type 0} (P : S → Type 0) (m : Exec S E A) : Type 0 where
  pub at : (s : S) → P s → P (m s).1

module _ {S E A : Type 0} {P : S → Type 0} where
  pub Keeps-pure : (a : A) → Keeps P (pure {E = E} a)
  unfolding pure
  Keeps-pure a = record { at = λ s h. h }

  pub Keeps-gets : (f : S → A) → Keeps P (gets {E = E} f)
  unfolding gets
  Keeps-gets f = record { at = λ s h. h }

  pub Keeps-lift : (r : Result E A) → Keeps P (lift r)
  unfolding lift
  Keeps-lift r = record { at = λ s h. h }

  changed-Keeps :
      (s : S) (r : Result E (A × S))
      → P s
      → ((a : A) (s' : S) → r ≡ ok (a, s') → P s')
      → P (changed s r).1
  changed-Keeps s (err e) h k = h
  changed-Keeps s (ok (a, s')) h k = k a s' refl

  pub Keeps-change :
      (f : S → Result E (A × S))
      → ((s : S) (a : A) (s' : S) → f s ≡ ok (a, s') → P s → P s')
      → Keeps P (change f)
  unfolding change
  Keeps-change f k = record { at = λ s h. changed-Keeps s (f s) h (λ a s' e. k s a s' e h) }

  pub Keeps-if :
      (b : Bool) (m n : Exec S E A) → Keeps P m → Keeps P n → Keeps P (if b then m else n)
  Keeps-if true m n km kn = km
  Keeps-if false m n km kn = kn

module _ {S E : Type 0} {P : S → Type 0} where
  pub Keeps-modify : (f : S → S) → ((s : S) → P s → P (f s)) → Keeps P (modify {E = E} f)
  unfolding modify
  Keeps-modify f k = record { at = k }

module _ {S E A B : Type 0} {P : S → Type 0} where
  pub continue-Keeps :
      (o : Result E A × S) (f : A → Exec S E B)
      → P o.1
      → ((a : A) → Keeps P (f a))
      → P (continue o f).1
  continue-Keeps (ok a, s) f h k = (k a).at s h
  continue-Keeps (err e, s) f h k = h

  pub Keeps-bind :
      (m : Exec S E A) (f : A → Exec S E B)
      → Keeps P m
      → ((a : A) → Keeps P (f a))
      → Keeps P (m >>= f)
  unfolding ◌>>=◌
  Keeps-bind m f km kf = record { at = λ s h. continue-Keeps (m s) f (km.at s h) kf }

pub ruleset keeps_rules = (Keeps-pure, Keeps-lift, Keeps-gets, Keeps-if, Keeps-bind)
