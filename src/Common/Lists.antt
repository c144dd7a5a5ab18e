-- ===== src/Common/Lists.antt =====
-- Lists: measures by native numbers, first-match search, replacement and removal, and the
-- predicates `All` and `Distinct`.
pub mod Laws
use Prim.Native.Nat.{ℕ, suc}
use mathlib.Core.Path.{◌≡◌, refl}
use mathlib.Core.Bool.{Bool, true, false}
use mathlib.Core.Logic.{◌⊎◌}
use mathlib.Core.Option.{Option, none, some}
use mathlib.Core.List.{List, [], ◌∷◌, ◌++◌}
use native.Mathlib.Omega.{arith}
use caddy_reverse_proxy.Common.Tests.{if◌then◌else◌}

module _ {ℓ} {A : Type ℓ} where
  abbrev pub length : List A → ℕ
  length [] = 0
  length (x ∷ xs) = suc (length xs)

  abbrev pub is_empty : List A → Bool
  is_empty [] = true
  is_empty (x ∷ xs) = false

  abbrev pub is_some : Option A → Bool
  is_some none = false
  is_some (some a) = true

  -- `for … { if test { return &xs[index] } }; return nil`
  unfoldable pub find : (A → Bool) → List A → Option A
  find p [] = none
  find p (x ∷ xs) = if p x then some x else find p xs

  abbrev cons_some : A → Option (List A) → Option (List A)
  cons_some x none = none
  cons_some x (some xs) = some (x ∷ xs)

  -- Overwrites the first match; `none` if there is none.
  unfoldable pub replace_first : (A → Bool) → A → List A → Option (List A)
  replace_first p u [] = none
  replace_first p u (x ∷ xs) = if p x then some (u ∷ xs) else cons_some x (replace_first p u xs)

  -- Drops the first match; `none` if there is none.
  unfoldable pub delete_first : (A → Bool) → List A → Option (List A)
  delete_first p [] = none
  delete_first p (x ∷ xs) = if p x then some xs else cons_some x (delete_first p xs)

  unfoldable pub any : (A → Bool) → List A → Bool
  any p [] = false
  any p (x ∷ xs) = if p x then true else any p xs

module _ {ℓ κ} {A : Type ℓ} where
  abbrev pub All : (A → Type κ) → List A → Type κ
  All P [] = Unit
  All P (x ∷ xs) = P x × All P xs

  -- Any two elements at different places are related, the earlier one on the left.
  abbrev pub Distinct : (A → A → Type κ) → List A → Type κ
  Distinct R [] = Unit
  Distinct R (x ∷ xs) = All (R x) xs × Distinct R xs

abbrev pub Any {ℓ} : {A : Type ℓ} → (A → Type 0) → List A → Type 0
Any P [] = ⊥
Any P (x ∷ xs) = P x ⊎ Any P xs
