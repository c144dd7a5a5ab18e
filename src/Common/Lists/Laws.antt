-- ===== src/Common/Lists/Laws.antt =====
-- What search, replacement and removal keep of a list, by induction on relations between the lists.
use mathlib.Core.Path.{◌≡◌, refl, subst}
use mathlib.Core.Bool.{Bool, true, false}
use mathlib.Core.Logic.{inl, inr}
use mathlib.Core.Option.{Option, none, some, some-injective}
use mathlib.Core.List.{List, [], ◌∷◌, ◌++◌, map}
use caddy_reverse_proxy.Common.Tests.{Bool-cases}
use caddy_reverse_proxy.Common.Lists.{
  find, replace_first, delete_first, cons_some, All, Distinct, is_some,
}

module _ {ℓ} {A : Type ℓ} where
  -- `ys` is `xs` with `u` in place of the first element that passes `p`.
  pub data Replaced (p : A → Bool) (u : A) : List A → List A → Type ℓ where
    here : {x : A} {xs : List A} → p x ≡ true → Replaced p u (x ∷ xs) (u ∷ xs)
    there :
        {x : A} {xs ys : List A} → p x ≡ false → Replaced p u xs ys → Replaced p u (x ∷ xs) (x ∷ ys)

  -- `ys` is `xs` without its first element that passes `p`.
  pub data Deleted (p : A → Bool) : List A → List A → Type ℓ where
    here : {x : A} {xs : List A} → p x ≡ true → Deleted p (x ∷ xs) xs
    there : {x : A} {xs ys : List A} → p x ≡ false → Deleted p xs ys → Deleted p (x ∷ xs) (x ∷ ys)

  cons_some-eq-some :
      (x : A) (o : Option (List A)) {ys : List A}
      → cons_some x o ≡ some ys
      → (zs : List A) × (o ≡ some zs) × (x ∷ zs ≡ ys)
  cons_some-eq-some x none h = cc
  cons_some-eq-some x (some zs) h = (zs, refl, cc)

  pub replace_first-Replaced :
      (p : A → Bool) (u : A) (xs : List A) {ys : List A}
      → replace_first p u xs ≡ some ys
      → Replaced p u xs ys
  unfolding replace_first
  replace_first-Replaced p u [] h = cc
  replace_first-Replaced p u (x ∷ xs) h = elim (Bool-cases (p x)) [
    | inl e ↦
        let same : u ∷ xs ≡ _ = some-injective _ _ (rw e at h) in
        subst (λ zs. Replaced p u (x ∷ xs) zs) same (here e)
    | inr e ↦
        let (zs, rest, same) = cons_some-eq-some x _ (rw e at h) in
        subst (λ ys. Replaced p u (x ∷ xs) ys) same (there e (replace_first-Replaced p u xs rest))
  ]

  pub delete_first-Deleted :
      (p : A → Bool) (xs : List A) {ys : List A} → delete_first p xs ≡ some ys → Deleted p xs ys
  unfolding delete_first
  delete_first-Deleted p [] h = cc
  delete_first-Deleted p (x ∷ xs) h = elim (Bool-cases (p x)) [
    | inl e ↦
        let same : xs ≡ _ = some-injective _ _ (rw e at h) in
        subst (λ zs. Deleted p (x ∷ xs) zs) same (here e)
    | inr e ↦
        let (zs, rest, same) = cons_some-eq-some x _ (rw e at h) in
        subst (λ ys. Deleted p (x ∷ xs) ys) same (there e (delete_first-Deleted p xs rest))
  ]

  pub find-eq-some : (p : A → Bool) (xs : List A) {x : A} → find p xs ≡ some x → p x ≡ true
  unfolding find
  find-eq-some p [] h = cc
  find-eq-some p (x ∷ xs) h = elim (Bool-cases (p x)) [
    | inl e ↦ subst (λ y. p y ≡ true) (some-injective _ _ (rw e at h)) e
    | inr e ↦ find-eq-some p xs (rw e at h)
  ]

  pub is_some-find-append :
      (p : A → Bool) (xs ys : List A)
      → is_some (find p xs) ≡ true
      → is_some (find p (xs ++ ys)) ≡ true
  unfolding find
  is_some-find-append p [] ys h = cc
  is_some-find-append p (x ∷ xs) ys h = elim (Bool-cases (p x)) [
    | inl e ↦ rw e
    | inr e ↦ rw e (is_some-find-append p xs ys (rw e at h))
  ]

  -- A replacement that passes the tests of the element it replaces leaves every search successful.
  pub is_some-find-Replaced :
      (q p : A → Bool) (u : A) {xs ys : List A}
      → Replaced p u xs ys
      → ((x : A) → p x ≡ true → q x ≡ true → q u ≡ true)
      → is_some (find q xs) ≡ true
      → is_some (find q ys) ≡ true
  unfolding find
  is_some-find-Replaced q p u (here {x} {xs} e) keep h = elim (Bool-cases (q x)) [
    | inl qx ↦ rw (keep x e qx)
    | inr qx ↦ elim (Bool-cases (q u)) [ inl qu ↦ rw qu | inr qu ↦ rw qu (rw qx at h) ]
  ]
  is_some-find-Replaced q p u (there {x} e r) keep h = elim (Bool-cases (q x)) [
    | inl qx ↦ rw qx
    | inr qx ↦ rw qx (is_some-find-Replaced q p u r keep (rw qx at h))
  ]

  -- A search that the deleted element does not pass stays successful.
  pub is_some-find-Deleted :
      (q p : A → Bool) {xs ys : List A}
      → Deleted p xs ys
      → ((x : A) → p x ≡ true → q x ≡ false)
      → is_some (find q xs) ≡ true
      → is_some (find q ys) ≡ true
  unfolding find
  is_some-find-Deleted q p (here {x} e) apart h = rw (apart x e) at h
  is_some-find-Deleted q p (there {x} e r) apart h = elim (Bool-cases (q x)) [
    | inl qx ↦ rw qx
    | inr qx ↦ rw qx (is_some-find-Deleted q p r apart (rw qx at h))
  ]

module _ {ℓ κ} {A : Type ℓ} (P : A → Type κ) where
  pub All-append_one : (xs : List A) {x : A} → All P xs → P x → All P (xs ++ x ∷ [])
  All-append_one [] h k = (k, tt)
  All-append_one (y ∷ xs) (q, h) k = (q, All-append_one xs h k)

  pub All-Replaced :
      (p : A → Bool) (u : A) {xs ys : List A} → Replaced p u xs ys → All P xs → P u → All P ys
  All-Replaced p u (here e) (q, h) k = (k, h)
  All-Replaced p u (there e r) (q, h) k = (q, All-Replaced p u r h k)

  pub All-Deleted : (p : A → Bool) {xs ys : List A} → Deleted p xs ys → All P xs → All P ys
  All-Deleted p (here e) (q, h) = h
  All-Deleted p (there e r) (q, h) = (q, All-Deleted p r h)

  pub find-All : (p : A → Bool) (xs : List A) {x : A} → All P xs → find p xs ≡ some x → P x
  unfolding find
  find-All p [] h e = cc
  find-All p (y ∷ xs) (q, h) e = elim (Bool-cases (p y)) [
    | inl yes_p ↦ subst P (some-injective _ _ (rw yes_p at e)) q
    | inr no_p ↦ find-All p xs h (rw no_p at e)
  ]

module _ {ℓ κ ι} {A : Type ℓ} (P : A → Type κ) (Q : A → Type ι) (f : (x : A) → P x → Q x) where
  pub All-mono : (xs : List A) → All P xs → All Q xs
  All-mono [] h = tt
  All-mono (x ∷ xs) (p, h) = (f x p, All-mono xs h)

module _ {ℓ κ} {A : Type ℓ} (R : A → A → Type κ) where
  pub Distinct-append_one :
      (xs : List A) (x : A) → Distinct R xs → All (λ y. R y x) xs → Distinct R (xs ++ x ∷ [])
  Distinct-append_one [] x h k = (tt, tt)
  Distinct-append_one (y ∷ xs) x (q, h) (p, k) =
      (All-append_one (R y) xs q p, Distinct-append_one xs x h k)

  pub Distinct-Deleted :
      (p : A → Bool) {xs ys : List A} → Deleted p xs ys → Distinct R xs → Distinct R ys
  Distinct-Deleted p (here e) (q, h) = h
  Distinct-Deleted p (there e r) (q, h) = (All-Deleted _ p r q, Distinct-Deleted p r h)

  -- The new element need only be apart from the elements that the search passes over, if no two
  -- elements pass it.
  pub Distinct-Replaced :
      (p : A → Bool) (u : A) {xs ys : List A}
      → ((x y : A) → R x y → p x ≡ true → p y ≡ false)
      → ((x y : A) → R x y → R y x)
      → Replaced p u xs ys
      → Distinct R xs
      → All (λ x. p x ≡ false → R x u) xs
      → Distinct R ys
  Distinct-Replaced p u single flip (here {x} {xs} e) (q, h) (_, k) = (zip xs q k, h)
    where
      zip : (zs : List A) → All (R x) zs → All (λ z. p z ≡ false → R z u) zs → All (R u) zs
      zip [] a b = tt
      zip (z ∷ zs) (a, a_s) (b, b_s) = (flip z u (b (single x z a e)), zip zs a_s b_s)
  Distinct-Replaced p u single flip (there {x} e r) (q, h) (b, k) =
      (All-Replaced _ p u r q (b e), Distinct-Replaced p u single flip r h k)

module _ {ℓ κ} {A : Type ℓ} where
  pub All-map :
      (P : A → Type κ) (f : A → A) (xs : List A) → All (λ x. P (f x)) xs → All P (map f xs)
  All-map P f [] h = tt
  All-map P f (x ∷ xs) (p, h) = (p, All-map P f xs h)

  pub Distinct-map :
      (R : A → A → Type κ) (f : A → A) (xs : List A)
      → Distinct (λ x y. R (f x) (f y)) xs
      → Distinct R (map f xs)
  Distinct-map R f [] h = tt
  Distinct-map R f (x ∷ xs) (p, h) = (All-map (R (f x)) f xs p, Distinct-map R f xs h)
