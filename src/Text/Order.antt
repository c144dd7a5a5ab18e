-- ===== src/Text/Order.antt =====
-- The order of Go's strings, and sort.Strings with it.
use caddy_reverse_proxy.Common.{
  ◌≡◌, refl, Bool, true, false, List, [], ◌∷◌, ltb, if◌then◌else◌, arith, All, Any, Distinct, ◌⊎◌,
  inl, inr, ◌↔◌, Bool-cases,
}
use caddy_reverse_proxy.Text.{Text}

-- `s <= t`
unfoldable pub at_most : Text → Text → Bool
at_most [] t = true
at_most (a ∷ s) [] = false
at_most (a ∷ s) (b ∷ t) = if ltb a b then true else if ltb b a then false else at_most s t

unfoldable pub insert_text : Text → List Text → List Text
insert_text s [] = s ∷ []
insert_text s (t ∷ texts) = if at_most s t then s ∷ t ∷ texts else t ∷ insert_text s texts

-- sort.Strings: any sorting gives this list, since equal strings are one text.
unfoldable pub sort_texts : List Text → List Text
sort_texts [] = []
sort_texts (s ∷ texts) = insert_text s (sort_texts texts)

abbrev pub AtMost : Text → Text → Type 0
AtMost s t = at_most s t ≡ true

pub at_most_total : (s t : Text) → at_most s t ≡ false → AtMost t s
unfolding at_most
at_most_total [] t h = cc
at_most_total (a ∷ s) [] h = refl
at_most_total (a ∷ s) (b ∷ t) h = ground (arith, at_most_total s t)

pub AtMost-trans : (s t u : Text) → AtMost s t → AtMost t u → AtMost s u
unfolding at_most
AtMost-trans [] t u h k = refl
AtMost-trans (a ∷ s) [] u h k = cc
AtMost-trans (a ∷ s) (b ∷ t) [] h k = cc
AtMost-trans (a ∷ s) (b ∷ t) (c ∷ u) h k = ground (arith, AtMost-trans s t u)

All-AtMost-trans :
    (s t : Text) (texts : List Text) → AtMost s t → All (AtMost t) texts → All (AtMost s) texts
All-AtMost-trans s t [] h k = tt
All-AtMost-trans s t (u ∷ texts) h (k, ks) =
    (AtMost-trans s t u h k, All-AtMost-trans s t texts h ks)

All-if :
    (P : Text → Type 0) (b : Bool) (xs ys : List Text)
    → All P xs
    → All P ys
    → All P (if b then xs else ys)
All-if P true xs ys h k = h
All-if P false xs ys h k = k

All-insert_text :
    (P : Text → Type 0) (s : Text) (texts : List Text)
    → P s
    → All P texts
    → All P (insert_text s texts)
unfolding insert_text
All-insert_text P s [] h k = (h, tt)
All-insert_text P s (t ∷ texts) h (k, ks) =
    All-if P (at_most s t) (s ∷ t ∷ texts) (t ∷ insert_text s texts) (h, (k, ks))
      (k, All-insert_text P s texts h ks)

insert_text-IsSorted :
    (s : Text) (texts : List Text) → Distinct AtMost texts → Distinct AtMost (insert_text s texts)
unfolding insert_text
insert_text-IsSorted s [] h = (tt, tt)
insert_text-IsSorted s (t ∷ texts) (h, hs) = elim (Bool-cases (at_most s t)) [
  | inl below ↦ rw below ((below, All-AtMost-trans s t texts below h), (h, hs))
  | inr above ↦ rw above (
    All-insert_text (AtMost t) s texts (at_most_total s t above) h,
    insert_text-IsSorted s texts hs,
  )
]

-- The result of sort.Strings ascends.
pub sort_texts-IsSorted : (texts : List Text) → Distinct AtMost (sort_texts texts)
unfolding sort_texts
sort_texts-IsSorted [] = tt
sort_texts-IsSorted (s ∷ texts) =
    insert_text-IsSorted s (sort_texts texts) (sort_texts-IsSorted texts)

module _ (P : Text → Type 0) where
  insert_text-Any :
      (s : Text) (texts : List Text) → Any P (insert_text s texts) ↔ (P s ⊎ Any P texts)
  unfolding insert_text
  insert_text-Any s [] = ground arith
  insert_text-Any s (t ∷ texts) = ground (arith, insert_text-Any s texts)

  pub sort_texts-Any : (texts : List Text) → Any P (sort_texts texts) ↔ Any P texts
  unfolding sort_texts
  sort_texts-Any [] = (λ h. h, λ h. h)
  sort_texts-Any (s ∷ texts) =
      ground (arith, insert_text-Any s (sort_texts texts), sort_texts-Any texts)
