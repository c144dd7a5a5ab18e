-- ===== src/Caddy/Render/Order/Laws.antt =====
-- The order of the routes: what the sort guarantees.
use caddy_reverse_proxy.Common.{
  ℕ, ◌≡◌, refl, ap, ◌∙◌, inl, inr, Bool, true, false, not, ◌&&◌, List, [], ◌∷◌, ltb, if◌then◌else◌,
  arith, Bool-cases, All, Distinct, ◌≤◌,
}
use caddy_reverse_proxy.Text.{Text, codes, ◌==◌, has_prefix, to_lower}
use caddy_reverse_proxy.Text.Laws.{==_iff}
use caddy_reverse_proxy.Text.Order.{at_most, AtMost, at_most_total, AtMost-trans}
use caddy_reverse_proxy.Model.{RouteConfig}
use caddy_reverse_proxy.Caddy.Render.Order.{
  prefix_length, is_wildcard, not_same, less, insert_route, sort_routes,
}

AtMost-antisym : (s t : Text) → AtMost s t → AtMost t s → s ≡ t
unfolding at_most
AtMost-antisym [] [] h k = refl
AtMost-antisym [] (b ∷ t) h k = cc
AtMost-antisym (a ∷ s) [] h k = cc
AtMost-antisym (a ∷ s) (b ∷ t) h k = ground (arith, AtMost-antisym s t)

AtMost-refl : (s : Text) → AtMost s s
unfolding at_most
AtMost-refl [] = refl
AtMost-refl (a ∷ s) = ground (arith, AtMost-refl s)

-- What the comparison looks at.
less_key : Bool → Text → ℕ → Bool → Text → ℕ → Bool
less_key w h n v g m = if not_same w v then not w else if h == g then ltb m n else not (at_most g h)

less_key_trans :
    (u w v : Bool) (h g k : Text) (n m l : ℕ)
    → less_key w g m u h n ≡ false
    → less_key v k l w g m ≡ false
    → less_key v k l u h n ≡ false
unfolding less_key
less_key_trans u w v h g k n m l a b = ground (
  arith,
  ==_iff k g,
  ==_iff g h,
  ==_iff k h,
  AtMost-antisym g h,
  AtMost-antisym k g,
  AtMost-trans h g k,
  AtMost-refl h,
)

less_key-asym :
    (w v : Bool) (h g : Text) (n m : ℕ) → less_key w h n v g m ≡ true → less_key v g m w h n ≡ false
unfolding less_key
less_key-asym w v h g n m a = ground (arith, ==_iff h g, ==_iff g h, at_most_total g h)

-- `left` may stand in front of `right`.
abbrev pub Precedes : RouteConfig → RouteConfig → Type 0
Precedes left right = less right left ≡ false

Precedes-trans : (a b c : RouteConfig) → Precedes a b → Precedes b c → Precedes a c
unfolding less less_key
Precedes-trans a b c h k =
    less_key_trans (is_wildcard a) (is_wildcard b) (is_wildcard c) (to_lower a.host)
      (to_lower b.host) (to_lower c.host) (prefix_length a) (prefix_length b) (prefix_length c) h k

less-Precedes : (a b : RouteConfig) → less a b ≡ true → Precedes a b
unfolding less less_key
less-Precedes a b h =
    less_key-asym (is_wildcard a) (is_wildcard b) (to_lower a.host) (to_lower b.host)
      (prefix_length a) (prefix_length b) h

All-Precedes-trans :
    (a b : RouteConfig) (routes : List RouteConfig)
    → Precedes a b
    → All (Precedes b) routes
    → All (Precedes a) routes
All-Precedes-trans a b [] h k = tt
All-Precedes-trans a b (c ∷ routes) h (k, ks) =
    (Precedes-trans a b c h k, All-Precedes-trans a b routes h ks)

All-insert_route :
    (P : RouteConfig → Type 0) (r : RouteConfig) (routes : List RouteConfig)
    → P r
    → All P routes
    → All P (insert_route r routes)
unfolding insert_route
All-insert_route P r [] h k = (h, tt)
All-insert_route P r (s ∷ routes) h (k, ks) = elim (Bool-cases (less s r)) [
  | inl e ↦ rw e (k, All-insert_route P r routes h ks)
  | inr e ↦ rw e (h, (k, ks))
]

insert_route-Precedes :
    (r : RouteConfig) (routes : List RouteConfig)
    → Distinct Precedes routes
    → Distinct Precedes (insert_route r routes)
unfolding insert_route
insert_route-Precedes r [] h = (tt, tt)
insert_route-Precedes r (s ∷ routes) (h, hs) = elim (Bool-cases (less s r)) [
  | inl e ↦ rw e (
    All-insert_route (Precedes s) r routes (less-Precedes s r e) h,
    insert_route-Precedes r routes hs,
  )
  | inr e ↦ rw e ((e, All-Precedes-trans r s routes e h), (h, hs))
]

sort_routes-Precedes : (routes : List RouteConfig) → Distinct Precedes (sort_routes routes)
unfolding sort_routes
sort_routes-Precedes [] = tt
sort_routes-Precedes (r ∷ routes) =
    insert_route-Precedes r (sort_routes routes) (sort_routes-Precedes routes)

-- Neither comes before the other: both hosts are wildcards or neither is, they are equal up to case,
-- and the prefixes are of one length.
abbrev pub ties : RouteConfig → RouteConfig → Bool
ties r s = not (less r s) && not (less s r)

-- The elements that pass a test, in their order.
abbrev pub kept : (RouteConfig → Bool) → List RouteConfig → List RouteConfig
kept p [] = []
kept p (r ∷ routes) = if p r then r ∷ kept p routes else kept p routes

swap_ties :
    (k r s : RouteConfig) (routes : List RouteConfig)
    → less s r ≡ true
    → kept (ties k) (s ∷ r ∷ routes) ≡ kept (ties k) (r ∷ s ∷ routes)
swap_ties k r s routes h = elim (Bool-cases (ties k s)) [
  | inr e ↦ rw e refl
  | inl e ↦ elim (Bool-cases (ties k r)) [
    | inr f ↦ rw f refl
    | inl f ↦
        let behind : Precedes r k = ground arith in
        let before : Precedes k s = ground arith in
        let wrong = Precedes-trans r k s behind before in cc
  ]
]

kept-insert_route :
    (k r : RouteConfig) (routes : List RouteConfig)
    → kept (ties k) (insert_route r routes) ≡ kept (ties k) (r ∷ routes)
unfolding insert_route
kept-insert_route k r [] = refl
kept-insert_route k r (s ∷ routes) = elim (Bool-cases (less s r)) [
  | inl e ↦ rw e (
      ap (λ (rest : List RouteConfig). if ties k s then s ∷ rest else rest)
        (kept-insert_route k r routes)
      ∙ swap_ties k r s routes e)
  | inr e ↦ rw e refl
]

kept-sort_routes :
    (k : RouteConfig) (routes : List RouteConfig)
    → kept (ties k) (sort_routes routes) ≡ kept (ties k) routes
unfolding sort_routes
kept-sort_routes k [] = refl
kept-sort_routes k (r ∷ routes) =
    kept-insert_route k r (sort_routes routes)
    ∙ ap (λ (rest : List RouteConfig). if ties k r then r ∷ rest else rest)
        (kept-sort_routes k routes)

-- `left` may stand in front of `right`: an exact host before a wildcard, then hosts in ascending
-- order, and of one host the longer prefix first.
abbrev pub InOrder : RouteConfig → RouteConfig → Type 0
InOrder left right =
    (is_wildcard left ≡ true → is_wildcard right ≡ true)
    × (is_wildcard left ≡ is_wildcard right → AtMost (to_lower left.host) (to_lower right.host))
    × (to_lower left.host ≡ to_lower right.host → prefix_length right ≤ prefix_length left)

same_host-is_wildcard :
    (a b : RouteConfig) → to_lower a.host ≡ to_lower b.host → is_wildcard a ≡ is_wildcard b
same_host-is_wildcard a b h = ap (λ (host : Text). has_prefix host (codes "*.")) h

Precedes-InOrder : (a b : RouteConfig) → Precedes a b → InOrder a b
unfolding less
Precedes-InOrder a b h = (
  ground arith,
  λ e. ground (arith, ==_iff (to_lower b.host) (to_lower a.host), AtMost-refl (to_lower a.host)),
  λ e. ground (arith, same_host-is_wildcard a b e, ==_iff (to_lower b.host) (to_lower a.host)),
)

Distinct-map :
    (R S : RouteConfig → RouteConfig → Type 0) (routes : List RouteConfig)
    → ((a b : RouteConfig) → R a b → S a b)
    → Distinct R routes
    → Distinct S routes
Distinct-map R S [] f h = tt
Distinct-map R S (a ∷ routes) f (h, hs) = (all routes h, Distinct-map R S routes f hs)
  where
    all : (bs : List RouteConfig) → All (R a) bs → All (S a) bs
    all [] k = tt
    all (b ∷ bs) (k, ks) = (f a b k, all bs ks)

-- The order of the generated routes. Of any two routes the earlier one is no wildcard if the later
-- one is none, of hosts that are both exact or both wildcards the lesser comes first, and of one host,
-- up to case, the longer path prefix. The sort is stable and loses nothing: for every route, the
-- routes that tie with it in these three respects are the same ones in the same order before and
-- after the sort.
pub sort_routes_lem :
    (routes : List RouteConfig) (k : RouteConfig)
    → Distinct InOrder (sort_routes routes)
      × (kept (ties k) (sort_routes routes) ≡ kept (ties k) routes)
sort_routes_lem routes k = (
  Distinct-map Precedes InOrder (sort_routes routes) Precedes-InOrder (sort_routes-Precedes routes),
  kept-sort_routes k routes,
)
