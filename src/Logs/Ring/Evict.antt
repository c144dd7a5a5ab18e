-- ===== src/Logs/Ring/Evict.antt =====
-- The loop of Add makes room as the queue does, and ends with room or with an empty store.
use caddy_reverse_proxy.Common.{
  ℕ, zero, suc, ◌+◌, ◌-◌, ◌%◌, ◌<◌, ◌≤◌, ◌≡◌, inl, inr, refl, ap, sym, subst, ◌∙◌, Bool, true,
  false, not, List, [], ◌∷◌, arith, if◌then◌else◌, Bool-cases,
}
use caddy_reverse_proxy.Logs.Arrays.{get_or, set, length-set, mod_once}
use caddy_reverse_proxy.Logs.Queue.{total, fits, make_room}
use caddy_reverse_proxy.Logs.{Entry, Store, no_entry, must_evict, drop_oldest, evict}
use caddy_reverse_proxy.Logs.Ring.{
  slot, slots, Outside, next-lt, slots-set, contents, IsRing, length-contents, ring,
}

module _ {F : Type 0} (nil : F) (L B : ℕ) where
  -- The store behind `drop_oldest`.
  abbrev dropped : List (Entry F) → List ℕ → ℕ → ℕ → ℕ → Store F
  dropped es ss i k b =
      ring (set es i (no_entry nil)) (set ss i 0) ((i + 1) % L) k (b - get_or ss i 0) L B

  drop_oldest-eq-dropped :
      (es : List (Entry F)) (ss : List ℕ) (i k b : ℕ)
      → drop_oldest nil (ring es ss i (suc k) b L B) ≡ dropped es ss i k b
  unfolding drop_oldest
  drop_oldest-eq-dropped es ss i k b =
      let less : suc k - 1 ≡ k = omega arith in ap (λ c. dropped es ss i c b) less

  dropped-contents :
      (es : List (Entry F)) (ss : List ℕ) (i k b : ℕ)
      → i < L
      → suc k ≤ L
      → contents nil (dropped es ss i k b) ≡ slots nil L es ss ((i + 1) % L) k
  unfolding contents
  dropped-contents es ss i k b hi hk =
      slots-set nil L es ss (no_entry nil) 0 ((i + 1) % L) i k (next-lt nil L i hi) hi
        (Outside-start i k hi hk)
    where
      Outside-start : (m n : ℕ) → m < L → suc n ≤ L → Outside nil L ((m + 1) % L) n m
      Outside-start m n hm hn = elim (mod_once (m + 1) L (omega arith)) [
        | inl (below, e) ↦ rw e (λ h. ground arith, λ h. ground arith)
        | inr (over, e) ↦ rw e (λ h. ground arith, λ h. ground arith)
      ]

  dropped-IsRing :
      (es : List (Entry F)) (ss : List ℕ) (i k b : ℕ)
      → IsRing nil (ring es ss i (suc k) b L B)
      → IsRing nil (dropped es ss i k b)
  unfolding contents slots
  dropped-IsRing es ss i k b h =
      let less : b ≡ get_or ss i 0 + total (slots nil L es ss ((i + 1) % L) k) = h.stored in
      let rest : total (contents nil (dropped es ss i k b))
          ≡ total (slots nil L es ss ((i + 1) % L) k) =
        ap total (dropped-contents es ss i k b h.start h.count) in
      let small : b ≤ B = h.bytes in
      let few : suc k ≤ L = h.count in
      record {
        entries = length-set es i (no_entry nil) ∙ h.entries;
        sizes = length-set ss i 0 ∙ h.sizes;
        start = next-lt nil L i h.start;
        count = omega arith;
        stored = omega arith;
        bytes = omega arith;
      }

  -- The loop of Add makes room as the queue does.
  pub record IsEvicted (size : ℕ) (s t : Store F) : Type 0 where
    pub at :
        IsRing nil t
        × (contents nil t ≡ make_room L B size (contents nil s))
        × (must_evict nil size t ≡ false)
        × (t.limit ≡ L)
        × (t.byte_limit ≡ B)

  must_evict-fits :
      (es : List (Entry F)) (ss : List ℕ) (i k b size : ℕ)
      → IsRing nil (ring es ss i (suc k) b L B)
      → must_evict nil size (ring es ss i (suc k) b L B)
        ≡ not (fits L B size (contents nil (ring es ss i (suc k) b L B)))
  unfolding must_evict
  must_evict-fits es ss i k b size h =
      let len = length-contents nil (ring es ss i (suc k) b L B) in
      let all : b ≡ total (contents nil (ring es ss i (suc k) b L B)) = h.stored in
      let few : suc k ≤ L = h.count in ground (arith, len, all, few)

  IsEvicted-if :
      (size : ℕ) (s : Store F) (b : Bool) (x y : Store F)
      → (b ≡ true → IsEvicted size s x)
      → (b ≡ false → IsEvicted size s y)
      → IsEvicted size s (if b then x else y)
  IsEvicted-if size s true x y h k = h refl
  IsEvicted-if size s false x y h k = k refl

  make_room-full :
      (size : ℕ) (x : Entry F × ℕ) (q : List (Entry F × ℕ))
      → fits L B size (x ∷ q) ≡ false
      → make_room L B size (x ∷ q) ≡ make_room L B size q
  unfolding make_room
  make_room-full size x q full = rw full refl

  make_room-fits :
      (size : ℕ) (q : List (Entry F × ℕ)) → fits L B size q ≡ true → make_room L B size q ≡ q
  unfolding make_room
  make_room-fits size [] enough = refl
  make_room-fits size (x ∷ q) enough = rw enough refl

  pub evict-IsEvicted :
      (size k : ℕ) (es : List (Entry F)) (ss : List ℕ) (i b : ℕ)
      → IsRing nil (ring es ss i k b L B)
      → IsEvicted size (ring es ss i k b L B) (evict nil k size (ring es ss i k b L B))
  unfolding evict must_evict contents slots make_room
  evict-IsEvicted size zero es ss i b h = record { at = (h, refl, refl, refl, refl) }
  evict-IsEvicted size (suc k) es ss i b h =
      let s = ring es ss i (suc k) b L B in
      let room = must_evict-fits es ss i k b size h in
      IsEvicted-if size s (must_evict nil size s) _ _
        (λ must.
          let (good, kept, done, limit, bytes) =
            (evict-IsEvicted size k (set es i (no_entry nil)) (set ss i 0) ((i + 1) % L)
              (b - get_or ss i 0) (dropped-IsRing es ss i k b h)).at in
          let full : fits L B size (contents nil s) ≡ false = ground (arith, room) in
          let same =
            make_room-full size (slot nil L es ss i) (slots nil L es ss ((i + 1) % L) k) full in
          subst (λ t. IsEvicted size s (evict nil k size t))
            (sym (drop_oldest-eq-dropped es ss i k b))
            (record {
              at = (
                good,
                kept
                    ∙ ap (make_room L B size) (dropped-contents es ss i k b h.start h.count)
                    ∙ sym same,
                done,
                limit,
                bytes,
              );
            }))
        (λ stop.
          let enough : fits L B size (contents nil s) ≡ true = ground (arith, room) in
          record { at = (h, sym (make_room-fits size (contents nil s) enough), stop, refl, refl) })

evict-stops :
    {F : Type 0} (nil : F) (fuel size : ℕ) (s : Store F)
    → s.count ≤ fuel
    → must_evict nil size (evict nil fuel size s) ≡ false
unfolding evict
evict-stops nil zero size s h = unfold must_evict in ground arith
evict-stops nil (suc fuel) size s h = elim (Bool-cases (must_evict nil size s)) [
  | inr e ↦ rw e e
  | inl e ↦ rw e (evict-stops nil fuel size (drop_oldest nil s) (unfold drop_oldest in omega arith))
]

evict-stopped :
    {F : Type 0} (nil : F) (fuel size : ℕ) (s : Store F)
    → must_evict nil size s ≡ false
    → evict nil fuel size s ≡ s
unfolding evict
evict-stopped nil zero size s h = refl
evict-stopped nil (suc fuel) size s h = rw h refl

evict-same :
    {F : Type 0} (nil : F) (m n size : ℕ) (s : Store F)
    → s.count ≤ m
    → s.count ≤ n
    → evict nil m size s ≡ evict nil n size s
unfolding evict
evict-same nil zero n size s h k =
    sym (evict-stopped nil n size s (unfold must_evict in ground arith))
evict-same nil (suc m) zero size s h k =
    evict-stopped nil (suc m) size s (unfold must_evict in ground arith)
evict-same nil (suc m) (suc n) size s h k = elim (Bool-cases (must_evict nil size s)) [
  | inr e ↦ rw e refl
  | inl e ↦ rw e (
      evict-same nil m n size (drop_oldest nil s) (unfold drop_oldest in omega arith)
        (unfold drop_oldest in omega arith))
]

-- The loop of Add ends within as many turns as the store has entries: with any number of turns from
-- there on its condition is false at the end, and the store is the same.
pub evict-ends :
    {F : Type 0} (nil : F) (fuel size : ℕ) (s : Store F)
    → s.count ≤ fuel
    → (must_evict nil size (evict nil fuel size s) ≡ false)
      × (evict nil fuel size s ≡ evict nil s.count size s)
evict-ends nil fuel size s h =
    (evict-stops nil fuel size s h, evict-same nil fuel s.count size s h (omega arith))
