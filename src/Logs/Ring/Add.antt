-- ===== src/Logs/Ring/Add.antt =====
-- Add keeps the ring and pushes on the queue.
use caddy_reverse_proxy.Common.{
  ℕ, zero, suc, ◌+◌, ◌<◌, ◌≤◌, ◌≡◌, inl, inr, refl, ap, sym, ◌∙◌, false, Bool-cases, List, [], ◌∷◌,
  ◌++◌, arith, length, ltb, if◌then◌else◌, Option, none, some,
}
use caddy_reverse_proxy.Logs.Arrays.{length-set}
use caddy_reverse_proxy.Logs.Queue.{total, push}
use caddy_reverse_proxy.Logs.{Entry, Store, no_entry, must_evict, evict, append}
use caddy_reverse_proxy.Logs.{add, add_encoded, clean, new_sized, new_store, max_store_bytes}
use caddy_reverse_proxy.Logs.Arrays.{length-replicate}
use caddy_reverse_proxy.Common.Int.{ℤ, pos, negsuc}
use caddy_reverse_proxy.Logs.Ring.{slots, slots-append, contents, IsRing, length-contents}
use caddy_reverse_proxy.Logs.Ring.Evict.{evict-IsEvicted}

total-append :
    {A : Type 0} (q : List (A × ℕ)) (a : A) (n : ℕ) → total (q ++ (a, n) ∷ []) ≡ total q + n
total-append [] a n = omega arith
total-append ((b, m) ∷ q) a n = ground (arith, total-append q a n)

total-empty : {A : Type 0} (q : List (A × ℕ)) → length q ≡ 0 → total q ≡ 0
total-empty [] h = refl
total-empty (x ∷ q) h = absurd (ground arith)

module _ {F : Type 0} (nil : F) where
  append-contents :
      (e : Entry F) (n : ℕ) (s : Store F)
      → IsRing nil s
      → s.count < s.limit
      → contents nil (append nil e n s) ≡ contents nil s ++ (e, n) ∷ []
  unfolding contents append
  append-contents e n s h room =
      let one : s.count + 1 ≡ suc s.count = omega arith in
      ap (slots nil s.limit _ _ s.start) one
      ∙ slots-append nil s.limit s.entries s.sizes e n s.start s.count h.entries h.sizes h.start
          room

  append-IsRing :
      (e : Entry F) (n : ℕ) (s : Store F)
      → IsRing nil s
      → s.count < s.limit
      → s.stored_bytes + n ≤ s.byte_limit
      → IsRing nil (append nil e n s)
  unfolding append
  append-IsRing e n s h room small =
      let held = append-contents e n s h room in
      record {
        entries = length-set s.entries _ e ∙ h.entries;
        sizes = length-set s.sizes _ n ∙ h.sizes;
        start = h.start;
        count = omega arith;
        stored =
            ap (λ b. b + n) h.stored
            ∙ sym (total-append (contents nil s) e n)
            ∙ ap total (sym held);
        bytes = small;
      }

  -- Where the loop of Add ends there is room.
  stopped-has_room :
      (size : ℕ) (t : Store F)
      → IsRing nil t
      → must_evict nil size t ≡ false
      → size ≤ t.byte_limit
      → (t.count < t.limit) × (t.stored_bytes + size ≤ t.byte_limit)
  unfolding must_evict
  stopped-has_room size t good done small =
      let start : t.start < t.limit = good.start in
      let few : t.count ≤ t.limit = good.count in
      let none_left = total-empty (contents nil t) in
      let held = length-contents nil t in
      let all : t.stored_bytes ≡ total (contents nil t) = good.stored in
      (ground (arith, start, few), ground (arith, none_left, held, all))

  -- An entry whose JSON is no longer than the byte limit is pushed on the queue, any other leaves it.
  abbrev pub pushed : ℕ → ℕ → Option ℕ → Entry F → List (Entry F × ℕ) → List (Entry F × ℕ)
  pushed limit byte_limit none e q = q
  pushed limit byte_limit (some size) e q =
      if ltb byte_limit size then q else push limit byte_limit e size q

  add_encoded-pushed :
      (encoded : Option ℕ) (e : Entry F) (s : Store F)
      → IsRing nil s
      → IsRing nil (add_encoded nil encoded e s)
        × (contents nil (add_encoded nil encoded e s)
            ≡ pushed s.limit s.byte_limit encoded e (contents nil s))
  unfolding add_encoded push
  add_encoded-pushed none e s h = (h, refl)
  add_encoded-pushed (some size) e s h = elim (Bool-cases (ltb s.byte_limit size)) [
    | inl long ↦ rw long (h, refl)
    | inr short ↦
        let t = evict nil s.count size s in
        let (good, kept, done, limit, bytes) =
          (evict-IsEvicted nil s.limit s.byte_limit size s.count s.entries s.sizes s.start
            s.stored_bytes h).at in
        let (room, small) = stopped-has_room size t good done (ground arith) in
        rw short (
          append-IsRing e size t good room small,
          append-contents e size t good room ∙ ap (λ q. q ++ (e, size) ∷ []) kept,
        )
  ]

  -- Add on a ring leaves a ring, whose entries in their order are those that the bounded queue has
  -- after a push of the cleaned entry: the oldest make room for its bytes and its place, and an entry
  -- that has no encoding or is longer than the byte limit alone changes nothing.
  pub add-contents :
      (encoded : Entry F → Option ℕ) (now : ℕ) (raw : Entry F) (s : Store F)
      → IsRing nil s
      → IsRing nil (add nil encoded now raw s)
        × (contents nil (add nil encoded now raw s)
            ≡ pushed s.limit s.byte_limit
                (encoded (clean nil now raw))
                (clean nil now raw)
                (contents nil s))
  unfolding add
  add-contents encoded now raw s h =
      add_encoded-pushed (encoded (clean nil now raw)) (clean nil now raw) s h

  new_sized-IsRing :
      (limit byte_limit : ℕ) → 0 < limit → IsRing nil (new_sized nil limit byte_limit)
  unfolding new_sized contents slots
  new_sized-IsRing limit byte_limit h = record {
    entries = length-replicate limit (no_entry nil);
    sizes = length-replicate limit 0;
    start = h;
    count = omega arith;
    stored = refl;
    bytes = omega arith;
  }

  -- A new log store, whatever limit is asked for, is an empty ring.
  pub new_store-IsRing :
      (limit : ℤ) → IsRing nil (new_store nil limit) × (contents nil (new_store nil limit) ≡ [])
  unfolding new_store contents slots
  new_store-IsRing (pos zero) = (new_sized-IsRing 1000 max_store_bytes (omega arith), refl)
  new_store-IsRing (pos (suc n)) = (new_sized-IsRing (suc n) max_store_bytes (omega arith), refl)
  new_store-IsRing (negsuc n) = (new_sized-IsRing 1000 max_store_bytes (omega arith), refl)
