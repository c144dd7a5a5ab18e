-- ===== src/Logs/Ring/Read.antt =====
-- ReadLast answers the newest entries first.
use caddy_reverse_proxy.Common.{
  ℕ, zero, suc, ◌+◌, ◌-◌, ◌%◌, ◌<◌, ◌≤◌, ◌≡◌, inl, inr, refl, ap, sym, ◌∙◌, Bool-cases, List, [],
  ◌∷◌, ◌++◌, arith, length, ltb, eqb, ◌||◌, ◌⊎◌,
}
use native.Mathlib.Nat.{add-mod_right}
use caddy_reverse_proxy.Logs.Arrays.{get_or}
use caddy_reverse_proxy.Logs.Queue.{newest, take}
use caddy_reverse_proxy.Logs.{Store, no_entry}
use caddy_reverse_proxy.Common.Int.{ℤ, pos, negsuc}
use caddy_reverse_proxy.Logs.{read_from, read_limit, read_last}
use caddy_reverse_proxy.Logs.Ring.{slots, slots-suc, length-slots, contents, IsRing}

module _ {A : Type 0} where
  newest-append : (q : List (A × ℕ)) (a : A) (n : ℕ) → newest (q ++ (a, n) ∷ []) ≡ a ∷ newest q
  unfolding newest
  newest-append [] a n = refl
  newest-append ((b, m) ∷ q) a n = ap (λ xs. xs ++ b ∷ []) (newest-append q a n)

  length-append_one : (xs : List A) (a : A) → length (xs ++ a ∷ []) ≡ suc (length xs)
  length-append_one [] a = refl
  length-append_one (x ∷ xs) a = ap suc (length-append_one xs a)

  length-newest : (q : List (A × ℕ)) → length (newest q) ≡ length q
  unfolding newest
  length-newest [] = refl
  length-newest ((a, n) ∷ q) = length-append_one (newest q) a ∙ ap suc (length-newest q)

  take_all : (n : ℕ) (xs : List A) → length xs ≤ n → take n xs ≡ xs
  unfolding take
  take_all zero [] h = refl
  take_all zero (x ∷ xs) h = absurd (omega arith)
  take_all (suc n) [] h = refl
  take_all (suc n) (x ∷ xs) h = ap (λ ys. x ∷ ys) (take_all n xs (omega arith))

-- The number that is asked for is positive and at most the size.
abbrev pub InRing : ℤ → ℕ → Type 0
InRing (pos k) size = (0 < k) × (k ≤ size)
InRing (negsuc k) size = ⊥

-- `n` entries are allowed of a ring of `size` when `limit` are asked for.
abbrev pub IsAllowed : ℤ → ℕ → ℕ → Type 0
IsAllowed limit size n =
    (InRing limit size × (limit ≡ pos n))
    ⊎ ((¬ InRing limit size) × (n ≤ 200) × (n ≤ size) × ((n ≡ 200) ⊎ (n ≡ size)))

read_limit-IsAllowed :
    {F : Type 0} (nil : F) (limit : ℤ) (size : ℕ) → IsAllowed limit size (read_limit nil limit size)
unfolding read_limit
read_limit-IsAllowed nil (pos k) size = elim (Bool-cases (eqb k 0 || ltb size k)) [
  | inl e ↦ rw e (inr (λ (low, high). ground arith, ground arith, ground arith, ground arith))
  | inr e ↦ rw e (inl ((ground arith, ground arith), refl))
]
read_limit-IsAllowed nil (negsuc k) size = inr (λ k. k, ground arith, ground arith, ground arith)

module _ {F : Type 0} (nil : F) (s : Store F) where
  read_from-newest :
      (n offset m : ℕ)
      → s.start < s.limit
      → m + offset ≡ s.count
      → n ≤ m
      → read_from nil n offset s ≡ take n (newest (slots nil s.limit s.entries s.sizes s.start m))
  unfolding read_from take
  read_from-newest zero offset m h at few = refl
  read_from-newest (suc n) offset zero h at few = absurd (omega arith)
  read_from-newest (suc n) offset (suc m) h at few =
      let older = slots nil s.limit s.entries s.sizes s.start m in
      let index : (s.start + s.count - 1 - offset + s.limit) % s.limit ≡ (s.start + m) % s.limit =
        ap (λ k. k % s.limit) (omega arith) ∙ add-mod_right (s.start + m) s.limit in
      let front : newest (slots nil s.limit s.entries s.sizes s.start (suc m)) ≡ _ =
        ap newest (slots-suc nil s.limit s.entries s.sizes s.start m h) ∙ newest-append older _ _ in
      let first = get_or s.entries ((s.start + m) % s.limit) (no_entry nil) in
      ap (λ j. get_or s.entries j (no_entry nil) ∷ read_from nil n (offset + 1) s) index
      ∙ ap (λ xs. first ∷ xs) (read_from-newest n (offset + 1) m h (omega arith) (omega arith))
      ∙ ap (take (suc n)) (sym front)

  read_last-read_limit :
      (limit : ℤ)
      → IsRing nil s
      → read_last nil limit s ≡ take (read_limit nil limit s.limit) (newest (contents nil s))
  unfolding read_last contents
  read_last-read_limit limit h =
      let n = read_limit nil limit s.limit in
      elim (Bool-cases (ltb s.count n)) [
        | inl less ↦
            let all = newest (slots nil s.limit s.entries s.sizes s.start s.count) in
            let size : length all ≡ s.count =
              length-newest _ ∙ length-slots nil s.limit s.entries s.sizes s.start s.count in
            rw less (
              read_from-newest s.count 0 s.count h.start (omega arith) (omega arith)
              ∙ take_all s.count all (omega arith)
              ∙ sym (take_all n all (ground arith)))
        | inr enough ↦ rw enough (read_from-newest n 0 s.count h.start (omega arith) (ground arith))
      ]

  -- ReadLast answers the newest entries of a ring, newest first, as many as its limit allows: the
  -- number asked for if it is positive and at most the size of the ring, and otherwise 200 or the
  -- size of the ring if that is less.
  pub read_last-newest :
      (limit : ℤ)
      → IsRing nil s
      → (n : ℕ) × IsAllowed limit s.limit n
        × (read_last nil limit s ≡ take n (newest (contents nil s)))
  read_last-newest limit h = (
    read_limit nil limit s.limit,
    read_limit-IsAllowed nil limit s.limit,
    read_last-read_limit limit h,
  )
