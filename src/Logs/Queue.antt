-- ===== src/Logs/Queue.antt =====
-- What the log store promises: a queue bounded in entries and in bytes, oldest first.
use caddy_reverse_proxy.Common.{
  ℕ, zero, suc, ◌+◌, Bool, not, ◌&&◌, List, [], ◌∷◌, ◌++◌, ltb, length, if◌then◌else◌,
}

module _ {A : Type 0} where
  -- Each entry with its size.
  abbrev pub total : List (A × ℕ) → ℕ
  total [] = 0
  total ((a, size) ∷ queue) = size + total queue

  module _ (limit byte_limit : ℕ) where
    -- Whether `size` more bytes fit behind a queue.
    abbrev pub fits : ℕ → List (A × ℕ) → Bool
    fits size queue = ltb (length queue) limit && not (ltb byte_limit (total queue + size))

    -- The longest end of a queue behind which they fit.
    unfoldable pub make_room : ℕ → List (A × ℕ) → List (A × ℕ)
    make_room size [] = []
    make_room size (x ∷ queue) =
        let rest = make_room size queue in if fits size (x ∷ queue) then x ∷ queue else rest

    unfoldable pub push : A → ℕ → List (A × ℕ) → List (A × ℕ)
    push a size queue = make_room size queue ++ (a, size) ∷ []

  -- The entries from the newest to the oldest.
  unfoldable pub newest : List (A × ℕ) → List A
  newest [] = []
  newest ((a, size) ∷ queue) = newest queue ++ a ∷ []

  unfoldable pub take : ℕ → List A → List A
  take zero xs = []
  take (suc n) [] = []
  take (suc n) (x ∷ xs) = x ∷ take n xs
