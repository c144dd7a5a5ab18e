-- ===== src/Logs/Writer.antt =====
-- backend/internal/logs/store.go: the writer that cuts a stream of bytes into lines.
pub mod Laws
mod Tests
use caddy_reverse_proxy.Common.{
  ℕ, zero, suc, ◌+◌, ◌-◌, ◌*◌, Bool, true, false, Option, none, some, List, [], ◌∷◌, ◌++◌, eqb, ltb,
  length, if◌then◌else◌,
}
use caddy_reverse_proxy.Text.{Text, ◌==◌, trim_space}
use caddy_reverse_proxy.Logs.Queue.{take}

abbrev pub max_line_bytes : ℕ
max_line_bytes = 64 * 1024

-- The fields of lineWriter that Write changes.
pub record LineWriter : Type 0 where
  pub pending : Text
  pub dropping : Bool

abbrev pub no_line : LineWriter
no_line = record { pending = []; dropping = false }

-- data[:newline], and data[newline+1:] if there is a newline.
unfoldable pub first_line : Text → Text × Option Text
first_line [] = ([], none)
first_line (c ∷ bytes) =
    let (part, rest) = first_line bytes in if eqb c 10 then ([], some bytes) else (c ∷ part, rest)

-- `limit` is maxLineBytes.
module _ (limit : ℕ) where
  unfoldable pub take_part : Text → LineWriter → LineWriter
  take_part part w =
      let available = limit - length w.pending in
      if w.dropping
      then w
      else if ltb available (length part)
      then record { pending = w.pending ++ take available part; dropping = true }
      else record w { pending = w.pending ++ part }

  -- `S` is the log store, and `emit` adds the entry that parseEntry makes of a line.
  module _ {S : Type 0} (emit : Text → S → S) where
    unfoldable pub add_line : Text → S → S
    add_line raw s = let line = trim_space raw in if line == [] then s else emit line s

    -- The loop of Write, each turn on what the last one has left.
    unfoldable pub write_loop : ℕ → Text → LineWriter → S → LineWriter × S
    write_loop zero bytes w s = (w, s)
    write_loop (suc fuel) [] w s = (w, s)
    write_loop (suc fuel) (c ∷ bytes) w s =
        let (part, rest) = first_line (c ∷ bytes) in
        let w' = take_part part w in
        elim rest [
          | none ↦ (w', s)
          | some left ↦ write_loop fuel left no_line (add_line w'.pending s)
        ]

    -- A turn takes a byte at least, so as many turns as there are bytes are enough.
    unfoldable pub write : Text → LineWriter × S → LineWriter × S
    write bytes (w, s) = write_loop (length bytes) bytes w s
