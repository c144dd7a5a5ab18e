-- ===== src/Logs/Writer/Tests.antt =====
-- A line in two calls.
use caddy_reverse_proxy.Common.{◌≡◌, List, [], ◌∷◌, ◌++◌, ◌≤◌, arith, length}
use caddy_reverse_proxy.Text.{Text, codes}
use caddy_reverse_proxy.Logs.Writer.{max_line_bytes, no_line, write_loop, write}
use caddy_reverse_proxy.Logs.Writer.Laws.{write-append, write-bound, write_loop-enough}

-- A log store that keeps the lines as they come.
abbrev keep : Text → List Text → List Text
keep line lines = line ∷ lines

write-append_example :
    write max_line_bytes keep (codes "one\ntw" ++ codes "o\n") (no_line, [])
    ≡ write max_line_bytes keep
        (codes "o\n")
        (write max_line_bytes keep (codes "one\ntw") (no_line, []))
write-append_example =
    write-append max_line_bytes keep (codes "one\ntw") (codes "o\n") (no_line, [])

write-bound_example :
    length (write max_line_bytes keep (codes "half a line") (no_line, [])).0.pending
    ≤ max_line_bytes
write-bound_example = write-bound max_line_bytes keep (codes "half a line") no_line [] (omega arith)

write_loop-enough_example :
    write_loop max_line_bytes keep 10 (codes "one\ntwo") no_line []
    ≡ write max_line_bytes keep (codes "one\ntwo") (no_line, [])
write_loop-enough_example =
    write_loop-enough max_line_bytes keep 10 (codes "one\ntwo") no_line [] (omega arith)
