-- ===== src/Worker/Prefix.antt =====
-- `prefixWriter` of rampardos/internal/services/renderer/worker.go: the stderr of a worker, line by
-- line with a prefix. `buf` is what has come since the last line end, `out` what went to stderr.
use rampardos.Prelude.{
  ℕ, zero, suc, ◌==◌, if◌then◌else◌, Option, some, none, List, [], ◌∷◌, ◌++◌, length,
}

abbrev pub newline : ℕ
newline = 10

pub record PrefixWriter : Type 0 where
  pub prefix : List ℕ
  pub buf : List ℕ
  pub out : List ℕ

unfoldable pub new_prefix_writer : List ℕ → PrefixWriter
new_prefix_writer prefix = record { prefix = prefix; buf = []; out = [] }

-- `buf.ReadBytes('\n')`: the line with its end and what follows it, or `none` if no end is there.
unfoldable pub read_bytes : List ℕ → Option (List ℕ × List ℕ)
read_bytes [] = none
read_bytes (b ∷ bs) =
    let rest : Option (List ℕ × List ℕ) = elim (read_bytes bs) [
      | none ↦ none
      | some (line, r) ↦ some (b ∷ line, r)
    ] in
    if b == newline then some (b ∷ [], bs) else rest

-- The loop, with fuel: `none` means that it has not ended. A line goes out behind the prefix; where
-- no line end is left the bytes stay in the buffer.
unfoldable pub emit : ℕ → PrefixWriter → Option PrefixWriter
emit zero pw = none
emit (suc fuel) pw = elim (read_bytes pw.buf) [
  | none ↦ some pw
  | some (line, rest) ↦ emit fuel (record pw { buf = rest; out = pw.out ++ (pw.prefix ++ line) })
]

-- `Write`: the new state. It returns the number of bytes it was given and no error.
unfoldable pub write : List ℕ → PrefixWriter → Option PrefixWriter
unfolding emit
write p pw = let filled = record pw { buf = pw.buf ++ p } in emit (suc (length filled.buf)) filled
