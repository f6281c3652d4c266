-- ===== src/Worker/PrefixLines.antt =====
-- What a worker's stderr looks like does not depend on how the bytes arrive.
use rampardos.Prelude.{
  ℕ, zero, suc, ◌<◌, ◌==◌, if◌then◌else◌, ◌≡◌, ◌⊎◌, inl, inr, refl, sym, ap, ◌∙◌, true, false, some,
  none, List, [], ◌∷◌, ◌++◌, length, Bool-cases, Option-cases, arith,
}
use mathlib.Core.List.{append-nil, append_assoc}
use rampardos.Worker.Prefix.{newline, PrefixWriter, read_bytes, emit, write}

-- One byte: a line end sends the line out, any other byte waits.
unfoldable pub feed : List ℕ → PrefixWriter → PrefixWriter
feed [] pw = pw
feed (b ∷ bs) pw = feed bs (
    if b == newline
    then record pw { buf = []; out = pw.out ++ (pw.prefix ++ (pw.buf ++ b ∷ [])) }
    else record pw { buf = pw.buf ++ b ∷ [] })

pub feed-append : (p q : List ℕ) (pw : PrefixWriter) → feed (p ++ q) pw ≡ feed q (feed p pw)
unfolding feed
feed-append [] q pw = refl
feed-append (b ∷ p) q pw = feed-append p q _

-- No line end is waiting.
abbrev pub Waits : PrefixWriter → Type 0
Waits pw = read_bytes pw.buf ≡ none

feed-none :
    (bs : List ℕ) (pw : PrefixWriter)
    → read_bytes bs ≡ none
    → feed bs pw ≡ record pw { buf = pw.buf ++ bs }
unfolding feed read_bytes
feed-none [] pw h = ap (λ l. record pw { buf = l }) (sym (append-nil pw.buf))
feed-none (b ∷ bs) pw h = elim (Bool-cases (b == newline)) [
  | inl p ↦ absurd (ground arith)
  | inr p ↦
      let more : read_bytes bs ≡ none = ground arith in
      rw p (
        feed-none bs (record pw { buf = pw.buf ++ b ∷ [] }) more
        ∙ ap (λ l. record pw { buf = l }) (append_assoc pw.buf (b ∷ []) bs))
]

-- How a line that starts with a byte ends.
read_bytes-cons :
    (b : ℕ) (bs line rest : List ℕ)
    → read_bytes (b ∷ bs) ≡ some (line, rest)
    → (((b == newline) ≡ true) × (line ≡ b ∷ []) × (rest ≡ bs))
      ⊎ (((b == newline) ≡ false)
          × ((l : List ℕ) × (read_bytes bs ≡ some (l, rest)) × (line ≡ b ∷ l)))
unfolding read_bytes
read_bytes-cons b bs line rest h = elim (Bool-cases (b == newline)) [
  | inl p ↦ inl (p, ground arith, ground arith)
  | inr p ↦ elim (Option-cases (read_bytes bs)) [
    | inl n ↦ absurd (ground arith)
    | inr ((l, r), e) ↦ inr (p, (l, ground arith, ground arith))
  ]
]

feed_line :
    (bs line rest : List ℕ) (pw : PrefixWriter)
    → read_bytes bs ≡ some (line, rest)
    → feed bs pw
      ≡ feed rest (record pw { buf = []; out = pw.out ++ (pw.prefix ++ (pw.buf ++ line)) })
unfolding feed read_bytes
feed_line [] line rest pw h = absurd (cc)
feed_line (b ∷ bs) line rest pw h = elim (read_bytes-cons b bs line rest h) [
  | inl (p, l, r) ↦ rw (p, l, r) refl
  | inr (p, (l, more, e)) ↦
      rw (p, e)
        (feed_line bs l rest (record pw { buf = pw.buf ++ b ∷ [] }) more
          ∙ ap (λ t. feed rest (record pw { buf = []; out = pw.out ++ (pw.prefix ++ t) }))
              (append_assoc pw.buf (b ∷ []) l))
]

length-rest : (bs line rest : List ℕ) → read_bytes bs ≡ some (line, rest) → length rest < length bs
length-rest [] line rest h = absurd (unfold read_bytes in cc)
length-rest (b ∷ bs) line rest h = elim (read_bytes-cons b bs line rest h) [
  | inl (p, l, r) ↦ rw r (omega arith)
  | inr (p, (l, more, e)) ↦ omega (arith, length-rest bs l rest more)
]

emit-feed :
    (fuel : ℕ) (pw : PrefixWriter)
    → length pw.buf < fuel
    → (emit fuel pw ≡ some (feed pw.buf (record pw { buf = [] })))
      × Waits (feed pw.buf (record pw { buf = [] }))
unfolding emit
emit-feed zero pw f = absurd (omega arith)
emit-feed (suc fuel) pw f = elim (Option-cases (read_bytes pw.buf)) [
  | inl n ↦
      let e : feed pw.buf (record pw { buf = [] }) ≡ pw =
        feed-none pw.buf (record pw { buf = [] }) n in
      (rw (n, emit) (ap some (sym e)), rw e n)
  | inr ((line, rest), h) ↦
      let pw' : PrefixWriter = record pw { buf = rest; out = pw.out ++ (pw.prefix ++ line) } in
      let (r, w) = emit-feed fuel pw' (omega (arith, length-rest pw.buf line rest h)) in
      let e = feed_line pw.buf line rest (record pw { buf = [] }) h in
      (rw (h, emit) (r ∙ ap some (sym e)), rw e w)
]

-- A write to a writer in which no line end waits ends, and leaves none; it acts byte by byte, so
-- that every line with its end goes out once behind the prefix and the bytes after the last line
-- end wait.
pub write-feed :
    (p : List ℕ) (pw : PrefixWriter)
    → Waits pw
    → (write p pw ≡ some (feed p pw)) × Waits (feed p pw)
unfolding write
write-feed p pw h =
    let all : feed (pw.buf ++ p) (record pw { buf = [] }) ≡ feed p pw =
      feed-append pw.buf p (record pw { buf = [] })
      ∙ ap (feed p) (feed-none pw.buf (record pw { buf = [] }) h) in
    let filled : PrefixWriter = record pw { buf = pw.buf ++ p } in
    let (r, w) = emit-feed (suc (length filled.buf)) filled (omega arith) in
    (r ∙ ap some all, rw (← all) w)

-- Two writes, one after the other, to a writer in which no line end waits, both end and leave what
-- one write of all the bytes leaves.
pub write-append :
    (p q : List ℕ) (pw : PrefixWriter)
    → Waits pw
    → (pw' : PrefixWriter) × (write p pw ≡ some pw') × (write q pw' ≡ write (p ++ q) pw)
write-append p q pw h =
    let (r, w) = write-feed p pw h in
    let (s, _) = write-feed q (feed p pw) w in
    let (t, _) = write-feed (p ++ q) pw h in
    (feed p pw, r, s ∙ ap some (sym (feed-append p q pw)) ∙ sym t)
