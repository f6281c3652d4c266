-- ===== src/Download/Resume.antt =====
-- What the copy loop of `downloadWithProgress` adds to the file.
use rampardos.Prelude.{
  ℕ, zero, suc, ◌==◌, ◌≡◌, ◌≢◌, inl, inr, refl, sym, ap, ◌∙◌, Bool, true, false, ◌&&◌, some, none,
  List, [], ◌∷◌, ◌++◌, length, take, length-append, Bool-cases, Option-cases, arith,
}
use mathlib.Core.Path.{subst}
use mathlib.Core.List.{append_assoc, append-nil}
use rampardos.Download.Transfer.{
  Next, more, eof, read_error, Read, CopyResult, copied, copy_cancelled, write_failed, stalled,
  Transfer, written_to, store, read_on, copy_body,
}

abbrev pub body_on : Next → List ℕ → List ℕ → List ℕ
body_on more bytes rest = bytes ++ rest
body_on eof bytes rest = bytes
body_on read_error bytes rest = bytes

abbrev pub eof_on : Next → Bool → Bool
eof_on more rest = rest
eof_on eof rest = true
eof_on read_error rest = false

-- The bytes of a body, and whether it ends at the end of the file.
abbrev pub body_bytes : List Read → List ℕ
body_bytes [] = []
body_bytes (r ∷ reads) = body_on r.after r.bytes (body_bytes reads)

abbrev pub ends_eof : List Read → Bool
ends_eof [] = false
ends_eof (r ∷ reads) = eof_on r.after (ends_eof reads)

-- A disk that writes all of the bytes or none.
abbrev pub whole_writes : List Read → Bool
whole_writes [] = true
whole_writes (r ∷ reads) = elim (r.short_write) [
  | none ↦ whole_writes reads
  | some n ↦ (n == 0) && whole_writes reads
]

-- The file and the count of a transfer agree.
abbrev pub Agrees : List ℕ → Transfer → Type 0
Agrees content t = (t.file ≡ some content) × (t.written ≡ length content)

-- What the copy loop adds to a file, for a body and whether it ends at the end of the file.
pub record Copied (body : List ℕ) (ended : Bool) (content : List ℕ) (r : CopyResult) (t : Transfer)
    : Type 0 where
  pub got : List ℕ
  pub left : List ℕ
  pub agrees : Agrees (content ++ got) t
  pub prefix : body ≡ got ++ left
  pub whole : r ≡ copied → (left ≡ []) × (ended ≡ true)

store-Agrees :
    (bytes content : List ℕ) (t : Transfer)
    → Agrees content t
    → Agrees (content ++ bytes) (store bytes t)
unfolding store
store-Agrees [] content t (f, n) =
    (f ∙ ap some (sym (append-nil content)), n ∙ ap length (sym (append-nil content)))
store-Agrees (b ∷ bytes) content t (f, n) = ground (arith, f, n, length-append content (b ∷ bytes))

stopped-Copied :
    (body content : List ℕ) (ended : Bool) (t : Transfer) (r : CopyResult)
    → r ≢ copied
    → Agrees content t
    → Copied body ended content r t
stopped-Copied body content ended t r h (f, n) = record {
  got = [];
  left = body;
  agrees = (f ∙ ap some (sym (append-nil content)), n ∙ ap length (sym (append-nil content)));
  prefix = refl;
  whole = λ e. absurd (h e);
}

-- A round that stores its bytes, for what follows it.
read_on-Copied :
    (n : Next) (bytes body content : List ℕ) (ended : Bool) (t : Transfer)
    (c : CopyResult × Transfer)
    → Agrees (content ++ bytes) t
    → Copied body ended (content ++ bytes) (c.0) (c.1)
    → Copied (body_on n bytes body) (eof_on n ended) content ((read_on n t c).0) ((read_on n t c).1)
read_on-Copied more bytes body content ended t (c, t') a w = record {
  got = bytes ++ w.got;
  left = w.left;
  agrees = subst (λ l. Agrees l t') (append_assoc content bytes w.got) w.agrees;
  prefix = ap (λ l. bytes ++ l) w.prefix ∙ sym (append_assoc bytes w.got w.left);
  whole = w.whole;
}
read_on-Copied eof bytes body content ended t c a w = record {
  got = bytes;
  left = [];
  agrees = a;
  prefix = sym (append-nil bytes);
  whole = λ h. (refl, refl);
}
read_on-Copied read_error bytes body content ended t c a w = record {
  got = bytes;
  left = [];
  agrees = a;
  prefix = sym (append-nil bytes);
  whole = λ h. absurd (cc);
}

-- A write that fails leaves nothing of its bytes.
failed_write-Agrees :
    (n : ℕ) (bytes content : List ℕ) (t : Transfer)
    → (n == 0) ≡ true
    → Agrees content t
    → Agrees content (record t { file = written_to (take n bytes) t.file })
failed_write-Agrees zero bytes content t h (f, n) = (rw f (ap some (append-nil content)), n)
failed_write-Agrees (suc k) bytes content t h (f, n) = absurd (ground arith)

pub copy_body-Copied :
    (reads : List Read) (t : Transfer) (content : List ℕ)
    → whole_writes reads ≡ true
    → Agrees content t
    → let (r, t') = copy_body reads t in Copied (body_bytes reads) (ends_eof reads) content r t'
unfolding copy_body
copy_body-Copied [] t content w a = stopped-Copied [] content false t stalled (λ e. absurd (cc)) a
copy_body-Copied (r ∷ reads) t content w a = elim (Bool-cases r.cancelled_before) [
  | inl c ↦ rw c (stopped-Copied _ content _ t copy_cancelled (λ e. absurd (cc)) a)
  | inr c ↦
      let stored = store-Agrees r.bytes content t a in
      elim (Option-cases r.short_write) [
        | inl s ↦
            let rest =
              copy_body-Copied reads (store r.bytes t) (content ++ r.bytes) (rw s at w) stored in
            rw (c, s) (read_on-Copied r.after r.bytes _ content _ _ _ stored rest)
        | inr (n, s) ↦
            let (zero_, w') : ((n == 0) ≡ true) × (whole_writes reads ≡ true) =
              ground (arith, w, s) in
            let rest = copy_body-Copied reads (store r.bytes t) (content ++ r.bytes) w' stored in
            elim (Bool-cases (length r.bytes == 0)) [
              | inl l ↦ rw (c, s, l) (read_on-Copied r.after r.bytes _ content _ _ _ stored rest)
              | inr l ↦
                  rw (c, s, l)
                    (stopped-Copied _ content _ _ write_failed (λ e. absurd (cc))
                      (failed_write-Agrees n r.bytes content t zero_ a))
            ]
      ]
]
