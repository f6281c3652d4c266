-- ===== src/Download/Whole.antt =====
-- A file that was downloaded in several parts is the file of the server.
use rampardos.Prelude.{
  ℕ, suc, ltb, if◌then◌else◌, ◌≡◌, ◌⊎◌, inr, refl, sym, ap, ◌∙◌, Bool, true, false, some, List, [],
  ◌++◌, drop, arith,
}
use mathlib.Core.Path.{ap₂}
use mathlib.Core.List.{append_assoc, append-nil}
use rampardos.Download.Transfer.{
  Read, Response, CopyResult, copied, copy_cancelled, write_failed, read_failed, stalled, success,
  Transfer, record_total, Step, return_with, go_on, conclude,
}
use rampardos.Download.Resume.{body_bytes, ends_eof, Agrees, Copied}

-- A body that is the rest of the data, or the start of it where it does not come to its end.
abbrev pub Sends : List ℕ → List Read → Type 0
Sends rest reads =
    (left : List ℕ) × (rest ≡ body_bytes reads ++ left) × (ends_eof reads ≡ true → left ≡ [])

-- What a server that has the data may answer to a request from an offset.
pub record Honest (original : List ℕ) (offset : ℕ) (r : Response) : Type 0 where
  pub ok : r.status ≡ 200 → Sends original r.body
  pub partial : r.status ≡ 206 → Sends (drop offset original) r.body
  pub no_range : r.status ≡ 416 → (ltb 0 offset ≡ true) × (drop offset original ≡ [])

-- The transfer has nothing, or the file holds the start of the data.
pub record Holds (original content : List ℕ) (t : Transfer) : Type 0 where
  pub agrees : Agrees content t
  pub left : List ℕ
  pub start : original ≡ content ++ left

abbrev pub Resumable : List ℕ → Transfer → Type 0
Resumable original t = (t.written ≡ 0) ⊎ ((content : List ℕ) × Holds original content t)

-- What a round must keep: the file is the data when it ends well, and can be resumed otherwise.
abbrev pub Kept : List ℕ → Step × Transfer → Type 0
Kept original (s, t) =
    (s ≡ go_on → Resumable original t) × (s ≡ return_with success → t.file ≡ some original)

pub record_total-file :
    (r : Response) (t : Transfer)
    → ((record_total r t).file ≡ t.file) × ((record_total r t).written ≡ t.written)
unfolding record_total
record_total-file r t = ground arith

joined :
    (original content rest body left got w : List ℕ)
    → original ≡ content ++ rest
    → rest ≡ body ++ left
    → body ≡ got ++ w
    → original ≡ (content ++ got) ++ (w ++ left)
joined original content rest body left got w d e p =
    d
    ∙ ap (λ l. content ++ l) (e ∙ ap (λ l. l ++ left) p ∙ append_assoc got w left)
    ∙ sym (append_assoc content got (w ++ left))

-- The number of retries is no part of what the transfer holds.
retried-Resumable :
    (original now : List ℕ) (progressed : Bool) (t : Transfer)
    → Holds original now t
    → Resumable original
        (if progressed then record t { retries = 0 } else record t { retries = suc t.retries })
retried-Resumable original now true t h =
    inr (now, record { agrees = h.agrees; left = h.left; start = h.start })
retried-Resumable original now false t h =
    inr (now, record { agrees = h.agrees; left = h.left; start = h.start })

-- The file after a body, at the end of the data or before it.
module _ (original content rest : List ℕ) (reads : List Read) (d : original ≡ content ++ rest)
    (sends : Sends rest reads) where
  after-Holds :
      (c : CopyResult) (t : Transfer)
      → Copied (body_bytes reads) (ends_eof reads) content c t
      → (now : List ℕ) × Holds original now t
  after-Holds c t w = (
    content ++ w.got,
    record {
      agrees = w.agrees;
      left = w.left ++ sends.0;
      start =
          joined original content rest (body_bytes reads) (sends.0) w.got w.left d (sends.1)
            w.prefix;
    },
  )

  whole_file :
      (t : Transfer)
      → Copied (body_bytes reads) (ends_eof reads) content copied t
      → t.file ≡ some original
  whole_file t w =
      let (none_left, ended) = w.whole refl in
      w.agrees.0
      ∙ ap some (
          sym (append-nil _)
          ∙ ap (λ l. (content ++ w.got) ++ l) (sym (ap₂ (λ a b. a ++ b) none_left (sends.2 ended)))
          ∙ sym (
              joined original content rest (body_bytes reads) (sends.0) w.got w.left d (sends.1)
                w.prefix))

  pub conclude-Kept :
      (before : ℕ) (c : CopyResult) (t : Transfer)
      → Copied (body_bytes reads) (ends_eof reads) content c t
      → Kept original (conclude before (c, t))
  unfolding conclude
  conclude-Kept before copied t w = let f = whole_file t w in ground (arith, f)
  conclude-Kept before copy_cancelled t w = ground arith
  conclude-Kept before stalled t w = ground arith
  conclude-Kept before write_failed t w =
      let (now, h) = after-Holds write_failed t w in
      (λ _. retried-Resumable original now (ltb before t.written) t h, λ e. absurd (cc))
  conclude-Kept before read_failed t w =
      let (now, h) = after-Holds read_failed t w in
      (λ _. retried-Resumable original now (ltb before t.written) t h, λ e. absurd (cc))
