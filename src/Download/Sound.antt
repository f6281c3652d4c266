-- ===== src/Download/Sound.antt =====
-- A file that was downloaded in several parts is the file of the server: the rounds of the loop.
use rampardos.Prelude.{
  ℕ, ◌==◌, ltb, ◌≡◌, ◌≢◌, ◌⊎◌, inl, inr, refl, sym, ap, ◌∙◌, true, false, ◌&&◌, ◌||◌, Option, some,
  none, List, [], ◌∷◌, ◌++◌, length, drop, drop-length-append, Bool-cases, Option-cases, arith,
}
use mathlib.Core.Path.{ap₂, subst}
use mathlib.Core.List.{append-nil}
use rampardos.Download.{no_file}
use rampardos.Download.Transfer.{
  max_retries, Response, Attempt, success, failure, Transfer, copy_body, record_total, reopen,
  return_with, go_on, conclude, receive, attempt, download_loop, download_with_progress,
}
use rampardos.Download.Resume.{whole_writes, Agrees, copy_body-Copied}
use rampardos.Download.Whole.{Sends, Honest, Resumable, Kept, record_total-file, conclude-Kept}
use rampardos.Download.Transfer.{initial}
use rampardos.Download.Rounds.{loop_exhausted, loop_go_on, loop_return, Result-cases, loop_nil}

-- The file as it is opened for a body: empty, or the file that the transfer goes on with.
reopened :
    (original : List ℕ) (r : Response) (t : Transfer)
    → (r.status ≡ 200) ⊎ (r.status ≡ 206)
    → Honest original t.written r
    → Resumable original t
    → (content : List ℕ) × (rest : List ℕ) × Agrees content (reopen r t)
      × (original ≡ content ++ rest)
      × Sends rest r.body
unfolding reopen
reopened original r t (inl s) honest held =
    ([], original, (ground (arith, s), ground (arith, s)), refl, honest.ok s)
reopened original r t (inr s) honest (inl z) =
    ([], original, (ground (arith, z), ground (arith, z)), refl, rw z at honest.partial s)
reopened original r t (inr s) honest (inr (content, h)) = elim (Bool-cases (ltb 0 t.written)) [
  | inl l ↦ (
    content,
    h.left,
    (rw (l, s) h.agrees.0, rw (l, s) h.agrees.1),
    h.start,
    subst (λ l. Sends l r.body) (ap₂ drop (h.agrees.1) h.start ∙ drop-length-append content h.left)
        (honest.partial s),
  )
  | inr l ↦
      let z : t.written ≡ 0 = ground arith in
      ([], original, (ground (arith, z), ground (arith, z)), refl, rw z at honest.partial s)
]

same-Resumable :
    (original : List ℕ) (t t' : Transfer)
    → t'.file ≡ t.file
    → t'.written ≡ t.written
    → Resumable original t
    → Resumable original t'
same-Resumable original t t' f w (inl z) = inl (w ∙ z)
same-Resumable original t t' f w (inr (content, h)) =
    inr (
      content,
      record { agrees = (f ∙ h.agrees.0, w ∙ h.agrees.1); left = h.left; start = h.start },
    )

-- `416` comes only once the file is the data.
no_range-Kept :
    (original : List ℕ) (r : Response) (t : Transfer)
    → r.status ≡ 416
    → Honest original t.written r
    → Resumable original t
    → t.file ≡ some original
no_range-Kept original r t s honest (inl z) = absurd (ground (arith, honest.no_range s, z))
no_range-Kept original r t s honest (inr (content, h)) =
    let nothing : h.left ≡ [] =
      sym (ap₂ drop (h.agrees.1) h.start ∙ drop-length-append content h.left)
      ∙ (honest.no_range s).1 in
    h.agrees.0 ∙ ap some (sym (h.start ∙ ap (λ l. content ++ l) nothing ∙ append-nil content))

Response-cases :
    (r : Response)
    → (r.status ≡ 416)
      ⊎ ((r.status ≡ 200) ⊎ (r.status ≡ 206))
      ⊎ (((r.status == 416) ≡ false) × (((r.status == 200) || (r.status == 206)) ≡ false))
Response-cases r = ground arith

received :
    (r : Response) (t : Transfer)
    → (r.status ≡ 200) ⊎ (r.status ≡ 206)
    → r.opens ≡ true
    → let opened = reopen r (record_total r t) in
      receive r t ≡ conclude opened.written (copy_body r.body opened)
unfolding receive
received r t (inl s) o = ground (arith, s, o)
received r t (inr s) o = ground (arith, s, o)

received-Kept :
    (original : List ℕ) (r : Response) (t : Transfer)
    → (r.status ≡ 200) ⊎ (r.status ≡ 206)
    → r.opens ≡ true
    → whole_writes r.body ≡ true
    → Honest original t.written r
    → Resumable original t
    → Kept original (receive r t)
received-Kept original r t s o w honest held =
    let (same_file, same_written) = record_total-file r t in
    let (content, rest, agrees, start, sends) =
      reopened original r (record_total r t) s (rw same_written honest)
        (same-Resumable original t _ same_file same_written held) in
    subst (Kept original) (sym (received r t s o)) (
      conclude-Kept original content rest r.body start sends ((reopen r (record_total r t)).written)
        _ _ (copy_body-Copied r.body (reopen r (record_total r t)) content w agrees))

-- What a round must be given: a server that has the data, and a disk that writes all or nothing.
abbrev pub Sound : List ℕ → Attempt → Transfer → Type 0
Sound original a t = elim (a.response) [
  | none ↦ Unit
  | some r ↦ Honest original t.written r × (whole_writes r.body ≡ true)
]

unopened :
    (r : Response) (t : Transfer)
    → (r.status ≡ 200) ⊎ (r.status ≡ 206)
    → r.opens ≡ false
    → (receive r t).0 ≡ return_with (failure no_file)
unfolding receive
unopened r t (inl s) o = ground (arith, s, o)
unopened r t (inr s) o = ground (arith, s, o)

other :
    (r : Response) (t : Transfer)
    → (r.status == 416) ≡ false
    → ((r.status == 200) || (r.status == 206)) ≡ false
    → (receive r t).0 ≢ return_with success
unfolding receive
other r t a b e = ground (arith, a, b, e)

receive-Kept :
    (original : List ℕ) (r : Response) (t : Transfer)
    → whole_writes r.body ≡ true
    → Honest original t.written r
    → Resumable original t
    → Kept original (receive r t)
unfolding receive
receive-Kept original r t w honest held = elim (Response-cases r) [
  | inl s ↦
      let f = no_range-Kept original r t s honest held in
      rw (f, s)
        elim (Bool-cases (ltb 0 (length original))) [
          | inl l ↦ rw l (λ e. absurd (cc), λ _. refl)
          | inr l ↦ rw l (λ _. inl refl, λ e. absurd (cc))
        ]
  | inr (inl s) ↦ elim (Bool-cases r.opens) [
    | inl o ↦ received-Kept original r t s o w honest held
    | inr o ↦ let stopped = unopened r t s o in (λ e. absurd (cc), λ e. absurd (cc))
  ]
  | inr (inr (a, b)) ↦ (λ _. rw (a, b) held, λ e. absurd (other r t a b e))
]

attempt-Kept :
    (original : List ℕ) (a : Attempt) (t : Transfer)
    → Sound original a t
    → Resumable original t
    → Kept original (attempt a t)
unfolding attempt
attempt-Kept original a t sound held = elim (Bool-cases (ltb 0 t.retries && a.cancelled_waiting)) [
  | inl c ↦ rw c (λ e. absurd (cc), λ e. absurd (cc))
  | inr c ↦ elim (Bool-cases a.request_made) [
    | inr m ↦ rw (c, m) (λ e. absurd (cc), λ e. absurd (cc))
    | inl m ↦ elim (Option-cases a.response) [
      | inl n ↦ rw (c, m, n) (λ _. same-Resumable original t _ refl refl held, λ e. absurd (cc))
      | inr (r, s) ↦
          let (honest, w) : Honest original t.written r × (whole_writes r.body ≡ true) =
            rw s at sound in
          rw (c, m, s)
            (receive-Kept original r _ w honest (same-Resumable original t _ refl refl held))
    ]
  ]
]

-- Every attempt of a download is sound when its turn comes.
unfoldable pub AllSound : List ℕ → List Attempt → Transfer → Type 0
AllSound original [] t = Unit
AllSound original (a ∷ attempts) t =
    let later : Type 0 = AllSound original attempts ((attempt a t).1) in
    Sound original a t × elim ((attempt a t).0) [ return_with _ ↦ Unit | go_on ↦ later ]

loop-file :
    (original : List ℕ) (attempts : List Attempt) (t : Transfer)
    → AllSound original attempts t
    → Resumable original t
    → (download_loop attempts t).0 ≡ success
    → (download_loop attempts t).1.file ≡ some original
unfolding AllSound
loop-file original [] t sound held e = absurd (loop_nil t e)
loop-file original (a ∷ attempts) t (sound, next) held e =
    elim (Bool-cases (ltb max_retries t.retries)) [
      | inl m ↦ absurd (cc (loop_exhausted a attempts t m, e))
      | inr m ↦
          let kept = attempt-Kept original a t sound held in
          elim (Result-cases (attempt a t)) [
            | inl (t', s) ↦
                let same = loop_go_on a attempts t t' m s in
                rw same (
                  loop-file original attempts t' (rw (ap (λ x. x.0) s, ap (λ x. x.1) s) at next)
                    ((subst (Kept original) s kept).0 refl) (rw same at e))
            | inr (o, t', s) ↦
                let same = loop_return a attempts t o t' m s in
                let won : o ≡ success = rw same at e in
                rw same ((subst (Kept original) s kept).1 (ap return_with won))
          ]
    ]

-- A download that ends well, from a server that has the data and on a disk whose writes succeed
-- whole or leave nothing, leaves exactly the data in the file, after any number of interruptions
-- and whatever the file held before.
pub download-file :
    (original : List ℕ) (file : Option (List ℕ)) (attempts : List Attempt)
    → AllSound original attempts (initial file)
    → (download_with_progress true true file attempts).0 ≡ success
    → (download_with_progress true true file attempts).1.file ≡ some original
unfolding download_with_progress
download-file original file attempts sound e =
    loop-file original attempts (initial file) sound (inl refl) e
