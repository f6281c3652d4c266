-- ===== src/Download/Retries.antt =====
-- How often `downloadWithProgress` tries.
use rampardos.Prelude.{
  suc, ◌+◌, ◌==◌, ltb, if◌then◌else◌, ◌≡◌, inl, inr, refl, ap, ◌∙◌, true, false, ◌||◌, some, none,
  List, [], ◌∷◌, All, length, Bool-cases, arith,
}
use rampardos.Download.{retries_exhausted}
use rampardos.Download.Transfer.{
  max_retries, Response, Attempt, failure, running, Transfer, go_on, receive, attempt,
  download_loop,
}
use rampardos.Download.Rounds.{loop_go_on, loop_exhausted}

-- A request that gets no response, without a cancellation.
abbrev pub Unanswered : Attempt → Type 0
Unanswered a = (a.cancelled_waiting ≡ false) × (a.request_made ≡ true) × (a.response ≡ none)

-- A response whose status is not one that the loop handles, without a cancellation.
abbrev pub Rejected : Attempt → Type 0
Rejected a =
    (a.cancelled_waiting ≡ false)
    × (a.request_made ≡ true)
    × ((r : Response) × (a.response ≡ some r)
        × ((r.status == 416) ≡ false)
        × (((r.status == 200) || (r.status == 206)) ≡ false))

unanswered :
    (a : Attempt) (t : Transfer)
    → Unanswered a
    → attempt a t ≡ (go_on, record t { retries = suc t.retries; requests = t.written ∷ t.requests })
unfolding attempt
unanswered a t (c, m, n) = ground (arith, c, m, n)

refused :
    (r : Response) (t : Transfer)
    → (r.status == 416) ≡ false
    → ((r.status == 200) || (r.status == 206)) ≡ false
    → receive r t ≡ (go_on, t)
unfolding receive
refused r t x y = rw (x, y) refl

rejected :
    (a : Attempt) (t : Transfer)
    → Rejected a
    → attempt a t ≡ (go_on, record t { requests = t.written ∷ t.requests })
unfolding attempt
rejected a t (c, m, (r, s, x, y)) =
    ground (arith, c, m, s, refused r (record t { requests = t.written ∷ t.requests }) x y)

-- With requests that can be made and get no response, and no cancellation, the loop gives up with
-- an error as soon as the retries pass the limit, and not before.
pub download_loop-Unanswered :
    (attempts : List Attempt) (t : Transfer)
    → All Unanswered attempts
    → (download_loop attempts t).0 ≡ (
        if ltb max_retries (t.retries + length attempts)
        then failure retries_exhausted
        else running)
unfolding download_loop
download_loop-Unanswered [] t u = ground arith
download_loop-Unanswered (a ∷ attempts) t (u, us) = elim (Bool-cases (ltb max_retries t.retries)) [
  | inl m ↦ ap (λ r. r.0) (loop_exhausted a attempts t m) ∙ ground (arith, m)
  | inr m ↦
      ap (λ r. r.0) (loop_go_on a attempts t _ m (unanswered a t u))
      ∙ download_loop-Unanswered attempts _ us
      ∙ ground arith
]

-- With responses whose status is none of 200, 206 and 416, no cancellation and retries within the
-- limit the loop neither ends nor counts a retry, and sends one request for each of them.
pub download_loop-Rejected :
    (attempts : List Attempt) (t : Transfer)
    → All Rejected attempts
    → ltb max_retries t.retries ≡ false
    → ((download_loop attempts t).0 ≡ running)
      × ((download_loop attempts t).1.retries ≡ t.retries)
      × (length ((download_loop attempts t).1.requests) ≡ length t.requests + length attempts)
unfolding download_loop
download_loop-Rejected [] t u m = ground (arith, m)
download_loop-Rejected (a ∷ attempts) t (u, us) m =
    let same = loop_go_on a attempts t _ m (rejected a t u) in
    let (o, r, n) =
      download_loop-Rejected attempts (record t { requests = t.written ∷ t.requests }) us m in
    (
      ap (λ x. x.0) same ∙ o,
      ap (λ x. x.1.retries) same ∙ r,
      ap (λ x. length (x.1.requests)) same ∙ n ∙ omega arith,
    )
