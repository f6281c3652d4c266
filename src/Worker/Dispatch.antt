-- ===== src/Worker/Dispatch.antt =====
-- What a dispatch and a spawn leave of the worker.
use rampardos.Prelude.{
  ℕ, ◌+◌, ◌*◌, ◌≤◌, if◌then◌else◌, ◌≡◌, ◌⊎◌, ◌↔◌, inl, inr, refl, ap, ◌∙◌, true, false, Option,
  some, none, List, ◌++◌, length, arith,
}
use rampardos.Frame.{frame_request, frame_ok, frame_error, Writer, write_frame, Frame, read_frame}
use rampardos.Frame.RoundTrip.{encode, Fits, read_frame-encode}
use rampardos.Worker.{
  Handshake, Worker, Choice, answered, ended, WorkerError, render_error, context_ended, Result, ok,
  err, kill, response, receive, dispatch, read_handshake, started, spawn_worker, start_failed,
}

-- 1 for a success.
abbrev pub successes {ℓ} : {A : Type ℓ} → Result A → ℕ
successes (ok a) = 1
successes (err e) = 0

-- The render counter counts the successful dispatches, on every branch.
pub dispatch-renders :
    (choice : Choice) (request : List ℕ) (w : Worker)
    → (dispatch choice request w).0.renders ≡ w.renders + successes (dispatch choice request w).1
unfolding dispatch receive response kill
dispatch-renders choice request w = ground arith

-- The body of `kill` has run once if the flag is set, and not at all before.
abbrev pub KilledOnce : Worker → Type 0
KilledOnce w = w.killed ≡ (if w.once_done then 1 else 0)

pub kill_twice : (w : Worker) → KilledOnce w → KilledOnce (kill w) × (kill (kill w) ≡ kill w)
unfolding kill
kill_twice w h = ground arith

-- A request to a worker that was not killed kills it exactly when it returns that its context has
-- ended.
pub dispatch-killed :
    (choice : Choice) (request : List ℕ) (w : Worker)
    → w.once_done ≡ false
    → ((dispatch choice request w).0.once_done ≡ true)
      ↔ ((dispatch choice request w).1 ≡ err context_ended)
unfolding dispatch receive response kill
dispatch-killed choice request w h = ground arith

receive-encode :
    (w : Worker) (f : Frame) (rest : List ℕ)
    → Fits f
    → w.stdout ≡ encode f ++ rest
    → receive w ≡ response f (record w { stdout = rest })
unfolding receive
receive-encode w f rest h e = rw (ap read_frame e ∙ read_frame-encode f rest h, receive)

dispatch_sent :
    (request : List ℕ) (w : Worker)
    → (write_frame frame_request request w.stdin).1 ≡ none
    → dispatch answered request w
      ≡ receive (record w { stdin = (write_frame frame_request request w.stdin).0 })
unfolding dispatch
dispatch_sent request w sent = rw (sent, dispatch)

dispatch_answer :
    (request : List ℕ) (f : Frame) (rest : List ℕ) (w : Worker)
    → Fits f
    → (write_frame frame_request request w.stdin).1 ≡ none
    → w.stdout ≡ encode f ++ rest
    → dispatch answered request w
      ≡ response f
          (record w { stdin = (write_frame frame_request request w.stdin).0; stdout = rest })
dispatch_answer request f rest w h sent e =
    dispatch_sent request w sent
    ∙ receive-encode (record w { stdin = (write_frame frame_request request w.stdin).0 }) f rest h e

-- A request that is written and answered by a K frame within the size limit returns its payload,
-- one answered by an E frame returns its message as an error, and either leaves the rest of the
-- stream for the next request.
pub dispatch-encode :
    (request payload rest : List ℕ) (w : Worker)
    → length payload ≤ 64 * 1024 * 1024
    → (write_frame frame_request request w.stdin).1 ≡ none
    → ((w.stdout ≡ encode (record { typ = frame_ok; payload = payload }) ++ rest)
        → ((dispatch answered request w).1 ≡ ok payload)
          × ((dispatch answered request w).0.stdout ≡ rest))
      × ((w.stdout ≡ encode (record { typ = frame_error; payload = payload }) ++ rest)
          → ((dispatch answered request w).1 ≡ err (render_error payload))
            × ((dispatch answered request w).0.stdout ≡ rest))
unfolding response
dispatch-encode request payload rest w h sent = (
  λ e.
      let f : Frame = record { typ = frame_ok; payload = payload } in
      rw (dispatch_answer request f rest w h sent e) (refl, refl),
  λ e.
      let f : Frame = record { typ = frame_error; payload = payload } in
      rw (dispatch_answer request f rest w h sent e) (refl, refl),
)

Result-cases {ℓ} :
    {A : Type ℓ} (r : Result A) → ((a : A) × (r ≡ ok a)) ⊎ ((e : WorkerError) × (r ≡ err e))
Result-cases (ok a) = inl (a, refl)
Result-cases (err e) = inr (e, refl)

module _ (parse : List ℕ → Option Handshake) where
  -- A spawn either starts no process and says so, or returns a worker that was not killed, or
  -- returns an error after its process was killed once.
  pub spawn_worker-killed :
      (pipes : Option (Writer × List ℕ)) (choice : Choice)
      → let (w, r) = spawn_worker parse pipes choice in
        ((w ≡ none) × (r ≡ err start_failed))
        ⊎ (((w' : Worker) × (w ≡ some w') × (r ≡ ok w') × (w'.killed ≡ 0))
            ⊎ ((w' : Worker) × (e : WorkerError) × (w ≡ some w') × (r ≡ err e) × (w'.killed ≡ 1)))
  unfolding spawn_worker kill
  spawn_worker-killed none choice = inl (refl, refl)
  spawn_worker-killed (some pipes) ended = inr (inr (_, _, refl, refl, refl))
  spawn_worker-killed (some pipes) answered = elim (Result-cases (read_handshake parse pipes.1)) [
    | inl ((hs, rest), h) ↦ inr (
        inl (
          record (started parse pipes) { handshake = hs; stdout = rest },
          rw (h, spawn_worker),
          rw (h, spawn_worker),
          refl,
        ))
    | inr (e, h) ↦
        inr (inr (kill (started parse pipes), e, rw (h, spawn_worker), rw (h, spawn_worker), refl))
  ]
