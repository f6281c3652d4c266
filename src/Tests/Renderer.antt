-- ===== src/Tests/Renderer.antt =====
-- Concrete runs of the frame protocol, a worker and a pool.
use rampardos.Prelude.{
  ℕ, ◌==◌, ◌≡◌, ◌⊎◌, refl, Bool, true, false, Option, some, none, List, [], ◌∷◌, ◌++◌, arith, pos,
  negsuc,
}
use rampardos.Frame.{
  Frame, frame, Writer, WriteError, write_frame, read_frame, frame_ok, frame_error, frame_request,
}
use rampardos.Frame.RoundTrip.{Fits, encode, read_frame-encode, encode-read_frame}
use rampardos.Worker.{
  Worker, Handshake, Choice, answered, ended, Result, ok, err, WorkerError, render_error,
  context_ended, start_failed, dispatch, spawn_worker,
}
use rampardos.Worker.Dispatch.{dispatch-encode, spawn_worker-killed}
use rampardos.Worker.Prefix.{PrefixWriter, new_prefix_writer, write}
use rampardos.Worker.PrefixLines.{feed, Waits, write-feed}
use rampardos.Pool.{
  Pool, Event, acquire, finish, release, close, drain, drained, install, spawn, run, step,
  new_style_pool, take_out, take_out_release,
}
use rampardos.Pool.Conserve.{IsValid, run-IsValid, send_never_waits}
use rampardos.Pool.Drain.{Drained, run-Drained, release_after_close, AllPrompt}
use rampardos.Pool.Start.{Started, new_style_pool-Started}

abbrev answer : Frame
answer = record { typ = frame_ok; payload = 1 ∷ 2 ∷ [] }

abbrev answer_bytes : List ℕ
answer_bytes = frame_ok ∷ 0 ∷ 0 ∷ 0 ∷ 2 ∷ 1 ∷ 2 ∷ 9 ∷ []

read_frame-encode_example : read_frame (encode answer ++ 9 ∷ []) ≡ frame answer (9 ∷ [])
read_frame-encode_example = read_frame-encode answer (9 ∷ []) (omega arith)

encode-read_frame_example : Fits answer × (encode answer ++ 9 ∷ [] ≡ answer_bytes)
unfolding read_frame
encode-read_frame_example = encode-read_frame answer_bytes answer (9 ∷ []) (ground arith) refl

-- The second Write call fails.
abbrev half_written : Writer
half_written = record { written = []; outcomes = false ∷ true ∷ [] }

abbrev worker : Worker
worker = record {
  stdin = record { written = []; outcomes = [] };
  stdout = encode answer ++ 9 ∷ [];
  handshake = record { pid = 7; style = [] };
  renders = 3;
  once_done = false;
  killed = 0;
}

dispatch-encode_example :
    ((worker.stdout ≡ encode (record { typ = frame_ok; payload = 1 ∷ 2 ∷ [] }) ++ 9 ∷ [])
      → ((dispatch answered (5 ∷ []) worker).1 ≡ ok (1 ∷ 2 ∷ []))
        × ((dispatch answered (5 ∷ []) worker).0.stdout ≡ 9 ∷ []))
    × ((worker.stdout ≡ encode (record { typ = frame_error; payload = 1 ∷ 2 ∷ [] }) ++ 9 ∷ [])
        → ((dispatch answered (5 ∷ []) worker).1 ≡ err (render_error (1 ∷ 2 ∷ [])))
          × ((dispatch answered (5 ∷ []) worker).0.stdout ≡ 9 ∷ []))
unfolding write_frame rampardos.Frame.write_payload rampardos.Frame.write
dispatch-encode_example = dispatch-encode (5 ∷ []) (1 ∷ 2 ∷ []) (9 ∷ []) worker (omega arith) refl

abbrev parse : List ℕ → Option Handshake
parse payload = some (record { pid = 7; style = payload })

-- A process that answers before its handshake.
abbrev pipes : Option (Writer × List ℕ)
pipes = some (record { written = []; outcomes = [] }, answer_bytes)

spawn_worker-killed_example :
    let (w, r) = spawn_worker parse pipes answered in
    ((w ≡ none) × (r ≡ err start_failed))
    ⊎ (((w' : Worker) × (w ≡ some w') × (r ≡ ok w') × (w'.killed ≡ 0))
        ⊎ ((w' : Worker) × (e : WorkerError) × (w ≡ some w') × (r ≡ err e) × (w'.killed ≡ 1)))
spawn_worker-killed_example = spawn_worker-killed parse pipes answered

abbrev lines : PrefixWriter
lines = record { prefix = 91 ∷ []; buf = 65 ∷ []; out = [] }

write-feed_example :
    (write (66 ∷ 10 ∷ 67 ∷ []) lines
      ≡ some (record { prefix = 91 ∷ []; buf = 67 ∷ []; out = 91 ∷ 65 ∷ 66 ∷ 10 ∷ [] }))
    × Waits (record { prefix = 91 ∷ []; buf = 67 ∷ []; out = 91 ∷ 65 ∷ 66 ∷ 10 ∷ [] })
unfolding feed rampardos.Worker.Prefix.read_bytes
write-feed_example = write-feed (66 ∷ 10 ∷ 67 ∷ []) lines refl

-- Three places, a worker that is idle and one that is being released.
abbrev open_pool : Pool
open_pool = record {
  size = 3;
  lifetime = 500;
  idle = 0 ∷ [];
  closed = false;
  last_pid = 0;
  busy = [];
  releasing = (1, false) ∷ [];
  spawning = 0;
  spawned = 2 ∷ [];
  closing = 0;
  killed = [];
  next = 3;
}

open_pool-IsValid : IsValid open_pool
open_pool-IsValid = record { once = λ x. ground arith; bounded = omega arith }

abbrev schedule : List Event
schedule =
    acquire
    ∷ release 1 false
    ∷ close
    ∷ drain
    ∷ drained
    ∷ finish 0 false 12
    ∷ release 0 true
    ∷ install 2
    ∷ []

run-IsValid_example : IsValid (run schedule open_pool)
run-IsValid_example = run-IsValid schedule open_pool open_pool-IsValid

send_never_waits_example :
    ((r : List (ℕ × Bool))
      → take_out_release 1 false open_pool.releasing ≡ some r
      → step (release 1 false) open_pool
        ≡ some (record open_pool { idle = 0 ∷ 1 ∷ []; releasing = r }))
    × ((r : List ℕ)
        → take_out 1 open_pool.spawned ≡ some r
        → open_pool.closed ≡ false
        → step (install 1) open_pool ≡ some (record open_pool { idle = 0 ∷ 1 ∷ []; spawned = r }))
send_never_waits_example = send_never_waits open_pool 1 open_pool-IsValid

release_after_close_example :
    run (close ∷ drain ∷ drained ∷ release 1 false ∷ []) open_pool
    ≡ record open_pool { closed = true; idle = 1 ∷ []; killed = 0 ∷ []; releasing = [] }
unfolding take_out_release rampardos.Pool.same_bool
release_after_close_example = release_after_close open_pool 1 [] refl refl

new_style_pool-Started_example :
    Started (pos 2) (λ n. n == 0) (new_style_pool (pos 2) (negsuc 0) (λ n. n == 0))
new_style_pool-Started_example = new_style_pool-Started (pos 2) (negsuc 0) (λ n. n == 0)

schedule-AllPrompt : AllPrompt schedule open_pool
unfolding AllPrompt run step rampardos.Pool.acquire_step
schedule-AllPrompt = (tt, (refl, (tt, (tt, (tt, (tt, (tt, (tt, tt))))))))

run-Drained_example : Drained (run schedule open_pool)
run-Drained_example = run-Drained schedule open_pool schedule-AllPrompt (λ c _. absurd (cc))
