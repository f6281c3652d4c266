-- ===== src/Worker.antt =====
-- rampardos/internal/services/renderer/worker.go: one child process that speaks the frame protocol.
-- The process is what it will still write to its stdout (`answers`). Which branch of a `select`
-- runs, the answer's or the other one's, is an argument. Starting and killing the process is the
-- operating system's: `start` gives the pipes of the new process, and `killed` counts the runs of
-- the body of `kill`.
use rampardos.Prelude.{ℕ, ◌+◌, ◌==◌, if◌then◌else◌, Bool, true, false, Option, some, none, List, []}
use rampardos.Frame.{
  frame_request, frame_ok, frame_error, frame_handshake, Writer, WriteError, write_frame, ReadError,
  Frame, frame, failed, read_frame,
}
pub mod Dispatch
pub mod Prefix
pub mod PrefixLines

pub record Handshake : Type 0 where
  pub pid : ℕ
  pub style : List ℕ

pub record Worker : Type 0 where
  pub stdin : Writer
  pub stdout : List ℕ
  pub handshake : Handshake
  pub renders : ℕ  -- atomic.Int64
  pub once_done : Bool  -- `killOnce`
  pub killed : ℕ

-- What a `select` on the answer and on the context's end chooses.
pub data Choice : Type 0 where
  answered ended : Choice

pub data WorkerError : Type 0 where
  write_request : WriteError → WorkerError
  read_response : ReadError → WorkerError
  -- `*RenderError`
  render_error : List ℕ → WorkerError
  unexpected_frame : ℕ → WorkerError
  context_ended : WorkerError
  not_handshake : ℕ → WorkerError
  handshake_json : WorkerError
  handshake_timeout : WorkerError
  start_failed : WorkerError

pub data Result {ℓ} (A : Type ℓ) : Type ℓ where
  ok : A → Result A
  err : WorkerError → Result A

-- `killOnce.Do` runs its function the first time only.
unfoldable pub kill : Worker → Worker
kill w = if w.once_done then w else record w { once_done = true; killed = w.killed + 1 }

-- The switch on the type of the response frame.
unfoldable pub response : Frame → Worker → Worker × Result (List ℕ)
response f w =
    if f.typ == frame_ok
    then (record w { renders = w.renders + 1 }, ok f.payload)
    else if f.typ == frame_error
    then (w, err (render_error f.payload))
    else (w, err (unexpected_frame f.typ))

-- The reader goroutine's result, in the branch of the select that receives it.
unfoldable pub receive : Worker → Worker × Result (List ℕ)
receive w = elim (read_frame w.stdout) [
  | failed e ↦ (w, err (read_response e))
  | frame f rest ↦ response f (record w { stdout = rest })
]

unfoldable pub dispatch : Choice → List ℕ → Worker → Worker × Result (List ℕ)
dispatch choice request w =
    let (stdin, e) = write_frame frame_request request w.stdin in
    let sent = record w { stdin = stdin } in
    elim e [
      | some x ↦ (sent, err (write_request x))
      | none ↦ elim choice [ answered ↦ receive sent | ended ↦ (kill sent, err context_ended) ]
    ]

module _ (parse : List ℕ → Option Handshake) where
  -- The goroutine of `spawnWorker` that reads the handshake; `parse` is `json.Unmarshal`.
  unfoldable pub read_handshake : List ℕ → Result (Handshake × List ℕ)
  read_handshake stdout = elim (read_frame stdout) [
    | failed e ↦ err (read_response e)
    | frame f rest ↦
        let parsed : Result (Handshake × List ℕ) = elim (parse f.payload) [
          | none ↦ err handshake_json
          | some hs ↦ ok (hs, rest)
        ] in
        if f.typ == frame_handshake then parsed else err (not_handshake f.typ)
  ]

  -- A worker before its handshake.
  unfoldable pub started : Writer × List ℕ → Worker
  started (stdin, stdout) = record {
    stdin = stdin;
    stdout = stdout;
    handshake = record { pid = 0; style = [] };
    renders = 0;
    once_done = false;
    killed = 0;
  }

  -- The worker is returned beside the error, so that what became of its process can be stated.
  unfoldable pub spawn_worker : Option (Writer × List ℕ) → Choice → Option Worker × Result Worker
  unfolding started
  spawn_worker none choice = (none, err start_failed)
  spawn_worker (some pipes) choice =
      let w = started pipes in
      elim choice [
        | ended ↦ (some (kill w), err handshake_timeout)
        | answered ↦ elim (read_handshake w.stdout) [
          | err e ↦ (some (kill w), err e)
          | ok (hs, rest) ↦
              let ready = record w { handshake = hs; stdout = rest } in (some ready, ok ready)
        ]
      ]
