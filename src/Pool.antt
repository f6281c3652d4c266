-- ===== src/Pool.antt =====
-- rampardos/internal/services/renderer/pool.go: the workers of one style. Several goroutines share
-- the idle channel; the state holds, beside the pool's own fields, which workers each of them has
-- in hand between two atomic steps. A step is what one goroutine does from one lock, channel
-- operation or worker call to the next; `none` means that the step cannot be taken. Workers are
-- numbers, and the scheduler's choices are the list of events.
use rampardos.Prelude.{
  ℕ, zero, suc, ◌+◌, ◌-◌, ◌==◌, ltb, leb, if◌then◌else◌, Bool, true, false, not, ◌&&◌, ◌||◌, Option,
  some, none, List, [], ◌∷◌, ◌++◌, length, ℤ, not_positive, to_ℕ,
}
pub mod Conserve
pub mod Drain
pub mod Start

pub record Pool : Type 0 where
  pub size : ℕ  -- `cfg.poolSize`, the capacity of the channel
  pub lifetime : ℕ  -- `cfg.workerLifetime`
  pub idle : List ℕ  -- the channel, next worker first
  pub closed : Bool
  pub last_pid : ℕ
  pub busy : List ℕ  -- taken by a `dispatch`
  pub releasing : List (ℕ × Bool)  -- in `releaseWorker`, with the value of `closed` it has read
  pub spawning : ℕ  -- `replaceWorker` before `spawn` returns
  pub spawned : List ℕ  -- in `replaceWorker`, after `spawn`
  pub closing : ℕ  -- calls of `close` in their drain loop
  pub killed : List ℕ
  pub next : ℕ

pub data Event : Type 0 where
  -- `case w := <-p.idle`
  acquire : Event
  -- `w.dispatch` has returned: whether with an error, and the worker's render count
  finish : ℕ → Bool → ℕ → Event
  -- the rest of `releaseWorker`, for the worker and the value of `closed`
  release : ℕ → Bool → Event
  -- `p.cfg.spawn()` in `replaceWorker`: whether it succeeded
  spawn : Bool → Event
  -- the locked part of `replaceWorker`
  install : ℕ → Event
  -- `close` up to its loop, a round of the loop that finds a worker, and its return
  close drain drained : Event

unfoldable pub take_out : ℕ → List ℕ → Option (List ℕ)
take_out w [] = none
take_out w (x ∷ l) =
    let rest : Option (List ℕ) = elim (take_out w l) [ none ↦ none | some r ↦ some (x ∷ r) ] in
    if x == w then some l else rest

unfoldable pub same_bool : Bool → Bool → Bool
same_bool true b = b
same_bool false b = not b

unfoldable pub take_out_release : ℕ → Bool → List (ℕ × Bool) → Option (List (ℕ × Bool))
unfolding same_bool
take_out_release w b [] = none
take_out_release w b ((x, c) ∷ l) =
    let rest : Option (List (ℕ × Bool)) = elim (take_out_release w b l) [
      | none ↦ none
      | some r ↦ some ((x, c) ∷ r)
    ] in
    if x == w && same_bool c b then some l else rest

-- `p.idle <- w` where the channel has room.
abbrev pub send : ℕ → Pool → Pool
send w p = record p { idle = p.idle ++ w ∷ [] }

-- `w.kill()`.
abbrev pub kill : ℕ → Pool → Pool
kill w p = record p { killed = w ∷ p.killed }

unfoldable pub acquire_step : Pool → Option Pool
acquire_step p = elim (p.idle) [
  | [] ↦ none
  | w ∷ rest ↦ some (record p { idle = rest; last_pid = w; busy = w ∷ p.busy })
]

-- The decision of `dispatch`: a worker with an error or at the end of its life is killed and
-- replaced, any other is released.
unfoldable pub finish_step : ℕ → Bool → ℕ → Pool → Option Pool
unfolding take_out
finish_step w failed renders p = elim (take_out w p.busy) [
  | none ↦ none
  | some rest ↦
      let done = record p { busy = rest } in
      some (
        if failed || leb p.lifetime renders
        then record (kill w done) { spawning = p.spawning + 1 }
        else record done { releasing = (w, p.closed) ∷ p.releasing })
]

-- A send waits while the channel is full.
unfoldable pub release_step : ℕ → Bool → Pool → Option Pool
unfolding take_out_release
release_step w was_closed p = elim (take_out_release w was_closed p.releasing) [
  | none ↦ none
  | some rest ↦
      let done = record p { releasing = rest } in
      if was_closed
      then some (kill w done)
      else if ltb (length p.idle) p.size
      then some (send w done)
      else none
]

unfoldable pub spawn_step : Bool → Pool → Option Pool
spawn_step succeeded p =
    let done = record p { spawning = p.spawning - 1 } in
    if p.spawning == 0
    then none
    else if succeeded
    then some (record done { spawned = p.next ∷ p.spawned; next = suc p.next })
    else some done

-- A closed pool gets no worker; a full channel gets none either.
unfoldable pub install_step : ℕ → Pool → Option Pool
unfolding take_out
install_step w p = elim (take_out w p.spawned) [
  | none ↦ none
  | some rest ↦
      let done = record p { spawned = rest } in
      some (
        if p.closed
        then kill w done
        else if ltb (length p.idle) p.size
        then send w done
        else kill w done)
]

unfoldable pub drain_step : Pool → Option Pool
drain_step p = elim (p.idle) [
  | [] ↦ none
  | w ∷ rest ↦ if p.closing == 0 then none else some (kill w (record p { idle = rest }))
]

unfoldable pub drained_step : Pool → Option Pool
drained_step p = elim (p.idle) [
  | [] ↦ if p.closing == 0 then none else some (record p { closing = p.closing - 1 })
  | _ ∷ _ ↦ none
]

unfoldable pub step : Event → Pool → Option Pool
unfolding acquire_step finish_step release_step spawn_step install_step drain_step drained_step
step acquire p = acquire_step p
step (finish w failed renders) p = finish_step w failed renders p
step (release w was_closed) p = release_step w was_closed p
step (spawn succeeded) p = spawn_step succeeded p
step (install w) p = install_step w p
step close p = some (record p { closed = true; closing = p.closing + 1 })
step drain p = drain_step p
step drained p = drained_step p

-- A run of the scheduler: events that cannot be taken are passed over.
unfoldable pub run : List Event → Pool → Pool
run [] p = p
run (e ∷ es) p = elim (step e p) [ none ↦ run es p | some p' ↦ run es p' ]

-- The pre-warm loop of `newStylePool`, for the results of `spawn`; at the first failure the workers
-- so far are drained by `close`.
unfoldable pub prewarm : ℕ → (ℕ → Bool) → Pool → Pool × Bool
prewarm zero spawns p = (p, true)
prewarm (suc n) spawns p =
    let rest = prewarm n spawns (send p.next (record p { next = suc p.next })) in
    if spawns p.next
    then rest
    else (record p { closed = true; killed = p.idle ++ p.killed; idle = [] }, false)

pub data NewError : Type 0 where
  pool_size : NewError
  prewarm_failed : Pool → NewError

pub data NewResult : Type 0 where
  pool : Pool → NewResult
  error : NewError → NewResult

-- `newStylePool` before its loop; a lifetime that is not positive becomes 500.
abbrev pub new_pool : ℤ → ℤ → Pool
new_pool size lifetime = record {
  size = to_ℕ size;
  lifetime = if not_positive lifetime then 500 else to_ℕ lifetime;
  idle = [];
  closed = false;
  last_pid = 0;
  busy = [];
  releasing = [];
  spawning = 0;
  spawned = [];
  closing = 0;
  killed = [];
  next = 0;
}

unfoldable pub new_style_pool : ℤ → ℤ → (ℕ → Bool) → NewResult
unfolding prewarm
new_style_pool size lifetime spawns =
    let (p, warm) = prewarm (to_ℕ size) spawns (new_pool size lifetime) in
    if not_positive size then error pool_size else if warm then pool p else error (prewarm_failed p)
