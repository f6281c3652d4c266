-- ===== src/Pool/Conserve.antt =====
-- Every worker that was ever spawned is in one place, and there are never more workers alive or on
-- their way than the pool has room for.
use rampardos.Prelude.{
  ℕ, suc, ◌+◌, ◌≤◌, ◌==◌, ltb, if◌then◌else◌, ◌≡◌, inl, inr, Bool, true, false, some, List, [], ◌∷◌,
  ◌++◌, length, length-append, Option-cases, lt→ltb, arith,
}
use rampardos.Pool.{
  Pool, Event, acquire, finish, release, spawn, install, close, drain, drained, take_out,
  take_out_release, acquire_step, finish_step, release_step, spawn_step, install_step, drain_step,
  drained_step, step, run,
}

abbrev pub one : ℕ → ℕ → ℕ
one x w = if x == w then 1 else 0

abbrev pub count : ℕ → List ℕ → ℕ
count x [] = 0
count x (w ∷ l) = one x w + count x l

abbrev pub count_released : ℕ → List (ℕ × Bool) → ℕ
count_released x [] = 0
count_released x ((w, b) ∷ l) = one x w + count_released x l

pub count-append : (x : ℕ) (l m : List ℕ) → count x (l ++ m) ≡ count x l + count x m
count-append x [] m = omega arith
count-append x (w ∷ l) m = omega (arith, count-append x l m)

take_out-count :
    (w : ℕ) (l r : List ℕ) (x : ℕ)
    → take_out w l ≡ some r
    → (count x l ≡ count x r + one x w) × (length l ≡ suc (length r))
unfolding take_out
take_out-count w [] r x h = absurd (cc)
take_out-count w (y ∷ l) r x h = elim (Option-cases (take_out w l)) [
  | inl n ↦ ground (arith, n)
  | inr (q, e) ↦ let ih = take_out-count w l q x e in ground (arith, ih, e)
]

take_out_release-count :
    (w : ℕ) (b : Bool) (l r : List (ℕ × Bool)) (x : ℕ)
    → take_out_release w b l ≡ some r
    → (count_released x l ≡ count_released x r + one x w) × (length l ≡ suc (length r))
unfolding take_out_release
take_out_release-count w b [] r x h = absurd (cc)
take_out_release-count w b ((y, c) ∷ l) r x h = elim (Option-cases (take_out_release w b l)) [
  | inl n ↦ ground (arith, n)
  | inr (q, e) ↦ let ih = take_out_release-count w b l q x e in ground (arith, ih, e)
]

-- How often a worker is in the hands of the pool or of a goroutine, or was killed.
abbrev pub places : ℕ → Pool → ℕ
places x p =
    count x p.idle
    + count x p.busy
    + count_released x p.releasing
    + count x p.spawned
    + count x p.killed

-- The workers alive and those that are being spawned.
abbrev pub slots : Pool → ℕ
slots p = length p.idle + length p.busy + length p.releasing + p.spawning + length p.spawned

pub record IsValid (p : Pool) : Type 0 where
  -- A worker that was spawned is in one place, any other number in none.
  pub once : (x : ℕ) → places x p ≡ (if ltb x p.next then 1 else 0)
  pub bounded : slots p ≤ p.size

-- What a step keeps, for one worker.
abbrev Keeps : ℕ → Pool → Pool → Type 0
Keeps x p p' =
    (places x p ≡ (if ltb x p.next then 1 else 0) → places x p' ≡ (if ltb x p'.next then 1 else 0))
    × (slots p' ≤ slots p)
    × (p'.size ≡ p.size)

module _ (x : ℕ) (p p' : Pool) where
  acquire-Keeps : acquire_step p ≡ some p' → Keeps x p p'
  unfolding acquire_step
  acquire-Keeps h = ground arith

  finish-Keeps :
      (w : ℕ) (failed : Bool) (renders : ℕ)
      → finish_step w failed renders p ≡ some p'
      → Keeps x p p'
  unfolding finish_step
  finish-Keeps w failed renders h = elim (Option-cases (take_out w p.busy)) [
    | inl n ↦ absurd (ground arith)
    | inr (r, e) ↦ let c = take_out-count w p.busy r x e in ground arith
  ]

  release-Keeps : (w : ℕ) (b : Bool) → release_step w b p ≡ some p' → Keeps x p p'
  unfolding release_step
  release-Keeps w b h = elim (Option-cases (take_out_release w b p.releasing)) [
    | inl n ↦ absurd (ground arith)
    | inr (r, e) ↦
        let c = take_out_release-count w b p.releasing r x e in
        ground (arith, count-append x p.idle (w ∷ []), length-append p.idle (w ∷ []))
  ]

  spawn-Keeps : (b : Bool) → spawn_step b p ≡ some p' → Keeps x p p'
  unfolding spawn_step
  spawn-Keeps b h = ground arith

  install-Keeps : (w : ℕ) → install_step w p ≡ some p' → Keeps x p p'
  unfolding install_step
  install-Keeps w h = elim (Option-cases (take_out w p.spawned)) [
    | inl n ↦ absurd (ground arith)
    | inr (r, e) ↦
        let c = take_out-count w p.spawned r x e in
        ground (arith, count-append x p.idle (w ∷ []), length-append p.idle (w ∷ []))
  ]

  drain-Keeps : drain_step p ≡ some p' → Keeps x p p'
  unfolding drain_step
  drain-Keeps h = ground arith

  drained-Keeps : drained_step p ≡ some p' → Keeps x p p'
  unfolding drained_step
  drained-Keeps h = ground arith

  step-Keeps : (e : Event) → step e p ≡ some p' → Keeps x p p'
  unfolding step
  step-Keeps acquire h = acquire-Keeps h
  step-Keeps (finish w failed renders) h = finish-Keeps w failed renders h
  step-Keeps (release w b) h = release-Keeps w b h
  step-Keeps (spawn b) h = spawn-Keeps b h
  step-Keeps (install w) h = install-Keeps w h
  step-Keeps close h = ground arith
  step-Keeps drain h = drain-Keeps h
  step-Keeps drained h = drained-Keeps h

-- Every step of every goroutine keeps each worker in one place and the pool within its size.
pub step-IsValid : (e : Event) (p p' : Pool) → IsValid p → step e p ≡ some p' → IsValid p'
step-IsValid e p p' v h = record {
  once = λ x. (step-Keeps x p p' e h).0 (v.once x);
  bounded = omega (arith, v.bounded, (step-Keeps 0 p p' e h).1, (step-Keeps 0 p p' e h).2);
}

-- From a valid pool, under every schedule of the goroutines, each worker that was started is in
-- exactly one place, and there are never more workers alive or on their way than the size of the
-- pool.
pub run-IsValid : (es : List Event) (p : Pool) → IsValid p → IsValid (run es p)
unfolding run
run-IsValid [] p v = v
run-IsValid (e ∷ es) p v = elim (Option-cases (step e p)) [
  | inl n ↦ rw (n, run) (run-IsValid es p v)
  | inr (p', s) ↦ rw (s, run) (run-IsValid es p' (step-IsValid e p p' v s))
]

-- In a valid pool the channel has room, so that the release of a worker and the installation of a
-- replacement in an open pool put the worker into the channel at once.
pub send_never_waits :
    (p : Pool) (w : ℕ)
    → IsValid p
    → ((r : List (ℕ × Bool))
        → take_out_release w false p.releasing ≡ some r
        → step (release w false) p ≡ some (record p { idle = p.idle ++ w ∷ []; releasing = r }))
      × ((r : List ℕ)
          → take_out w p.spawned ≡ some r
          → p.closed ≡ false
          → step (install w) p ≡ some (record p { idle = p.idle ++ w ∷ []; spawned = r }))
unfolding step
send_never_waits p w v = (
  λ r e.
      let c = take_out_release-count w false p.releasing r 0 e in
      let room : ltb (length p.idle) p.size ≡ true = lt→ltb _ _ (omega (arith, v.bounded)) in
      rw (e, room, release_step),
  λ r e running.
      let c = take_out-count w p.spawned r 0 e in
      let room : ltb (length p.idle) p.size ≡ true = lt→ltb _ _ (omega (arith, v.bounded)) in
      rw (e, running, room, install_step),
)
