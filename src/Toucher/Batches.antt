-- ===== src/Toucher/Batches.antt =====
-- The batches touch every file of the queue once, in order.
use rampardos.Prelude.{
  ℕ, zero, suc, ◌+◌, ◌-◌, ◌≤◌, min, ltb, leb, if◌then◌else◌, ◌≡◌, ◌⊎◌, inl, inr, refl, sym, ap, ◌∙◌,
  Bool, List, [], ◌∷◌, ◌++◌, length, take, drop, length-append, length-drop, take-append-drop,
  take_of_length-le, Bool-cases, arith,
}
use rampardos.Prelude.{drop_of_length-le, drop-drop}
use rampardos.Toucher.{
  max_queue_size, touch_batch_size, touch, touch_batch, touch_batches, run_once,
}

module _ {F : Type 0} where
  abbrev pub successes : (F → Bool) → List F → ℕ
  successes ok [] = 0
  successes ok (path ∷ files) = if ok path then suc (successes ok files) else successes ok files

  touch_batch-all :
      (ok : F → Bool) (batch : List F) → touch_batch ok batch ≡ (batch, successes ok batch)
  unfolding touch_batch
  touch_batch-all ok [] = refl
  touch_batch-all ok (path ∷ batch) = rw (touch_batch-all ok batch) refl

  successes-append :
      (ok : F → Bool) (l m : List F) → successes ok (l ++ m) ≡ successes ok l + successes ok m
  successes-append ok [] m = omega arith
  successes-append ok (path ∷ l) m = ground (arith, successes-append ok l m)

  -- A batch is the next 75 files, or those that are left.
  batch-take :
      (queue : List F) (i : ℕ)
      → take (min (i + touch_batch_size) (length queue) - i) (drop i queue)
        ≡ take touch_batch_size (drop i queue)
  batch-take queue i = elim (Bool-cases (leb (i + touch_batch_size) (length queue))) [
    | inl l ↦ ap (λ n. take n (drop i queue)) {y = touch_batch_size} (ground arith)
    | inr l ↦
        take_of_length-le (min (i + touch_batch_size) (length queue) - i) (drop i queue)
          (ground (arith, length-drop i queue))
        ∙ sym (
            take_of_length-le touch_batch_size (drop i queue) (ground (arith, length-drop i queue)))
  ]

  -- From an index on, with fuel for the files that are left.
  batches-all :
      (ok : F → Bool) (queue : List F) (fuel i : ℕ)
      → length queue ≤ i + fuel
      → touch_batches ok queue fuel i ≡ (drop i queue, successes ok (drop i queue))
  unfolding touch_batches
  batches-all ok queue zero i h = rw (drop_of_length-le i queue (omega arith)) refl
  batches-all ok queue (suc fuel) i h = elim (Bool-cases (ltb i (length queue))) [
    | inl l ↦
        let whole = take-append-drop touch_batch_size (drop i queue) in
        let later = drop-drop touch_batch_size i queue in
        rw
          (
            l,
            batch-take queue i,
            touch_batch-all ok (take touch_batch_size (drop i queue)),
            batches-all ok queue fuel (i + touch_batch_size) (omega arith),
            sym later,
            sym (
                successes-append ok (take touch_batch_size (drop i queue))
                  (drop touch_batch_size (drop i queue))),
            whole,
          )
          refl
    | inr l ↦ rw (l, drop_of_length-le i queue (ground arith)) refl
  ]

  -- A round empties the queue and touches each of its files once and in order, and counts the
  -- successes.
  pub run_once-all :
      (ok : F → Bool) (queue : List F) → run_once ok queue ≡ ([], (queue, successes ok queue))
  unfolding run_once
  run_once-all ok queue = rw (batches-all ok queue (length queue) 0 (omega arith)) refl

  -- The queue never has more than its bound, and a file that is queued is the last one.
  pub touch-bounded :
      (file_name : F) (queue : List F)
      → length queue ≤ max_queue_size
      → (length (touch file_name queue) ≤ max_queue_size)
        × ((touch file_name queue ≡ queue) ⊎ (touch file_name queue ≡ queue ++ file_name ∷ []))
  unfolding touch
  touch-bounded file_name queue h = elim (Bool-cases (leb max_queue_size (length queue))) [
    | inl l ↦ rw l (h, inl refl)
    | inr l ↦ rw l (ground (arith, length-append queue (file_name ∷ [])), inr refl)
  ]
