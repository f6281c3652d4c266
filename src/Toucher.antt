-- ===== src/Toucher.antt =====
-- rampardos/internal/services/file_toucher.go: the queue of files to touch. A lock makes each call
-- one step; the loop over batches is on fuel, and a round takes at least one file.
use rampardos.Prelude.{
  ℕ, zero, suc, ◌+◌, ◌-◌, min, ltb, leb, if◌then◌else◌, Bool, List, [], ◌∷◌, ◌++◌, length, take,
  drop,
}
pub mod Batches

abbrev pub max_queue_size : ℕ
max_queue_size = 50000

abbrev pub touch_batch_size : ℕ
touch_batch_size = 75

module _ {F : Type 0} where
  -- `Touch`, on the queue.
  unfoldable pub touch : F → List F → List F
  touch file_name queue =
      if leb max_queue_size (length queue) then queue else queue ++ file_name ∷ []

  -- The inner loop: the calls of `os.Chtimes`, in order, and how many succeed.
  unfoldable pub touch_batch : (F → Bool) → List F → List F × ℕ
  touch_batch ok [] = ([], 0)
  touch_batch ok (path ∷ batch) =
      let (touched, count) = touch_batch ok batch in
      (path ∷ touched, if ok path then suc count else count)

  -- The loop over batches from index `i`.
  unfoldable pub touch_batches : (F → Bool) → List F → ℕ → ℕ → List F × ℕ
  unfolding touch_batch
  touch_batches ok queue zero i = ([], 0)
  touch_batches ok queue (suc fuel) i =
      let end_ = min (i + touch_batch_size) (length queue) in
      let (touched, count) = touch_batch ok (take (end_ - i) (drop i queue)) in
      let (touched', count') = touch_batches ok queue fuel (i + touch_batch_size) in
      if ltb i (length queue) then (touched ++ touched', count + count') else ([], 0)

  -- `runOnce`: the new queue, the files touched and the count.
  unfoldable pub run_once : (F → Bool) → List F → List F × (List F × ℕ)
  unfolding touch_batches
  run_once ok queue = ([], touch_batches ok queue (length queue) 0)
