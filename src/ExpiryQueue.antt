-- ===== src/ExpiryQueue.antt =====
-- rampardos/internal/services/expiry_queue.go: the queue of files to delete after a time to live.
-- Paths are a parameter with decided equality. The mutex makes each call one step. The new item of
-- an Add is the next pointer that is not in use. Of the sweep's file removals the result of
-- os.Remove is an argument, and the log lines are left out, as are the goroutine and its ticker.
pub mod Valid
mod Addition
mod Removal
mod Extension
pub mod Sweeping
pub mod Schedule
pub mod Trace
use rampardos.Prelude.{
  ◌>>=◌, ℕ, zero, suc, ◌+◌, ◌-◌, ◌*◌, ◌==◌, ltb, leb, if◌then◌else◌, Bool, false, not, Option, some,
  none, List, [], ◌∷◌, length, put, delete, ℤ, pos, negsuc,
}
use mathlib.Core.Option
use rampardos.ExpiryHeap.{ExpiryItem, ExpiryHeap, heap_push, heap_pop, heap_fix, heap_remove}

-- 24 hours in nanoseconds
abbrev pub owned_threshold : ℕ
owned_threshold = 24 * 60 * 60 * 1000000000

-- `now.Add(ttl)`: more than a Duration can hold has passed since the zero time, so that the
-- subtraction is exact.
abbrev pub add_time : ℕ → ℤ → ℕ
add_time now (pos t) = now + t
add_time now (negsuc t) = now - suc t

-- `ttl >= OwnedThreshold`
abbrev pub is_owned_ttl : ℤ → Bool
is_owned_ttl (pos t) = leb owned_threshold t
is_owned_ttl (negsuc t) = false

pub record ExpiryQueue {ℓ} (K : Type ℓ) : Type ℓ where
  pub heap : ExpiryHeap K
  pub by_key : K → Option ℕ
  pub owned : K → Option (Unit {0})
  pub next : ℕ

module _ {ℓ} {K : Type ℓ} where
  -- `item.expiresAt = e` through the pointer
  pub set_time : (ℕ → ExpiryItem K) → ℕ → ℕ → ℕ → ExpiryItem K
  set_time m p e q = if q == p then record (m p) { expires_at = e } else m q

  pub store : (ℕ → ExpiryItem K) → ℕ → ExpiryItem K → ℕ → ExpiryItem K
  store m p item q = if q == p then item else m q

  -- `q.h.Len() > 0 && !q.h[0].expiresAt.After(now)`
  pub is_due : ℕ → (ℕ → ExpiryItem K) → List ℕ → Bool
  is_due now m [] = false
  is_due now m (a ∷ l) = not (ltb now (m a).expires_at)

module _ {ℓ} {K : Type ℓ} (dec : Discrete K) where
  pub own : ExpiryQueue K → K → Option (ExpiryQueue K)
  own q p = elim (q.by_key p) [
    | none ↦ some (record q { owned = put dec p tt q.owned })
    | some a ↦ do
      (_, h) ← heap_remove q.heap (q.heap.items a).index
      some (record q { heap = h; by_key = delete dec p q.by_key; owned = put dec p tt q.owned })
  ]

  pub extend : ExpiryQueue K → ℕ → ℕ → Option (ExpiryQueue K)
  extend q a e = do
    h ← heap_fix (record q.heap { items = set_time q.heap.items a e }) (q.heap.items a).index
    some (record q { heap = h })

  pub insert : ExpiryQueue K → K → ℕ → Option (ExpiryQueue K)
  insert q p e = do
    let item : ExpiryItem K = record { path = p; expires_at = e; index = pos 0 }
    h ← heap_push (record q.heap { items = store q.heap.items q.next item }) q.next
    some (record q { heap = h; by_key = put dec p q.next q.by_key; next = q.next + 1 })

  pub schedule : ExpiryQueue K → K → ℕ → Option (ExpiryQueue K)
  schedule q p e = elim (q.by_key p) [
    | some a ↦ if ltb (q.heap.items a).expires_at e then extend q a e else some q
    | none ↦ insert q p e
  ]

  pub add_path : ℕ → ℤ → ExpiryQueue K → K → Option (ExpiryQueue K)
  add_path now ttl q p =
      if is_owned_ttl ttl
      then own q p
      else (elim (q.owned p) [ some _ ↦ some q | none ↦ schedule q p (add_time now ttl) ])

  pub add : ℕ → ℤ → ExpiryQueue K → List K → Option (ExpiryQueue K)
  add now ttl q [] = some q
  add now ttl q (p ∷ ps) = add_path now ttl q p >>= λ r. add now ttl r ps

  pub unown : ExpiryQueue K → List K → ExpiryQueue K
  unown q [] = q
  unown q (p ∷ ps) = unown (record q { owned = delete dec p q.owned }) ps

  -- Of the expired items the paths are kept, which is all that is read of them.
  pub sweep_loop : ℕ → ℕ → ExpiryQueue K → Option (ExpiryQueue K × List K)
  sweep_loop zero now q = none
  sweep_loop (suc f) now q =
      let pop = heap_pop q.heap >>= λ (a, h).
      let p = (h.items a).path in
      sweep_loop f now (record q { heap = h; by_key = delete dec p q.by_key }) >>= λ (r, ps).
      some (r, p ∷ ps) in
      if is_due now q.heap.items q.heap.slots then pop else some (q, [])

-- `os.Remove` says whether the file was removed.
pub delete_files {ℓ} : {K : Type ℓ} → (K → Bool) → List K → ℕ
delete_files remove [] = 0
delete_files remove (p ∷ ps) =
    if remove p then delete_files remove ps + 1 else delete_files remove ps

-- The new queue, the files whose removal is tried, in order, and the count that is logged.
pub sweep {ℓ} :
    {K : Type ℓ} → Discrete K → (K → Bool) → ℕ → ExpiryQueue K → Option (ExpiryQueue K × List K × ℕ)
sweep dec remove now q = do
  (r, ps) ← sweep_loop dec (length q.heap.slots + 1) now q
  some (r, ps, delete_files remove ps)

-- InitExpiryQueue, with an empty memory.
pub new_expiry_queue {ℓ} : {K : Type ℓ} → ExpiryItem K → ExpiryQueue K
new_expiry_queue unused = record {
  heap = record { slots = []; items = λ _. unused };
  by_key = λ _. none;
  owned = λ _. none;
  next = 0;
}
