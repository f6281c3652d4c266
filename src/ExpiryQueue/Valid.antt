-- ===== src/ExpiryQueue/Valid.antt =====
-- The invariant of the queue, and its view as a schedule.
use rampardos.Prelude.{ℕ, ◌<◌, ◌≡◌, refl, Option, some, none}
use mathlib.Core.Option
use rampardos.ExpiryHeap.Order.{Has}
use rampardos.ExpiryHeap.Fix.{IsOrdered}
use rampardos.ExpiryQueue.{ExpiryQueue}

module _ {ℓ} {K : Type ℓ} where
  -- The heap is in order, holds exactly the items of the map, each under its path, and no owned
  -- path is scheduled.
  pub record IsValid (q : ExpiryQueue K) : Type ℓ where
    pub ordered : IsOrdered q.heap
    pub tracked : (k : K) (a : ℕ) → q.by_key k ≡ some a → Has q.heap a × ((q.heap.items a).path ≡ k)
    pub listed : (a : ℕ) → Has q.heap a → q.by_key (q.heap.items a).path ≡ some a
    pub apart : (k : K) → q.owned k ≡ some tt → q.by_key k ≡ none
    pub fresh : (a : ℕ) → Has q.heap a → a < q.next

  -- The time at which a path is due.
  pub due : ExpiryQueue K → K → Option ℕ
  due q k = Option.map (λ a. (q.heap.items a).expires_at) (q.by_key k)

  pub due-none : (q : ExpiryQueue K) (k : K) → q.by_key k ≡ none → due q k ≡ none
  unfolding due
  due-none q k e = rw e

  pub due-some :
      (q : ExpiryQueue K) (k : K) (a : ℕ)
      → q.by_key k ≡ some a
      → due q k ≡ some (q.heap.items a).expires_at
  unfolding due
  due-some q k a e = rw e

  -- The owned paths do not bear on the times.
  pub due-owned :
      (q : ExpiryQueue K) (o : K → Option (Unit {0})) (k : K)
      → due (record q { owned = o }) k ≡ due q k
  unfolding due
  due-owned q o k = refl

-- `r` is valid, with the due times `d` and the owned paths `o`.
pub record Became {ℓ} {K : Type ℓ} (d : K → Option ℕ) (o : K → Option (Unit {0}))
    (r : ExpiryQueue K) : Type ℓ where
  pub valid : IsValid r
  pub times : (k : K) → due r k ≡ d k
  pub owners : (k : K) → r.owned k ≡ o k
