-- ===== src/ExpiryQueue/Trace.antt =====
-- Sequences of calls on the queue, against the schedule.
use rampardos.Prelude.{◌>>=◌, ℕ, ◌≡◌, refl, Bool, Option, some, none, List, [], ◌∷◌, arith, ℤ}
use rampardos.ExpiryHeap.{ExpiryItem}
use rampardos.ExpiryQueue.{ExpiryQueue, add, unown, sweep, new_expiry_queue}
use rampardos.ExpiryQueue.Valid.{IsValid, due, due-none}
use rampardos.ExpiryQueue.Schedule.{
  Plan, plan, plan_eq, planned_all, disowned, Plans, add-Plans, unown-plan,
}
use rampardos.ExpiryQueue.Sweeping.{later, Swept, sweep-Swept}

-- The calls, each with the clock that it reads, and a sweep with the results of os.Remove.
pub data Call {ℓ} (K : Type ℓ) : Type ℓ where
  add_paths : ℕ → ℤ → List K → Call K
  unown_paths : List K → Call K
  sweep_at : ℕ → (K → Bool) → Call K

module _ {ℓ} {K : Type ℓ} (dec : Discrete K) where
  pub perform : ExpiryQueue K → Call K → Option (ExpiryQueue K)
  perform q (add_paths now ttl ps) = add dec now ttl q ps
  perform q (unown_paths ps) = some (unown dec q ps)
  perform q (sweep_at now remove) = sweep dec remove now q >>= λ (r, _, _). some r

  pub run : ExpiryQueue K → List (Call K) → Option (ExpiryQueue K)
  run q [] = some q
  run q (c ∷ cs) = perform q c >>= λ r. run r cs

  pub ideal : Plan K → Call K → Plan K
  ideal s (add_paths now ttl ps) = planned_all dec now ttl s ps
  ideal s (unown_paths ps) = disowned dec s ps
  ideal s (sweep_at now remove) = record s { times = λ k. later now (s.times k) }

  pub ideal_all : Plan K → List (Call K) → Plan K
  ideal_all s [] = s
  ideal_all s (c ∷ cs) = ideal_all (ideal s c) cs

  Swept-plan :
      (now : ℕ) (q r : ExpiryQueue K) (ps : List K)
      → Swept dec now q r ps
      → plan r ≡ record { times = λ k. later now (due q k); owners = q.owned }
  Swept-plan now q r ps s =
      plan_eq dec r (record { valid = s.valid; times = s.times; owners = s.owners })

  perform-Plans :
      (c : Call K) (q : ExpiryQueue K) → IsValid q → Plans dec (ideal (plan q) c) (perform q c)
  unfolding perform ideal plan
  perform-Plans (add_paths now ttl ps) q v = add-Plans dec now ttl ps q v
  perform-Plans (unown_paths ps) q v = (unown dec q ps, refl, unown-plan dec ps q v)
  perform-Plans (sweep_at now remove) q v =
      let (r, ps, e, s) = sweep-Swept dec now remove q v in
      (r, rw e refl, (s.valid, Swept-plan now q r ps s))

  run_from-Plans :
      (cs : List (Call K)) (q : ExpiryQueue K)
      → IsValid q
      → Plans dec (ideal_all (plan q) cs) (run q cs)
  unfolding run ideal_all
  run_from-Plans [] q v = (q, refl, (v, refl))
  run_from-Plans (c ∷ cs) q v =
      let (r, e, (w, same)) = perform-Plans c q v in rw (e, ← same) (run_from-Plans cs r w)

  new-IsValid : (unused : ExpiryItem K) → IsValid (new_expiry_queue unused)
  unfolding new_expiry_queue
  new-IsValid unused = record {
    ordered = record {
      order = λ c p q. absurd (omega arith);
      linked = λ c p. absurd (omega arith);
    };
    tracked = λ k a e. absurd (ground arith);
    listed = λ a (c, p, e). absurd (omega arith);
    apart = λ k e. refl;
    fresh = λ a (c, p, e). absurd (omega arith);
  }

  new-plan :
      (unused : ExpiryItem K)
      → plan (new_expiry_queue unused) ≡ record { times = λ _. none; owners = λ _. none }
  unfolding new_expiry_queue
  new-plan unused = plan_eq dec (new_expiry_queue unused) (record {
    valid = new-IsValid unused;
    times = λ k. due-none (new_expiry_queue unused) k refl;
    owners = λ k. refl;
  })

  -- Every sequence of additions, releases of owned paths and sweeps, from a new queue, ends in a
  -- valid queue that stands for the schedule on which each call acts directly: a long time to live
  -- drops the entry and marks the path as owned, a short one moves the time of a path that is not
  -- owned to the later of the two, a release unmarks, and a sweep drops the times that have come.
  pub run-Plans :
      (unused : ExpiryItem K) (cs : List (Call K))
      → Plans dec
          (ideal_all (record { times = λ _. none; owners = λ _. none }) cs)
          (run (new_expiry_queue unused) cs)
  run-Plans unused cs =
      rw (← new-plan unused) (run_from-Plans cs (new_expiry_queue unused) (new-IsValid unused))
