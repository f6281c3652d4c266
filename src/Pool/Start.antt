-- ===== src/Pool/Start.antt =====
-- How `newStylePool` starts a pool, and what it leaves when a worker does not start.
use rampardos.Prelude.{
  ℕ, zero, suc, ◌+◌, ◌≤◌, ltb, if◌then◌else◌, ◌≡◌, inl, inr, refl, sym, ◌∙◌, Bool, true, false,
  ◌&&◌, [], ◌∷◌, ◌++◌, length, length-append, Bool-cases, arith, ℤ, not_positive, to_ℕ,
}
use rampardos.Pool.{
  Pool, send, prewarm, NewResult, new_pool, new_style_pool, pool, error, pool_size, prewarm_failed,
}
use rampardos.Pool.Drain.{Drained}
use rampardos.Pool.Conserve.{IsValid, count, count-append, slots}

abbrev all_true : ℕ → (ℕ → Bool) → ℕ → Bool
all_true zero spawns i = true
all_true (suc n) spawns i = spawns i && all_true n spawns (suc i)

-- The pool before any goroutine uses it.
abbrev Fresh : Pool → Type 0
Fresh p = (p.busy ≡ []) × (p.releasing ≡ []) × (p.spawned ≡ []) × (p.spawning ≡ 0) × (p.closing ≡ 0)

-- What the pre-warm loop makes of a valid pool with room for `n` workers.
record Warmed (n : ℕ) (spawns : ℕ → Bool) (p q : Pool) (b : Bool) : Type 0 where
  valid : IsValid q
  fresh : Fresh q
  -- All workers started.
  decided : b ≡ all_true n spawns p.next
  all :
      b ≡ true → (length q.idle ≡ length p.idle + n) × (q.killed ≡ p.killed) × (q.closed ≡ p.closed)
  none_left : b ≡ false → (q.idle ≡ []) × (q.closed ≡ true)

sent-IsValid :
    (p : Pool)
    → IsValid p
    → suc (slots p) ≤ p.size
    → IsValid (send p.next (record p { next = suc p.next }))
sent-IsValid p v room = record {
  once = λ x. ground (arith, v.once x, count-append x p.idle (p.next ∷ []));
  bounded = ground (arith, length-append p.idle (p.next ∷ []));
}

failed-IsValid :
    (p : Pool)
    → IsValid p
    → IsValid (record p { closed = true; killed = p.idle ++ p.killed; idle = [] })
failed-IsValid p v = record {
  once = λ x. ground (arith, v.once x, count-append x p.idle p.killed);
  bounded = ground (arith, v.bounded);
}

prewarm-Warmed :
    (n : ℕ) (spawns : ℕ → Bool) (p : Pool)
    → IsValid p
    → Fresh p
    → slots p + n ≤ p.size
    → let (q, warm) = prewarm n spawns p in Warmed n spawns p q warm
unfolding prewarm
prewarm-Warmed zero spawns p v f room = record {
  valid = v;
  fresh = f;
  decided = refl;
  all = λ _. (omega arith, refl, refl);
  none_left = λ e. absurd (cc);
}
prewarm-Warmed (suc n) spawns p v f room = elim (Bool-cases (spawns p.next)) [
  | inl e ↦
      let w =
        prewarm-Warmed n spawns (send p.next (record p { next = suc p.next }))
          (sent-IsValid p v (omega (arith, room))) f
          (omega (arith, room, length-append p.idle (p.next ∷ []))) in
      rw e record {
        valid = w.valid;
        fresh = w.fresh;
        decided = rw e w.decided;
        all = λ h. (
          (w.all h).0 ∙ omega (arith, length-append p.idle (p.next ∷ [])),
          (w.all h).1,
          (w.all h).2,
        );
        none_left = w.none_left;
      }
  | inr e ↦ rw e record {
    valid = failed-IsValid p v;
    fresh = f;
    decided = rw e;
    all = λ h. absurd (cc);
    none_left = λ _. (refl, refl);
  }
]

new_pool-IsValid : (size lifetime : ℤ) → IsValid (new_pool size lifetime)
new_pool-IsValid size lifetime = record { once = λ x. ground arith; bounded = omega arith }

killed_only :
    (p : Pool) (x : ℕ)
    → IsValid p
    → Fresh p
    → p.idle ≡ []
    → count x p.killed ≡ (if ltb x p.next then 1 else 0)
killed_only p x v (b, r, s, _, _) i = ground (arith, v.once x)

-- What a call of `newStylePool` gives: no pool for a size that is not positive, a full pool when all
-- workers start, and otherwise an error after every worker that did start was killed.
abbrev pub Started : ℤ → (ℕ → Bool) → NewResult → Type 0
Started size spawns (pool p) =
    (not_positive size ≡ false)
    × (all_true (to_ℕ size) spawns 0 ≡ true)
    × IsValid p
    × Drained p
    × (p.closed ≡ false)
    × (length p.idle ≡ to_ℕ size)
    × (p.killed ≡ [])
Started size spawns (error pool_size) = not_positive size ≡ true
Started size spawns (error (prewarm_failed p)) =
    (not_positive size ≡ false)
    × (all_true (to_ℕ size) spawns 0 ≡ false)
    × ((x : ℕ) → count x p.killed ≡ (if ltb x p.next then 1 else 0))

-- Creating a pool gives an error for a size that is not positive, a valid open pool with as many
-- idle workers as its size when every worker starts, and otherwise an error after each worker that
-- had started was killed once.
pub new_style_pool-Started :
    (size lifetime : ℤ) (spawns : ℕ → Bool)
    → Started size spawns (new_style_pool size lifetime spawns)
unfolding new_style_pool
new_style_pool-Started size lifetime spawns =
    let start = new_pool size lifetime in
    let w =
      prewarm-Warmed (to_ℕ size) spawns start (new_pool-IsValid size lifetime)
        (refl, refl, refl, refl, refl) (omega arith) in
    elim (Bool-cases (not_positive size)) [
      | inl n ↦ rw n n
      | inr n ↦ elim (Bool-cases ((prewarm (to_ℕ size) spawns start).1)) [
        | inl e ↦
            let (l, k, c) = w.all e in
            rw (n, e) (n, sym w.decided ∙ e, w.valid, λ closed. absurd (cc), c, omega (arith, l), k)
        | inr e ↦
            rw (n, e)
              (n, sym w.decided ∙ e, λ x. killed_only _ x w.valid w.fresh ((w.none_left e).0))
      ]
    ]
