-- ===== src/Pool/Drain.antt =====
-- What `close` leaves behind, and how a pool starts.
use rampardos.Prelude.{
  ℕ, ◌+◌, ◌==◌, ltb, ◌≡◌, inl, inr, refl, sym, ◌∙◌, Bool, true, false, some, none, List, [], ◌∷◌,
  ◌++◌, Option-cases, arith,
}
use mathlib.Core.Path.{subst}
use rampardos.Pool.{
  Pool, Event, acquire, finish, release, spawn, install, close, drain, drained, take_out_release,
  acquire_step, finish_step, release_step, spawn_step, install_step, drain_step, drained_step, step,
  run,
}

-- A worker that was seen with an open pool is not released once the pool is closed.
abbrev pub Prompt : Event → Pool → Type 0
Prompt (release w false) p = p.closed ≡ false
Prompt _ p = Unit

-- A closed pool whose drain loops have ended has no idle worker.
abbrev pub Drained : Pool → Type 0
Drained p = p.closed ≡ true → p.closing ≡ 0 → p.idle ≡ []

module _ (p p' : Pool) (d : Drained p) where
  acquire-Drained : acquire_step p ≡ some p' → Drained p'
  unfolding acquire_step
  acquire-Drained h a b = ground (arith, d)

  finish-Drained :
      (w : ℕ) (failed : Bool) (renders : ℕ) → finish_step w failed renders p ≡ some p' → Drained p'
  unfolding finish_step
  finish-Drained w failed renders h a b = ground (arith, d)

  release-Drained :
      (w : ℕ) (b : Bool) → Prompt (release w b) p → release_step w b p ≡ some p' → Drained p'
  unfolding release_step
  release-Drained w true q h a b = ground (arith, d)
  release-Drained w false q h a b = ground (arith, d, q)

  spawn-Drained : (b : Bool) → spawn_step b p ≡ some p' → Drained p'
  unfolding spawn_step
  spawn-Drained c h a b = ground (arith, d)

  install-Drained : (w : ℕ) → install_step w p ≡ some p' → Drained p'
  unfolding install_step
  install-Drained w h a b = ground (arith, d)

  drain-Drained : drain_step p ≡ some p' → Drained p'
  unfolding drain_step
  drain-Drained h a b = ground (arith, d)

  drained_step-Drained : drained_step p ≡ some p' → Drained p'
  unfolding drained_step
  drained_step-Drained h a b = ground (arith, d)

  step-Drained : (e : Event) → Prompt e p → step e p ≡ some p' → Drained p'
  unfolding step
  step-Drained acquire q h = acquire-Drained h
  step-Drained (finish w failed renders) q h = finish-Drained w failed renders h
  step-Drained (release w b) q h = release-Drained w b q h
  step-Drained (spawn b) q h = spawn-Drained b h
  step-Drained (install w) q h = install-Drained w h
  step-Drained close q h = λ a b. ground arith
  step-Drained drain q h = drain-Drained h
  step-Drained drained q h = drained_step-Drained h

run_nil : (p : Pool) → run [] p ≡ p
unfolding run
run_nil p = refl

run-none : (e : Event) (es : List Event) (p : Pool) → step e p ≡ none → run (e ∷ es) p ≡ run es p
unfolding run
run-none e es p h = rw (h, run)

run-some :
    (e : Event) (es : List Event) (p p' : Pool) → step e p ≡ some p' → run (e ∷ es) p ≡ run es p'
unfolding run
run-some e es p p' h = rw (h, run)

-- Every event of the schedule is prompt when its turn comes.
unfoldable pub AllPrompt : List Event → Pool → Type 0
AllPrompt [] p = Unit
AllPrompt (e ∷ es) p = Prompt e p × AllPrompt es (run (e ∷ []) p)

-- From a pool of which this holds, under every schedule in which no worker seen with an open pool
-- is released after the pool was closed, a closed pool whose drain loops have returned has no idle
-- worker.
pub run-Drained : (es : List Event) (p : Pool) → AllPrompt es p → Drained p → Drained (run es p)
unfolding AllPrompt
run-Drained [] p q d = subst Drained (sym (run_nil p)) d
run-Drained (e ∷ es) p (q, later) d = elim (Option-cases (step e p)) [
  | inl n ↦
      subst Drained (sym (run-none e es p n))
        (run-Drained es p (subst (AllPrompt es) (run-none e [] p n ∙ run_nil p) later) d)
  | inr (p', s) ↦ subst Drained (sym (run-some e es p p' s)) (
      run-Drained es p' (subst (AllPrompt es) (run-some e [] p p' s ∙ run_nil p') later)
        (step-Drained p p' d e q s))
]

-- The rounds of the loop of `close` for a channel with as many workers.
abbrev pub drains : List ℕ → List Event
drains [] = []
drains (_ ∷ l) = drain ∷ drains l

abbrev pub kills : List ℕ → List ℕ → List ℕ
kills [] killed = killed
kills (w ∷ l) killed = kills l (w ∷ killed)

drain-taken :
    (p : Pool) (w : ℕ) (l killed : List ℕ)
    → (p.closing == 0) ≡ false
    → step drain (record p { idle = w ∷ l; killed = killed })
      ≡ some (record p { idle = l; killed = w ∷ killed })
unfolding step drain_step
drain-taken p w l killed c = rw c

run-drains :
    (p : Pool) (es : List Event) (l killed : List ℕ)
    → (p.closing == 0) ≡ false
    → run (drains l ++ es) (record p { idle = l; killed = killed })
      ≡ run es (record p { idle = []; killed = kills l killed })
run-drains p es [] killed c = refl
run-drains p es (w ∷ l) killed c =
    run-some drain (drains l ++ es) _ _ (drain-taken p w l killed c)
    ∙ run-drains p es l (w ∷ killed) c

drained-taken :
    (p : Pool) (killed : List ℕ)
    → step drained (record p { closed = true; idle = []; killed = killed; closing = p.closing + 1 })
      ≡ some (record p { closed = true; idle = []; killed = killed })
unfolding step drained_step
drained-taken p killed = ground arith

release-taken :
    (p : Pool) (w : ℕ) (r : List (ℕ × Bool)) (killed : List ℕ)
    → take_out_release w false p.releasing ≡ some r
    → ltb 0 p.size ≡ true
    → step (release w false) (record p { closed = true; idle = []; killed = killed })
      ≡ some (record p { closed = true; idle = w ∷ []; killed = killed; releasing = r })
unfolding step
release-taken p w r killed e s = rw (e, s, release_step)

-- A worker whose release read that the pool is open, and which is sent after a close has emptied
-- the channel of a pool of positive size, stays idle in the closed pool and is not killed.
pub release_after_close :
    (p : Pool) (w : ℕ) (r : List (ℕ × Bool))
    → take_out_release w false p.releasing ≡ some r
    → ltb 0 p.size ≡ true
    → run (close ∷ drains p.idle ++ drained ∷ release w false ∷ []) p
      ≡ record p { closed = true; idle = w ∷ []; killed = kills p.idle p.killed; releasing = r }
unfolding step
release_after_close p w r e s =
    let p1 = record p { closed = true; closing = p.closing + 1 } in
    run-some close _ p p1 refl
    ∙ run-drains p1 (drained ∷ release w false ∷ []) p.idle p.killed (ground arith)
    ∙ run-some drained _ _ _ (drained-taken p (kills p.idle p.killed))
    ∙ run-some (release w false) _ _ _ (release-taken p w r (kills p.idle p.killed) e s)
    ∙ run_nil _
