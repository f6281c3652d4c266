-- ===== src/ExpiryQueue/Schedule.antt =====
-- The schedule that the queue stands for, and Add as an operation on it.
use rampardos.Prelude.{
  ℕ, ltb, if◌then◌else◌, ◌≡◌, inl, inr, refl, sym, ap, ◌∙◌, Option, some, none, List, [], ◌∷◌,
  Bool-cases, Option-cases, put, delete, put_self, put_ne, delete_self, delete_ne, arith, ℤ,
}
use mathlib.Core.Path.{fun_ext}
use rampardos.ExpiryHeap.Order.{Ends}
use rampardos.ExpiryQueue.{ExpiryQueue, add_time, is_owned_ttl, schedule, add_path, add, unown}
use rampardos.ExpiryQueue.Valid.{IsValid, Became, due, due-none, due-some, due-owned}
use rampardos.ExpiryQueue.Addition.{insert-Became}
use rampardos.ExpiryQueue.Extension.{extend-Became}
use rampardos.ExpiryQueue.Removal.{own-Became}

-- When each path is due, and which paths the cache cleaner owns.
pub record Plan {ℓ} (K : Type ℓ) : Type ℓ where
  pub times : K → Option ℕ
  pub owners : K → Option (Unit {0})

unfoldable pub plan {ℓ} : {K : Type ℓ} → ExpiryQueue K → Plan K
plan q = record { times = due q; owners = q.owned }

pub latest : Option ℕ → ℕ → ℕ
latest none e = e
latest (some t) e = if ltb t e then e else t

module _ {ℓ} {K : Type ℓ} (dec : Discrete K) where
  -- A long time to live drops the entry and marks the path as owned; a short one moves the time of
  -- a path that is not owned to the later of the two.
  pub planned : ℕ → ℤ → Plan K → K → Plan K
  planned now ttl s p =
      if is_owned_ttl ttl
      then record { times = delete dec p s.times; owners = put dec p tt s.owners }
      else (elim (s.owners p) [
        | some _ ↦ s
        | none ↦ record s { times = put dec p (latest (s.times p) (add_time now ttl)) s.times }
      ])

  pub planned_all : ℕ → ℤ → Plan K → List K → Plan K
  planned_all now ttl s [] = s
  planned_all now ttl s (p ∷ ps) = planned_all now ttl (planned now ttl s p) ps

  -- The call ends in a valid queue that stands for `s`.
  abbrev pub Plans : Plan K → Option (ExpiryQueue K) → Type ℓ
  Plans s = Ends (λ r. IsValid r × (plan r ≡ s))

  pub plan_eq :
      {d : K → Option ℕ} {o : K → Option (Unit {0})} (q : ExpiryQueue K)
      → Became d o q
      → plan q ≡ record { times = d; owners = o }
  unfolding plan
  plan_eq {d} {o} q b = rw (fun_ext b.times, fun_ext b.owners) refl

  Became-Plans :
      {d : K → Option ℕ} {o : K → Option (Unit {0})} (r : Option (ExpiryQueue K))
      → Ends (Became d o) r
      → Plans (record { times = d; owners = o }) r
  Became-Plans r (q, e, b) = (q, e, (b.valid, plan_eq q b))

  module _ (q : ExpiryQueue K) (v : IsValid q) where
    -- Setting a time that a path has already changes nothing.
    put-due : (p : K) (t : ℕ) → due q p ≡ some t → (k : K) → put dec p t (due q) k ≡ due q k
    put-due p t at k = elim (dec k p) [
      | yes d ↦ rw d (put_self dec p t (due q) ∙ sym at)
      | no ne ↦ put_ne dec p t (due q) k ne
    ]

    unchanged : (p : K) (t : ℕ) → due q p ≡ some t → Became (put dec p t (due q)) q.owned q
    unchanged p t at = record { valid = v; times = λ k. sym (put-due p t at k); owners = λ k. refl }

    schedule-Became :
        (p : K) (e : ℕ)
        → q.owned p ≡ none
        → Ends (Became (put dec p (latest (due q p) e) (due q)) q.owned) (schedule dec q p e)
    unfolding schedule latest
    schedule-Became p e free = elim (Option-cases (q.by_key p)) [
      | inl gone ↦ rw (gone, schedule, due-none q p gone) (insert-Became dec q v p e gone free)
      | inr (a, there) ↦
          rw (there, schedule, due-some q p a there)
            (elim (Bool-cases (ltb (q.heap.items a).expires_at e)) [
              | inl later ↦ rw later (extend-Became dec q v p e a there)
              | inr not_later ↦
                  rw not_later
                    (q, refl, unchanged p (q.heap.items a).expires_at (due-some q p a there))
            ])
    ]

    -- Add of one path ends and does to the schedule what it should.
    add_path-Plans :
        (now : ℕ) (ttl : ℤ) (p : K) → Plans (planned now ttl (plan q) p) (add_path dec now ttl q p)
    unfolding planned add_path plan
    add_path-Plans now ttl p = elim (Bool-cases (is_owned_ttl ttl)) [
      | inl long ↦ rw long (Became-Plans _ (own-Became dec q v p))
      | inr short ↦ rw short (elim (Option-cases (q.owned p)) [
        | inl free ↦ rw free (Became-Plans _ (schedule-Became p (add_time now ttl) free))
        | inr (u, held) ↦ rw held (q, refl, (v, refl))
      ])
    ]

  -- Add of several paths.
  pub add-Plans :
      (now : ℕ) (ttl : ℤ) (ps : List K) (q : ExpiryQueue K)
      → IsValid q
      → Plans (planned_all now ttl (plan q) ps) (add dec now ttl q ps)
  unfolding add planned_all
  add-Plans now ttl [] q v = (q, refl, (v, refl))
  add-Plans now ttl (p ∷ ps) q v =
      let (r, e, (w, same)) = add_path-Plans q v now ttl p in
      rw (e, ← same) (add-Plans now ttl ps r w)

  pub disowned : Plan K → List K → Plan K
  disowned s [] = s
  disowned s (p ∷ ps) = disowned (record s { owners = delete dec p s.owners }) ps

  unown_one-IsValid :
      (q : ExpiryQueue K) (p : K) → IsValid q → IsValid (record q { owned = delete dec p q.owned })
  unown_one-IsValid q p v = record {
    ordered = v.ordered;
    tracked = v.tracked;
    listed = v.listed;
    apart = λ k e. v.apart k (elim (dec k p) [
      | yes d ↦ absurd (ground (arith, delete_self dec p q.owned, e))
      | no ne ↦ sym (delete_ne dec p q.owned k ne) ∙ e
    ]);
    fresh = v.fresh;
  }

  pub unown-plan :
      (ps : List K) (q : ExpiryQueue K)
      → IsValid q
      → IsValid (unown dec q ps) × (plan (unown dec q ps) ≡ disowned (plan q) ps)
  unfolding unown disowned plan
  unown-plan [] q v = (v, refl)
  unown-plan (p ∷ ps) q v =
      let r : ExpiryQueue K = record q { owned = delete dec p q.owned } in
      let same : plan r ≡ record { times = due q; owners = delete dec p q.owned } =
        rw (fun_ext (due-owned q (delete dec p q.owned))) refl in
      let (w, e) = unown-plan ps r (unown_one-IsValid q p v) in
      (w, e ∙ ap (λ s. disowned s ps) same)
