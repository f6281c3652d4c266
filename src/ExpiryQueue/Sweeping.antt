-- ===== src/ExpiryQueue/Sweeping.antt =====
-- The sweep: it takes what is due, once each and in the order of the times, and nothing else.
use rampardos.Prelude.{
  ℕ, zero, suc, ◌+◌, ◌≤◌, ◌<◌, ltb, if◌then◌else◌, ◌≡◌, inl, inr, refl, sym, ap, ◌∙◌, ite, Bool,
  false, not, Option, some, none, List, [], ◌∷◌, length, Bool-cases, Option-cases, lt→ltb, delete,
  delete_self, delete_ne, arith, slot, slot-head, List-cases,
}
use mathlib.Core.Path.{subst}
use rampardos.ExpiryHeap.{ExpiryItem, heap_pop}
use rampardos.ExpiryHeap.Order.{Ends, key, root-least}
use rampardos.ExpiryHeap.Take.{Removed, heap_pop-Removed}
use rampardos.ExpiryQueue.{ExpiryQueue, is_due, sweep_loop, sweep, delete_files}
use rampardos.ExpiryQueue.Valid.{IsValid, Became, due, due-none, due-some}
use rampardos.ExpiryQueue.Removal.{removed, removed-Became}

pub later : ℕ → Option ℕ → Option ℕ
later now none = none
later now (some t) = if ltb now t then some t else none

-- How often a path with this time is swept.
pub past : ℕ → Option ℕ → ℕ
past now none = 0
past now (some t) = if ltb now t then 0 else 1

pub count {ℓ} : {K : Type ℓ} → Discrete K → K → List K → ℕ
count dec k [] = 0
count dec k (p ∷ ps) = ite (dec k p) (count dec k ps + 1) (count dec k ps)

-- The paths have times, which do not fall and start at `low` or later.
pub InOrder {ℓ} : {K : Type ℓ} → (K → Option ℕ) → ℕ → List K → Type 0
InOrder d low [] = Unit
InOrder d low (p ∷ ps) = (t : ℕ) × (d p ≡ some t) × (low ≤ t) × InOrder d t ps

InOrder-map {ℓ} :
    {K : Type ℓ} (d e : K → Option ℕ) (low : ℕ)
    → ((k : K) (t : ℕ) → d k ≡ some t → e k ≡ some t)
    → (ps : List K) → InOrder d low ps
    → InOrder e low ps
unfolding InOrder
InOrder-map d e low up [] o = tt
InOrder-map d e low up (p ∷ ps) (t, at, le, rest) = (t, up p t at, le, InOrder-map d e t up ps rest)

InOrder-raise {ℓ} :
    {K : Type ℓ} (d : K → Option ℕ) (low high : ℕ)
    → ((k : K) (t : ℕ) → d k ≡ some t → high ≤ t)
    → (ps : List K) → InOrder d low ps
    → InOrder d high ps
unfolding InOrder
InOrder-raise d low high up [] o = tt
InOrder-raise d low high up (p ∷ ps) (t, at, le, rest) = (t, at, up p t at, rest)

module _ {ℓ} {K : Type ℓ} (dec : Discrete K) (now : ℕ) where
  pub record Swept (q r : ExpiryQueue K) (ps : List K) : Type ℓ where
    pub valid : IsValid r
    pub times : (k : K) → due r k ≡ later now (due q k)
    pub owners : (k : K) → r.owned k ≡ q.owned k
    pub once : (k : K) → count dec k ps ≡ past now (due q k)
    pub ordered : InOrder (due q) 0 ps

  nothing_due :
      (q : ExpiryQueue K)
      → IsValid q
      → ((k : K) (t : ℕ) → due q k ≡ some t → now < t)
      → Swept q q []
  unfolding later past count InOrder
  nothing_due q v far = record {
    valid = v;
    times = λ k. elim (Option-cases (due q k)) [
      | inl gone ↦ rw (gone, later) refl
      | inr (t, e) ↦ rw (e, later, lt→ltb now t (far k t e)) refl
    ];
    owners = λ k. refl;
    once = λ k. elim (Option-cases (due q k)) [
      | inl gone ↦ rw (gone, past) refl
      | inr (t, e) ↦ rw (e, past, lt→ltb now t (far k t e)) refl
    ];
    ordered = tt;
  }

  module _ (q r s : ExpiryQueue K) (p : K) (t : ℕ) (ps : List K)
      (taken : Became (delete dec p (due q)) q.owned r) (at : due q p ≡ some t)
      (is_past : ltb now t ≡ false) (first : (k : K) (u : ℕ) → due q k ≡ some u → t ≤ u)
      (rest : Swept r s ps) where
    step-times : (k : K) → due s k ≡ later now (due q k)
    unfolding later
    step-times k = elim (dec k p) [
      | yes d ↦
          rw d (rest.times p ∙ rw (taken.times p, delete_self dec p (due q), at, is_past) refl)
      | no ne ↦ rest.times k ∙ ap (later now) (taken.times k ∙ delete_ne dec p (due q) k ne)
    ]

    step-once : (k : K) → count dec k (p ∷ ps) ≡ past now (due q k)
    unfolding past count
    step-once k = elim (dec k p) [
      | yes d ↦
          rw d (ground (arith, rest.once p, taken.times p, delete_self dec p (due q), at, is_past))
      | no ne ↦ ground (arith, ne, rest.once k, taken.times k, delete_ne dec p (due q) k ne)
    ]

    still_due : (k : K) (u : ℕ) → due r k ≡ some u → due q k ≡ some u
    still_due k u e = elim (dec k p) [
      | yes d ↦
          absurd (
            ground
              (arith, e, taken.times k, ap (delete dec p (due q)) d, delete_self dec p (due q)))
      | no ne ↦ sym (delete_ne dec p (due q) k ne) ∙ sym (taken.times k) ∙ e
    ]

    step-Swept : Swept q s (p ∷ ps)
    unfolding InOrder
    step-Swept = record {
      valid = rest.valid;
      times = step-times;
      owners = λ k. rest.owners k ∙ taken.owners k;
      once = step-once;
      ordered = (
        t,
        at,
        omega arith,
        InOrder-map (due r) (due q) t still_due ps
            (InOrder-raise (due r) 0 t (λ k u e. first k u (still_due k u e)) ps rest.ordered),
      );
    }

  module _ (q : ExpiryQueue K) (v : IsValid q) where
    due-Has :
        (k : K) (u : ℕ)
        → due q k ≡ some u
        → (c : ℕ) × (c < length q.heap.slots) × (key q.heap c ≡ u)
    due-Has k u e = elim (Option-cases (q.by_key k)) [
      | inl gone ↦ absurd (ground (arith, due-none q k gone, e))
      | inr (a, there) ↦
          let ((c, inside, at), _) = v.tracked k a there in
          (c, inside, ground (arith, at, due-some q k a there, e))
    ]

    first_due : (k : K) (u : ℕ) → due q k ≡ some u → key q.heap 0 ≤ u
    first_due k u e =
        let (c, inside, at) = due-Has k u e in
        omega (arith, root-least (length q.heap.slots) q.heap v.ordered.order c inside)

  no_slots : (m : ℕ → ExpiryItem K) (l : List ℕ) → l ≡ [] → is_due now m l ≡ false
  unfolding is_due
  no_slots m l e = rw e refl

  first_slot :
      (m : ℕ → ExpiryItem K) (l : List ℕ) (a : ℕ) (rest : List ℕ)
      → l ≡ a ∷ rest
      → is_due now m l ≡ not (ltb now (m a).expires_at)
  unfolding is_due
  first_slot m l a rest e = rw e refl

  sweep_loop-Swept :
      (f : ℕ) (q : ExpiryQueue K)
      → IsValid q
      → length q.heap.slots < f
      → Ends (λ r. Swept q r.0 r.1) (sweep_loop dec f now q)
  unfolding sweep_loop
  sweep_loop-Swept zero q v p = absurd (omega arith)
  sweep_loop-Swept (suc f) q v p = elim (List-cases q.heap.slots) [
    | inl empty ↦ (
      (q, []),
      rw (no_slots q.heap.items q.heap.slots empty) refl,
      nothing_due q v λ k t e.
          let (c, inside, at) = due-Has q v k t e in absurd (ground (arith, ap length empty)),
    )
    | inr (a, l, e) ↦
        let some_left : 0 < length q.heap.slots = ground (arith, ap length e) in
        let top : slot q.heap.slots 0 ≡ a = ap (λ m. slot m 0) e ∙ slot-head a l in
        elim (Bool-cases (ltb now (q.heap.items a).expires_at)) [
          | inl future ↦ (
            (q, []),
            rw (first_slot q.heap.items q.heap.slots a l e, future) refl,
            nothing_due q v λ k t d.
                ground (arith, first_due q v k t d, ap (λ x. (q.heap.items x).expires_at) top),
          )
          | inr is_past ↦
              let ((b, h), eh, (d, w)) = heap_pop-Removed q.heap some_left v.ordered in
              let popped : heap_pop q.heap ≡ some (a, h) = eh ∙ ap (λ x. some (x, h)) (d ∙ top) in
              let w' : Removed q.heap a h = subst (λ x. Removed q.heap x h) top w in
              let k = (q.heap.items a).path in
              let there : q.by_key k ≡ some a = v.listed a w'.had in
              let taken = removed-Became dec q v k a there h w' q.owned (λ j o. inr o) in
              let ((s, ps), es, rest) =
                sweep_loop-Swept f (removed dec q v k a there h w' q.owned (λ j o. inr o))
                  taken.valid (omega (arith, w'.size)) in
              (
                (s, k ∷ ps),
                rw (first_slot q.heap.items q.heap.slots a l e, is_past, popped, w'.paths a, es)
                    refl,
                step-Swept q _ s k (q.heap.items a).expires_at ps taken (due-some q k a there)
                    is_past
                    (λ j u o.
                      ground
                        (arith, first_due q v j u o, ap (λ x. (q.heap.items x).expires_at) top))
                    rest,
              )
        ]
  ]

  -- A sweep of a valid queue ends in a valid queue with the times that are still to come, and tries
  -- to remove each path whose time has come once, no other one, in the order of the times.
  pub sweep-Swept :
      (remove : K → Bool) (q : ExpiryQueue K)
      → IsValid q
      → (r : ExpiryQueue K) × (ps : List K) × (sweep dec remove now q
          ≡ some (r, ps, delete_files remove ps))
        × Swept q r ps
  unfolding sweep
  sweep-Swept remove q v =
      let ((r, ps), e, s) = sweep_loop-Swept (length q.heap.slots + 1) q v (omega arith) in
      (r, ps, rw e refl, s)
