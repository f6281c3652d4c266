-- ===== src/ExpiryQueue/Extension.antt =====
-- Add of a path that is scheduled already: it is extended, and never shortened.
use rampardos.Prelude.{
  ℕ, ◌<◌, ◌==◌, if◌then◌else◌, ◌≡◌, ◌≢◌, inl, inr, refl, sym, ap, ◌∙◌, some, length, Option-cases,
  put, put_self, put_ne, arith, pos, slot,
}
use rampardos.ExpiryHeap.{ExpiryItem, ExpiryHeap, parent}
use rampardos.ExpiryHeap.Order.{Ends, key, Linked}
use rampardos.ExpiryHeap.Down.{Hole}
use rampardos.ExpiryHeap.Up.{Sifted}
use rampardos.ExpiryHeap.Fix.{heap_fix-Sifted}
use rampardos.ExpiryQueue.{ExpiryQueue, set_time, extend}
use rampardos.ExpiryQueue.Valid.{IsValid, Became, due, due-none, due-some}

module _ {ℓ} {K : Type ℓ} where
  set_time-time :
      (m : ℕ → ExpiryItem K) (p e q : ℕ)
      → (set_time m p e q).expires_at ≡ (if q == p then e else (m q).expires_at)
  unfolding set_time
  set_time-time m p e q = ground arith

  set_time-path : (m : ℕ → ExpiryItem K) (p e q : ℕ) → (set_time m p e q).path ≡ (m q).path
  unfolding set_time
  set_time-path m p e q = ground arith

  set_time-index : (m : ℕ → ExpiryItem K) (p e q : ℕ) → (set_time m p e q).index ≡ (m q).index
  unfolding set_time
  set_time-index m p e q = ground arith

module _ {ℓ} {K : Type ℓ} (dec : Discrete K) (q : ExpiryQueue K) (v : IsValid q) (p : K) (e : ℕ)
    (a c : ℕ) (there : q.by_key p ≡ some a) (inside : c < length q.heap.slots)
    (at : slot q.heap.slots c ≡ a) where
  retimed : ExpiryHeap K
  retimed = record q.heap { items = set_time q.heap.items a e }

  retimed-key :
      (d : ℕ) → d < length q.heap.slots → key retimed d ≡ (if d == c then e else key q.heap d)
  unfolding retimed
  retimed-key d h =
      set_time-time q.heap.items a e (slot q.heap.slots d)
      ∙ ground (arith, v.ordered.linked d h, v.ordered.linked c inside)

  retimed-Hole : Hole (length retimed.slots) retimed c
  unfolding retimed
  retimed-Hole = record {
    inside = inside;
    within = omega arith;
    edges = λ d g h k l.
        ground
          (arith, retimed-key d h, retimed-key (parent d) (omega arith), v.ordered.order d g h);
    bridged = λ d g h k l. ground (
      arith,
      retimed-key d h,
      retimed-key (parent c) (omega arith),
      v.ordered.order d g h,
      v.ordered.order c l inside,
    );
  }

  retimed-Linked : Linked retimed
  unfolding retimed
  retimed-Linked d h = set_time-index q.heap.items a e _ ∙ v.ordered.linked d h

  module _ (h : ExpiryHeap K) (s : Sifted (length q.heap.slots) retimed h) where
    extended : ExpiryQueue K
    extended = record q { heap = h }

    extended-path : (b : ℕ) → (h.items b).path ≡ (q.heap.items b).path
    unfolding retimed
    extended-path b = s.0.paths b ∙ set_time-path q.heap.items a e b

    extended-time :
        (b : ℕ) → (h.items b).expires_at ≡ (if b == a then e else (q.heap.items b).expires_at)
    unfolding retimed
    extended-time b = s.0.times b ∙ set_time-time q.heap.items a e b

    extended-IsValid : IsValid extended
    unfolding extended retimed
    extended-IsValid = record {
      ordered = record { order = rw s.0.size s.1; linked = s.0.linked retimed-Linked };
      tracked = λ k b f. let (x, d) = v.tracked k b f in (s.0.here b x, extended-path b ∙ d);
      listed = λ b x. rw (extended-path b) (v.listed b (s.0.back b x));
      apart = v.apart;
      fresh = λ b x. v.fresh b (s.0.back b x);
    }

    extended-due : (k : K) → due extended k ≡ put dec p e (due q) k
    unfolding extended
    extended-due k = elim (dec k p) [
      | yes d ↦ rw d (
          due-some extended p a there
          ∙ ap some (ground (arith, extended-time a))
          ∙ sym (put_self dec p e (due q)))
      | no ne ↦ elim (Option-cases (q.by_key k)) [
        | inl gone ↦
            due-none extended k gone ∙ sym (due-none q k gone) ∙ sym (put_ne dec p e (due q) k ne)
        | inr (b, found) ↦
            let other : b ≢ a = λ same. ne (
              sym (v.tracked k b found).1
              ∙ ap (λ x. (q.heap.items x).path) same
              ∙ (v.tracked p a there).1) in
            due-some extended k b found
            ∙ ap some (ground (arith, extended-time b))
            ∙ sym (due-some q k b found)
            ∙ sym (put_ne dec p e (due q) k ne)
      ]
    ]

  extend_at-Became : Ends (Became (put dec p e (due q)) q.owned) (extend dec q a e)
  unfolding extend extended retimed
  extend_at-Became =
      let linked : (q.heap.items a).index ≡ pos c = rw (← at) (v.ordered.linked c inside) in
      let (h, eh, s) = heap_fix-Sifted retimed c retimed-Hole in
      (
        extended h s,
        rw (linked, eh),
        record { valid = extended-IsValid h s; times = extended-due h s; owners = λ k. refl },
      )

-- An extension of an entry ends, whatever the new time, and changes its time alone.
pub extend-Became {ℓ} :
    {K : Type ℓ} (dec : Discrete K) (q : ExpiryQueue K)
    → IsValid q
    → (p : K) (e a : ℕ) → q.by_key p ≡ some a
    → Ends (Became (put dec p e (due q)) q.owned) (extend dec q a e)
extend-Became dec q v p e a there =
    let (c, inside, at) = (v.tracked p a there).0 in
    extend_at-Became dec q v p e a c there inside at
