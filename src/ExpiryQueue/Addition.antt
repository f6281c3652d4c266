-- ===== src/ExpiryQueue/Addition.antt =====
-- Add of a path that is not scheduled.
use rampardos.Prelude.{
  ℕ, ◌+◌, ◌≡◌, ◌≢◌, inl, inr, refl, sym, ap, ◌∙◌, some, none, Option-cases, put, put_self, put_ne,
  arith, pos,
}
use rampardos.ExpiryHeap.{ExpiryItem, ExpiryHeap}
use rampardos.ExpiryHeap.Order.{Ends, Has}
use rampardos.ExpiryHeap.Fix.{IsOrdered, IsOrdered-same}
use rampardos.ExpiryHeap.Push.{Pushed, heap_push-Pushed}
use rampardos.ExpiryQueue.{ExpiryQueue, store, insert}
use rampardos.ExpiryQueue.Valid.{IsValid, Became, due, due-none, due-some}

module _ {ℓ} {K : Type ℓ} where
  store_ne : (m : ℕ → ExpiryItem K) (p q : ℕ) (item : ExpiryItem K) → q ≢ p → store m p item q ≡ m q
  unfolding store
  store_ne m p q item ne = ground arith

  store_self : (m : ℕ → ExpiryItem K) (p : ℕ) (item : ExpiryItem K) → store m p item p ≡ item
  unfolding store
  store_self m p item = ground arith

module _ {ℓ} {K : Type ℓ} (dec : Discrete K) (q : ExpiryQueue K) (v : IsValid q) (p : K)
    (e : ℕ) where
  grown : ExpiryItem K → ExpiryHeap K
  grown item = record q.heap { items = store q.heap.items q.next item }

  module _ (item : ExpiryItem K) where
    grown-item : (a : ℕ) → Has q.heap a → (grown item).items a ≡ q.heap.items a
    unfolding grown
    grown-item a x = store_ne q.heap.items q.next a item (omega (arith, v.fresh a x))

    grown-slots : (grown item).slots ≡ q.heap.slots
    unfolding grown
    grown-slots = refl

    grown-next : (grown item).items q.next ≡ item
    unfolding grown
    grown-next = store_self q.heap.items q.next item

    grown-Has : (a : ℕ) → Has (grown item) a → Has q.heap a
    unfolding grown
    grown-Has a x = x

    Has-grown : (a : ℕ) → Has q.heap a → Has (grown item) a
    unfolding grown
    Has-grown a x = x

    grown-IsOrdered : IsOrdered (grown item)
    grown-IsOrdered = IsOrdered-same q.heap (grown item) grown-slots grown-item v.ordered

    grown-new : ¬ Has (grown item) q.next
    grown-new x = omega (arith, v.fresh q.next (grown-Has q.next x))

  module _ (item : ExpiryItem K) (named : item.path ≡ p) (timed : item.expires_at ≡ e)
      (h : ExpiryHeap K) (w : Pushed (grown item) q.next h) (none_yet : q.by_key p ≡ none)
      (free : q.owned p ≡ none) where
    inserted : ExpiryQueue K
    inserted = record q { heap = h; by_key = put dec p q.next q.by_key; next = q.next + 1 }

    new-path : (h.items q.next).path ≡ p
    new-path = w.paths q.next ∙ ap (λ i. i.path) (grown-next item) ∙ named

    new-time : (h.items q.next).expires_at ≡ e
    new-time = w.times q.next ∙ ap (λ i. i.expires_at) (grown-next item) ∙ timed

    old-path : (a : ℕ) → Has q.heap a → (h.items a).path ≡ (q.heap.items a).path
    old-path a x = w.paths a ∙ ap (λ i. i.path) (grown-item item a x)

    old-time : (a : ℕ) → Has q.heap a → (h.items a).expires_at ≡ (q.heap.items a).expires_at
    old-time a x = w.times a ∙ ap (λ i. i.expires_at) (grown-item item a x)

    inserted-tracked :
        (k : K) (a : ℕ) → put dec p q.next q.by_key k ≡ some a → Has h a × ((h.items a).path ≡ k)
    inserted-tracked k a eq = elim (dec k p) [
      | yes d ↦
          let same : q.next ≡ a = ground (arith, put_self dec p q.next q.by_key, eq) in
          rw (← same, d) (w.new, new-path)
      | no ne ↦
          let old : q.by_key k ≡ some a = sym (put_ne dec p q.next q.by_key k ne) ∙ eq in
          let (x, d) = v.tracked k a old in (w.kept a (Has-grown item a x), old-path a x ∙ d)
    ]

    inserted-listed : (a : ℕ) → Has h a → put dec p q.next q.by_key (h.items a).path ≡ some a
    inserted-listed a x = elim (w.only a x) [
      | inl d ↦ rw (d, new-path) (put_self dec p q.next q.by_key)
      | inr y ↦
          let z = grown-Has item a y in
          let old = v.listed a z in
          let ne : (q.heap.items a).path ≢ p = λ d. cc in
          rw (old-path a z) (put_ne dec p q.next q.by_key _ ne ∙ old)
    ]

    inserted-IsValid : IsValid inserted
    unfolding inserted
    inserted-IsValid = record {
      ordered = w.ordered;
      tracked = inserted-tracked;
      listed = inserted-listed;
      apart = λ k o.
          let ne : k ≢ p = λ d. ground (arith, o, free) in
          put_ne dec p q.next q.by_key k ne ∙ v.apart k o;
      fresh = λ a x. elim (w.only a x) [
        | inl d ↦ omega arith
        | inr y ↦ omega (arith, v.fresh a (grown-Has item a y))
      ];
    }

    inserted-due_ne : (k : K) → put dec p q.next q.by_key k ≡ q.by_key k → due inserted k ≡ due q k
    unfolding inserted
    inserted-due_ne k at = elim (Option-cases (q.by_key k)) [
      | inl none_there ↦ due-none inserted k (at ∙ none_there) ∙ sym (due-none q k none_there)
      | inr (a, there) ↦
          due-some inserted k a (at ∙ there)
          ∙ ap some (old-time a (v.tracked k a there).0)
          ∙ sym (due-some q k a there)
    ]

    inserted-due : (k : K) → due inserted k ≡ put dec p e (due q) k
    unfolding inserted
    inserted-due k = elim (dec k p) [
      | yes d ↦ rw d (
          due-some inserted p q.next (put_self dec p q.next q.by_key)
          ∙ ap some new-time
          ∙ sym (put_self dec p e (due q)))
      | no ne ↦
          let at = put_ne dec p q.next q.by_key k ne in
          inserted-due_ne k at ∙ sym (put_ne dec p e (due q) k ne)
    ]

  pub insert-Became :
      q.by_key p ≡ none
      → q.owned p ≡ none
      → Ends (Became (put dec p e (due q)) q.owned) (insert dec q p e)
  unfolding insert grown inserted
  insert-Became none_yet free =
      let item : ExpiryItem K = record { path = p; expires_at = e; index = pos 0 } in
      let (h, eh, w) =
        heap_push-Pushed (grown item) q.next (grown-IsOrdered item) (grown-new item) in
      (
        inserted item refl refl h w none_yet free,
        rw eh,
        record {
          valid = inserted-IsValid item refl refl h w none_yet free;
          times = inserted-due item refl refl h w none_yet free;
          owners = λ k. refl;
        },
      )
