-- ===== src/ExpiryQueue/Removal.antt =====
-- Taking an item out of the heap and the map, as a sweep does, and Add at or over the threshold.
use rampardos.Prelude.{
  ℕ, ◌≡◌, ◌≢◌, ◌⊎◌, inl, inr, refl, sym, ap, ◌∙◌, Option, some, none, Option-cases, put, delete,
  put_ne, delete_self, delete_ne, arith, pos,
}
use mathlib.Core.Path.{subst}
use rampardos.ExpiryHeap.{ExpiryHeap}
use rampardos.ExpiryHeap.Order.{Ends, Has}
use rampardos.ExpiryHeap.Take.{Removed, heap_remove-Removed}
use rampardos.ExpiryQueue.{ExpiryQueue, own}
use rampardos.ExpiryQueue.Valid.{IsValid, Became, due, due-none, due-some, due-owned}

module _ {ℓ} {K : Type ℓ} (dec : Discrete K) (q : ExpiryQueue K) (v : IsValid q) (p : K) where
  module _ (a : ℕ) (there : q.by_key p ≡ some a) (h : ExpiryHeap K) (w : Removed q.heap a h)
      (o : K → Option (Unit {0}))
      (more : (k : K) → o k ≡ some tt → (k ≡ p) ⊎ (q.owned k ≡ some tt)) where
    abbrev pub removed : ExpiryQueue K
    removed = record q { heap = h; by_key = delete dec p q.by_key; owned = o }

    removed-tracked :
        (k : K) (b : ℕ) → delete dec p q.by_key k ≡ some b → Has h b × ((h.items b).path ≡ k)
    removed-tracked k b eq = elim (dec k p) [
      | yes d ↦ absurd (ground (arith, delete_self dec p q.by_key, eq))
      | no ne ↦
          let old : q.by_key k ≡ some b = sym (delete_ne dec p q.by_key k ne) ∙ eq in
          let (x, d) = v.tracked k b old in
          let other : b ≢ a =
            λ same. ne (sym d ∙ ap (λ c. (q.heap.items c).path) same ∙ (v.tracked p a there).1) in
          (w.kept b x other, w.paths b ∙ d)
    ]

    removed-listed : (b : ℕ) → Has h b → delete dec p q.by_key (h.items b).path ≡ some b
    removed-listed b x =
        let (y, other) = w.only b x in
        let old = v.listed b y in
        let ne : (q.heap.items b).path ≢ p = λ d. other cc in
        rw (w.paths b) (delete_ne dec p q.by_key _ ne ∙ old)

    removed-IsValid : IsValid removed
    removed-IsValid = record {
      ordered = w.ordered;
      tracked = removed-tracked;
      listed = removed-listed;
      apart = λ k e. elim (dec k p) [
        | yes d ↦ rw d (delete_self dec p q.by_key)
        | no ne ↦ elim (more k e) [
          | inl d ↦ absurd (ne d)
          | inr f ↦ delete_ne dec p q.by_key k ne ∙ v.apart k f
        ]
      ];
      fresh = λ b x. v.fresh b (w.only b x).0;
    }

    removed-due_ne : (k : K) → delete dec p q.by_key k ≡ q.by_key k → due removed k ≡ due q k
    removed-due_ne k at = elim (Option-cases (q.by_key k)) [
      | inl gone ↦ due-none removed k (at ∙ gone) ∙ sym (due-none q k gone)
      | inr (b, found) ↦
          due-some removed k b (at ∙ found) ∙ ap some (w.times b) ∙ sym (due-some q k b found)
    ]

    removed-due : (k : K) → due removed k ≡ delete dec p (due q) k
    removed-due k = elim (dec k p) [
      | yes d ↦
          rw d (due-none removed p (delete_self dec p q.by_key) ∙ sym (delete_self dec p (due q)))
      | no ne ↦
          removed-due_ne k (delete_ne dec p q.by_key k ne) ∙ sym (delete_ne dec p (due q) k ne)
    ]

    pub removed-Became : Became (delete dec p (due q)) o removed
    removed-Became = record { valid = removed-IsValid; times = removed-due; owners = λ k. refl }

  owned-cases : (k : K) → put dec p tt q.owned k ≡ some tt → (k ≡ p) ⊎ (q.owned k ≡ some tt)
  owned-cases k e = elim (dec k p) [
    | yes d ↦ inl d
    | no ne ↦ inr (sym (put_ne dec p tt q.owned k ne) ∙ e)
  ]

  absent-due : q.by_key p ≡ none → (k : K) → due q k ≡ delete dec p (due q) k
  absent-due gone k = elim (dec k p) [
    | yes d ↦ rw d (due-none q p gone ∙ sym (delete_self dec p (due q)))
    | no ne ↦ sym (delete_ne dec p (due q) k ne)
  ]

  own_absent :
      q.by_key p ≡ none
      → Became
          (delete dec p (due q))
          (put dec p tt q.owned)
          (record q { owned = put dec p tt q.owned })
  own_absent gone = record {
    valid = record {
      ordered = v.ordered;
      tracked = v.tracked;
      listed = v.listed;
      apart = λ k e. elim (owned-cases k e) [ inl d ↦ rw d gone | inr f ↦ v.apart k f ];
      fresh = v.fresh;
    };
    times = λ k. due-owned q (put dec p tt q.owned) k ∙ absent-due gone k;
    owners = λ k. refl;
  }

  -- Add at or over the threshold ends; it drops the path's entry and marks it as owned.
  pub own-Became : Ends (Became (delete dec p (due q)) (put dec p tt q.owned)) (own dec q p)
  unfolding own
  own-Became = elim (Option-cases (q.by_key p)) [
    | inl gone ↦ (record q { owned = put dec p tt q.owned }, rw (gone, own), own_absent gone)
    | inr (a, there) ↦
        let (c, inside, at) = (v.tracked p a there).0 in
        let ((b, h), e, (d, w)) = heap_remove-Removed q.heap c inside v.ordered in
        let taken : Removed q.heap a h = subst (λ x. Removed q.heap x h) at w in
        let linked : (q.heap.items a).index ≡ pos c =
          subst (λ x. (q.heap.items x).index ≡ pos c) at (v.ordered.linked c inside) in
        (
          removed a there h taken (put dec p tt q.owned) owned-cases,
          rw (there, own, linked, e),
          removed-Became a there h taken (put dec p tt q.owned) owned-cases,
        )
  ]
