-- ===== src/ExpiryHeap/Push.antt =====
-- Push of container/heap: it ends, and keeps the order and the links.
use rampardos.Prelude.{
  ℕ, ◌+◌, ◌<◌, ◌==◌, if◌then◌else◌, ◌≡◌, ◌≢◌, ◌⊎◌, inl, inr, sym, ap, ◌∙◌, [], ◌∷◌, length,
  length-append, Bool-cases, ==_iff, arith, pos, slot, slot-append, slot-append_last,
}
use rampardos.ExpiryHeap.{ExpiryHeap, append, parent, up, heap_push}
use rampardos.ExpiryHeap.Order.{
  Ends, IsHeap, Linked, Has, set_index-time, set_index-path, set_index-index,
}
use rampardos.ExpiryHeap.Up.{UpHole, up-Sifted}
use rampardos.ExpiryHeap.Fix.{IsOrdered}

module _ {ℓ} {K : Type ℓ} where
  -- `g` is `h` with the item `p` more.
  pub record Pushed (h : ExpiryHeap K) (p : ℕ) (g : ExpiryHeap K) : Type ℓ where
    pub ordered : IsOrdered g
    pub times : (q : ℕ) → (g.items q).expires_at ≡ (h.items q).expires_at
    pub paths : (q : ℕ) → (g.items q).path ≡ (h.items q).path
    pub new : Has g p
    pub kept : (q : ℕ) → Has h q → Has g q
    pub only : (q : ℕ) → Has g q → (q ≡ p) ⊎ Has h q

  module _ (h : ExpiryHeap K) (p : ℕ) where
    length-append_heap : length (append h p).slots ≡ length h.slots + 1
    unfolding append
    length-append_heap = length-append h.slots (p ∷ [])

    append-slot : (c : ℕ) → c < length h.slots → slot (append h p).slots c ≡ slot h.slots c
    unfolding append
    append-slot c q = slot-append h.slots (p ∷ []) c q

    append-last : slot (append h p).slots (length h.slots) ≡ p
    unfolding append
    append-last = slot-append_last h.slots p

    append-time : (q : ℕ) → ((append h p).items q).expires_at ≡ (h.items q).expires_at
    unfolding append
    append-time q = set_index-time h.items p q _

    append-path : (q : ℕ) → ((append h p).items q).path ≡ (h.items q).path
    unfolding append
    append-path q = set_index-path h.items p q _

    append-index :
        (q : ℕ)
        → ((append h p).items q).index
          ≡ (if q == p then pos (length h.slots) else (h.items q).index)
    unfolding append
    append-index q = set_index-index h.items p q _

    append-Linked : Linked h → ¬ Has h p → Linked (append h p)
    append-Linked o new c hc = elim (Bool-cases (c == length h.slots)) [
      | inl e ↦
          let d : c ≡ length h.slots = ground arith in
          rw (d, append-last) (ground (arith, append-index p))
      | inr e ↦
          let inside : c < length h.slots = ground (arith, length-append_heap) in
          let ne : slot h.slots c ≢ p = λ d. new (c, inside, d) in
          ground (arith, append-slot c inside, append-index (slot h.slots c), o c inside)
    ]

    append-UpHole :
        IsHeap (length h.slots) h → UpHole (length h.slots + 1) (append h p) (length h.slots)
    append-UpHole o = record {
      inside = omega arith;
      within = omega (arith, length-append_heap);
      edges = λ c q r t.
          let inside : c < length h.slots = omega arith in
          ground (
            arith,
            o c q inside,
            append-slot c inside,
            append-slot (parent c) (omega arith),
            append-time (slot h.slots c),
            append-time (slot h.slots (parent c)),
          );
      bridged = λ c q r t. absurd (omega arith);
    }

    append-Has : (q : ℕ) → Has h q → Has (append h p) q
    append-Has q (c, hc, e) = (c, omega (arith, length-append_heap), append-slot c hc ∙ e)

    append-only : (q : ℕ) → Has (append h p) q → (q ≡ p) ⊎ Has h q
    append-only q (c, hc, e) = elim (Bool-cases (c == length h.slots)) [
      | inl d ↦ inl (sym e ∙ ap (slot (append h p).slots) ((==_iff _ _).0 d) ∙ append-last)
      | inr d ↦
          let inside : c < length h.slots = ground (arith, length-append_heap) in
          inr (c, inside, sym (append-slot c inside) ∙ e)
    ]

    -- Push of an item that is not in the heap ends and adds it.
    pub heap_push-Pushed : IsOrdered h → ¬ Has h p → Ends (Pushed h p) (heap_push h p)
    unfolding heap_push
    heap_push-Pushed o new =
        let n = length h.slots in
        let size : length (append h p).slots ≡ n + 1 = length-append_heap in
        let (g, e, (s, t)) = up-Sifted (n + 1) (append h p) n (append-UpHole o.order) in
        (
          g,
          ap (up (append h p)) (omega (arith, size)) ∙ e,
          record {
            ordered = record {
              order = rw (s.size, size) t;
              linked = s.linked (append-Linked o.linked new);
            };
            times = λ q. s.times q ∙ append-time q;
            paths = λ q. s.paths q ∙ append-path q;
            new = s.here p (n, omega (arith, size), append-last);
            kept = λ q x. s.here q (append-Has q x);
            only = λ q x. append-only q (s.back q x);
          },
        )
