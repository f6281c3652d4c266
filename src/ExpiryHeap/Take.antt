-- ===== src/ExpiryHeap/Take.antt =====
-- Pop and Remove of container/heap: they end, and keep the order and the links.
use rampardos.Prelude.{
  ℕ, zero, suc, ◌+◌, ◌-◌, ◌≤◌, ◌<◌, ◌==◌, if◌then◌else◌, ◌≡◌, ◌≢◌, inl, inr, refl, sym, ap, ◌∙◌,
  false, some, length, take, length-take, Bool-cases, ==_iff, arith, pos, negsuc, slot,
  get_elem?-slot, slot-take,
}
use rampardos.ExpiryHeap.{
  ExpiryHeap, ◌>>=◌, set_index, cut, parent, down, down_loop, heap_pop, remove_at, heap_remove,
}
use rampardos.ExpiryHeap.Order.{
  Ends, IsHeap, Linked, Has, Same, Same-refl, Same-trans, swapped, swap-slot, slot-swapped,
  key-swapped, length-swapped, Same-swapped, set_index-time, set_index-path, set_index-index,
}
use rampardos.ExpiryHeap.Up.{UpHole-IsHeap}
use rampardos.ExpiryHeap.Down.{Hole, down-Sunk}
use rampardos.ExpiryHeap.Fix.{IsOrdered, resift}

module _ {ℓ} {K : Type ℓ} where
  -- `g` is `h` without the item `p`.
  pub record Removed (h : ExpiryHeap K) (p : ℕ) (g : ExpiryHeap K) : Type ℓ where
    pub ordered : IsOrdered g
    pub times : (q : ℕ) → (g.items q).expires_at ≡ (h.items q).expires_at
    pub paths : (q : ℕ) → (g.items q).path ≡ (h.items q).path
    pub size : length h.slots ≡ length g.slots + 1
    pub had : Has h p
    pub kept : (q : ℕ) → Has h q → q ≢ p → Has g q
    pub only : (q : ℕ) → Has g q → Has h q × (q ≢ p)

  Removed-Same : {n : ℕ} {h k g : ExpiryHeap K} {p : ℕ} → Same n h k → Removed k p g → Removed h p g
  Removed-Same s r = record {
    ordered = r.ordered;
    times = λ q. r.times q ∙ s.times q;
    paths = λ q. r.paths q ∙ s.paths q;
    size = sym s.size ∙ r.size;
    had = s.back _ r.had;
    kept = λ q x ne. r.kept q (s.here q x) ne;
    only = λ q x. (s.back q (r.only q x).0, (r.only q x).1);
  }

  module _ (h : ExpiryHeap K) (n : ℕ) (size : length h.slots ≡ n + 1) where
    -- What Pop of the slice leaves.
    shorter : ExpiryHeap K
    shorter = record {
      slots = take n h.slots;
      items = set_index h.items (slot h.slots n) (negsuc 0);
    }

    cut-shorter : cut h ≡ some (slot h.slots n, shorter)
    unfolding cut shorter
    cut-shorter =
        let last : length h.slots - 1 ≡ n = omega arith in
        rw (last, get_elem?-slot h.slots n (omega arith))

    length-shorter : length shorter.slots ≡ n
    unfolding shorter
    length-shorter = omega (arith, length-take n h.slots)

    shorter-slot : (c : ℕ) → c < n → slot shorter.slots c ≡ slot h.slots c
    unfolding shorter
    shorter-slot c p = slot-take n h.slots c p

    shorter-time : (q : ℕ) → (shorter.items q).expires_at ≡ (h.items q).expires_at
    unfolding shorter
    shorter-time q = set_index-time h.items _ q _

    shorter-path : (q : ℕ) → (shorter.items q).path ≡ (h.items q).path
    unfolding shorter
    shorter-path q = set_index-path h.items _ q _

    shorter-index :
        (q : ℕ)
        → (shorter.items q).index ≡ (if q == slot h.slots n then negsuc 0 else (h.items q).index)
    unfolding shorter
    shorter-index q = set_index-index h.items _ q _

    not-last : Linked h → (c : ℕ) → c < n → slot h.slots c ≢ slot h.slots n
    not-last l c p e = ground (arith, l c, l n)

    Removed-shorter : Linked h → IsHeap n h → Removed h (slot h.slots n) shorter
    Removed-shorter l o = record {
      ordered = record {
        order = λ c p q.
            let inside : c < n = omega (arith, length-shorter) in
            ground (
              arith,
              o c p inside,
              shorter-slot c inside,
              shorter-slot (parent c) (omega arith),
              shorter-time (slot h.slots c),
              shorter-time (slot h.slots (parent c)),
            );
        linked = λ c q.
            let inside : c < n = omega (arith, length-shorter) in
            ground (
              arith,
              not-last l c inside,
              shorter-slot c inside,
              shorter-index (slot h.slots c),
              l c,
            );
      };
      times = shorter-time;
      paths = shorter-path;
      size = omega (arith, length-shorter);
      had = (n, omega arith, refl);
      kept = λ q (c, hc, e) ne.
          let inside : c < n = elim (Bool-cases (c == n)) [
            | inl d ↦ absurd (ne (sym e ∙ ap (slot h.slots) ((==_iff _ _).0 d)))
            | inr d ↦ ground arith
          ] in
          (c, omega (arith, length-shorter), shorter-slot c inside ∙ e);
      only = λ q (c, hc, e).
          let inside : c < n = omega (arith, length-shorter) in
          let same : slot h.slots c ≡ q = sym (shorter-slot c inside) ∙ e in
          ((c, omega arith, same), rw (← same) (not-last l c inside));
    }

  Same-more : {n : ℕ} {h k : ExpiryHeap K} → Same n h k → Same (n + 1) h k
  Same-more s = record {
    size = s.size;
    times = s.times;
    paths = s.paths;
    linked = s.linked;
    here = s.here;
    back = s.back;
    beyond = λ c p. s.beyond c (omega arith);
  }

  -- Cutting the last item off an almost ordered heap.
  Taken : ExpiryHeap K → ℕ → ℕ × ExpiryHeap K → Type ℓ
  Taken h p (q, g) = (q ≡ p) × Removed h p g

  cut-Taken :
      (n : ℕ) (h k : ExpiryHeap K) (p : ℕ)
      → length h.slots ≡ n + 1
      → Linked h
      → Same (n + 1) h k
      → IsHeap n k
      → slot k.slots n ≡ p
      → Ends (Taken h p) (cut k)
  unfolding Taken
  cut-Taken n h k p size l s o e =
      let more : length k.slots ≡ n + 1 = s.size ∙ size in
      (
        (slot k.slots n, shorter k n more),
        cut-shorter k n more,
        (e, rw (← e) (Removed-Same s (Removed-shorter k n more (s.linked l) o))),
      )

  module _ (h : ExpiryHeap K) (n i : ℕ) (size : length h.slots ≡ n + 1) (hi : i < n) where
    exchanged-Hole : IsHeap (n + 1) h → Hole n (swapped h i n) i
    exchanged-Hole o =
        let at = key-swapped h i n (omega arith) (omega arith) in
        record {
          inside = hi;
          within = omega (arith, length-swapped h i n (omega arith) (omega arith));
          edges = λ c p q r t. ground (arith, at c, at (parent c), o c p (omega arith));
          bridged = λ c p q r t.
              ground (arith, at c, at (parent i), o c p (omega arith), o i t (omega arith));
        }

    exchanged-Same : Same (n + 1) h (swapped h i n)
    exchanged-Same =
        Same-swapped h i n (omega arith) (omega arith) (n + 1) (omega arith) (omega arith)

    exchanged-slot : slot (swapped h i n).slots n ≡ slot h.slots i
    exchanged-slot = ground (arith, slot-swapped h i n (omega arith) (omega arith) n)

    exchanged-Linked : Linked h → Linked (swapped h i n)
    exchanged-Linked l = exchanged-Same.linked l

    -- Remove of any item but the last.
    remove_at-Taken : IsOrdered h → Ends (Taken h (slot h.slots i)) (remove_at h i n >>= cut)
    unfolding remove_at
    remove_at-Taken v =
        let other : (n == i) ≡ false = ground arith in
        let (k, e, (s, o)) = resift n (swapped h i n) i (exchanged-Hole (rw (← size) v.order)) in
        let (r, er, t) =
          cut-Taken n h k (slot h.slots i) size v.linked (Same-trans exchanged-Same (Same-more s)) o
            (s.beyond n (omega arith) ∙ exchanged-slot) in
        (r, rw (other, swap-slot h i n (omega arith) (omega arith), e) er, t)

  removed_last :
      (h : ExpiryHeap K) (n : ℕ)
      → length h.slots ≡ n + 1
      → IsOrdered h
      → Ends (Taken h (slot h.slots n)) (cut h)
  removed_last h n size v =
      cut-Taken n h h (slot h.slots n) size v.linked (Same-refl (n + 1) h)
        (λ c p q. v.order c p (omega arith)) refl

  remove_at-cases :
      (h : ExpiryHeap K) (n i : ℕ)
      → length h.slots ≡ n + 1
      → i ≤ n
      → IsOrdered h
      → Ends (Taken h (slot h.slots i)) (remove_at h i n >>= cut)
  unfolding remove_at
  remove_at-cases h n i size p v = elim (Bool-cases (n == i)) [
    | inl e ↦
        let d : n ≡ i = ground arith in
        let (r, er, t) = removed_last h n size v in (r, rw e er, rw (← d) t)
    | inr e ↦ remove_at-Taken h n i size (ground arith) v
  ]

  -- Removing the item of a slot in an ordered heap whose items know their slots ends, and leaves
  -- such a heap with exactly the other items, whose times and paths are unchanged.
  pub heap_remove-Removed :
      (h : ExpiryHeap K) (i : ℕ)
      → i < length h.slots
      → IsOrdered h
      → Ends (λ r. (r.0 ≡ slot h.slots i) × Removed h (slot h.slots i) r.1) (heap_remove h (pos i))
  unfolding heap_remove Taken
  heap_remove-Removed h i p v =
      remove_at-cases h (length h.slots - 1) i (omega arith) (omega arith) v

  pop_down :
      (h : ExpiryHeap K) (n : ℕ)
      → length h.slots ≡ n + 1
      → IsOrdered h
      → Ends (λ r. Same n (swapped h 0 n) r.0 × IsHeap n r.0) (down (swapped h 0 n) 0 n)
  unfolding down down_loop
  pop_down h zero size v =
      ((swapped h 0 0, false), refl, (Same-refl 0 _, λ c p q. absurd (omega arith)))
  pop_down h (suc n) size v =
      let hole = exchanged-Hole h (suc n) 0 size (omega arith) (rw (← size) v.order) in
      let (r, e, (s, o)) = down-Sunk (suc n) (swapped h 0 (suc n)) 0 hole in
      (
        r,
        e,
        (
          s,
          elim o [
            | inl (still, d, w) ↦ rw d (UpHole-IsHeap _ _ 0 w (omega arith))
            | inr (fell, order) ↦ order
          ],
        ),
      )

  -- Pop of a heap that is not empty ends, and takes exactly the item at the root.
  pub heap_pop-Removed :
      (h : ExpiryHeap K)
      → 0 < length h.slots
      → IsOrdered h
      → Ends (λ r. (r.0 ≡ slot h.slots 0) × Removed h (slot h.slots 0) r.1) (heap_pop h)
  unfolding heap_pop Taken
  heap_pop-Removed h p v =
      let n = length h.slots - 1 in
      let size : length h.slots ≡ n + 1 = omega arith in
      let some_left : (length h.slots == 0) ≡ false = ground arith in
      let swap_ends = Same-swapped h 0 n p (omega arith) (n + 1) (omega arith) (omega arith) in
      let top = slot-swapped h 0 n p (omega arith) n in
      let ((k, moved), e, (s, o)) = pop_down h n size v in
      let (r, er, t) =
        cut-Taken n h k (slot h.slots 0) size v.linked (Same-trans swap_ends (Same-more s)) o
          (s.beyond n (omega arith) ∙ ground arith) in
      (r, rw (some_left, swap-slot h 0 n p (omega arith), e) er, t)
