-- ===== src/ExpiryHeap/Down.antt =====
-- down of container/heap.
use rampardos.Prelude.{
  ℕ, zero, suc, ◌+◌, ◌*◌, ◌≤◌, ◌<◌, ltb, leb, ◌≡◌, ◌≢◌, ◌⊎◌, inl, inr, refl, true, false, length,
  Bool-cases, arith,
}
use rampardos.ExpiryHeap.{ExpiryHeap, parent, least_child, down_loop, down}
use rampardos.ExpiryHeap.Order.{
  Ends, key, IsHeap, Same, Same-refl, Same-trans, less-slot, swapped, swap-slot, key-swapped,
  length-swapped, Same-swapped,
}
use rampardos.ExpiryHeap.Up.{IsBridged, UpHole, UpHole-IsHeap}

children : (c i : ℕ) → 0 < c → parent c ≡ i → (c ≡ 2 * i + 1) ⊎ (c ≡ 2 * i + 1 + 1)
children c i p e = ground arith

module _ {ℓ} {K : Type ℓ} where
  -- Only the edges above and below `i` may be out of order.
  pub record Hole (n : ℕ) (h : ExpiryHeap K) (i : ℕ) : Type 0 where
    pub inside : i < n
    pub within : n ≤ length h.slots
    pub edges : (c : ℕ) → 0 < c → c < n → c ≢ i → parent c ≢ i → key h (parent c) ≤ key h c
    pub bridged : IsBridged n h i

  record IsLeastChild (n : ℕ) (h : ExpiryHeap K) (i j : ℕ) : Type 0 where
    inside : j < n
    child : (j ≡ 2 * i + 1) ⊎ (j ≡ 2 * i + 2)
    least : (c : ℕ) → 0 < c → c < n → parent c ≡ i → key h j ≤ key h c

  least_child-IsLeastChild :
      (n : ℕ) (h : ExpiryHeap K) (i : ℕ)
      → 2 * i + 1 < n
      → n ≤ length h.slots
      → Ends (IsLeastChild n h i) (least_child h i n)
  unfolding least_child
  least_child-IsLeastChild n h i p q = elim (Bool-cases (ltb (2 * i + 1 + 1) n)) [
    | inl two ↦
        let right : 2 * i + 1 + 1 < length h.slots = ground arith in
        let left : 2 * i + 1 < length h.slots = omega arith in
        elim (Bool-cases (ltb (key h (2 * i + 1 + 1)) (key h (2 * i + 1)))) [
          | inl e ↦ (
            2 * i + 1 + 1,
            rw (two, less-slot h _ _ right left, e),
            record {
              inside = ground arith;
              child = inr (omega arith);
              least = λ c r s t. ground (arith, children c i r t);
            },
          )
          | inr e ↦ (
            2 * i + 1,
            rw (two, less-slot h _ _ right left, e),
            record {
              inside = p;
              child = inl refl;
              least = λ c r s t. ground (arith, children c i r t);
            },
          )
        ]
    | inr one ↦ (
      2 * i + 1,
      rw one,
      record { inside = p; child = inl refl; least = λ c r s t. ground (arith, children c i r t) },
    )
  ]

  swapped-Hole :
      (n : ℕ) (h : ExpiryHeap K) (i j : ℕ)
      → Hole n h i
      → IsLeastChild n h i j
      → key h j < key h i
      → Hole n (swapped h i j) j × (key (swapped h i j) (parent j) ≤ key (swapped h i j) j)
  swapped-Hole n h i j v s below =
      let hi : i < length h.slots = omega arith in
      let hj : j < length h.slots = omega arith in
      let at = key-swapped h i j hi hj in
      (
        record {
          inside = s.inside;
          within = omega (arith, length-swapped h i j hi hj);
          edges = λ c p q r t.
              ground (arith, at c, at (parent c), v.edges c, v.bridged j, v.bridged c, s.least c);
          bridged = λ c p q r t. ground (arith, at c, at (parent j), v.edges c);
        },
        ground (arith, at j, at (parent j)),
      )

  -- What sifting down from `i` to `j` leaves: it moved and the heap is in order, or it did not.
  abbrev pub Sunk : ℕ → ExpiryHeap K → ℕ → ExpiryHeap K × ℕ → Type ℓ
  Sunk n h i (g, j) = Same n h g × (((j ≡ i) × (g ≡ h) × UpHole n h i) ⊎ ((i < j) × IsHeap n g))

  unmoved :
      (n : ℕ) (h : ExpiryHeap K) (i : ℕ)
      → Hole n h i
      → ((c : ℕ) → 0 < c → c < n → parent c ≡ i → key h i ≤ key h c)
      → UpHole n h i
  unmoved n h i v low = record {
    inside = v.inside;
    within = v.within;
    edges = λ c p q r. ground (arith, v.edges c, low c);
    bridged = v.bridged;
  }

  fallen :
      (n : ℕ) (h : ExpiryHeap K) (i j : ℕ) (k g : ExpiryHeap K) (m : ℕ)
      → i < j
      → key k (parent j) ≤ key k j
      → ((m ≡ j) × (g ≡ k) × UpHole n k j) ⊎ ((j < m) × IsHeap n g)
      → ((m ≡ i) × (g ≡ h) × UpHole n h i) ⊎ ((i < m) × IsHeap n g)
  fallen n h i j k g m p edge (inl (e, d, v)) = inr (omega arith, rw d (UpHole-IsHeap n k j v edge))
  fallen n h i j k g m p edge (inr (q, o)) = inr (omega arith, o)

  down_loop-Sunk :
      (f n : ℕ) (h : ExpiryHeap K) (i : ℕ)
      → n < f + i
      → Hole n h i
      → Ends (Sunk n h i) (down_loop f h i n)
  unfolding down_loop
  down_loop-Sunk zero n h i p v = absurd (omega (arith, v.inside))
  down_loop-Sunk (suc f) n h i p v = elim (Bool-cases (leb n (2 * i + 1))) [
    | inl leaf ↦ (
      (h, i),
      rw leaf,
      (
        Same-refl n h,
        inl (refl, refl, unmoved n h i v λ c p q t. absurd (ground (arith, children c i p t))),
      ),
    )
    | inr inner ↦
        let (j, ej, s) = least_child-IsLeastChild n h i (ground arith) v.within in
        let hi : i < length h.slots = omega (arith, v.inside, v.within) in
        let hj : j < length h.slots = omega (arith, s.inside, v.within) in
        elim (Bool-cases (ltb (key h j) (key h i))) [
          | inl below ↦
              let moved = swapped-Hole n h i j v s (ground arith) in
              let ((g, k), e, (t, o)) =
                down_loop-Sunk f n (swapped h i j) j (ground arith) moved.0 in
              (
                (g, k),
                rw (inner, ej, less-slot h j i hj hi, below, swap-slot h i j hi hj) e,
                (
                  Same-trans (Same-swapped h i j hi hj n v.inside s.inside) t,
                  fallen n h i j (swapped h i j) g k (omega (arith, s.child)) moved.1 o,
                ),
              )
          | inr settled ↦ (
            (h, i),
            rw (inner, ej, less-slot h j i hj hi, settled),
            (
              Same-refl n h,
              inl (refl, refl, unmoved n h i v λ c p q t. ground (arith, s.least c p q t)),
            ),
          )
        ]
  ]

  said :
      (n : ℕ) (h g : ExpiryHeap K) (i j : ℕ)
      → ((j ≡ i) × (g ≡ h) × UpHole n h i) ⊎ ((i < j) × IsHeap n g)
      → ((ltb i j ≡ false) × (g ≡ h) × UpHole n h i) ⊎ ((ltb i j ≡ true) × IsHeap n g)
  said n h g i j (inl (e, d, v)) = inl (ground arith, d, v)
  said n h g i j (inr (e, o)) = inr (ground arith, o)

  -- Sifting ends; it says whether the item moved, and orders the heap if it did.
  pub down-Sunk :
      (n : ℕ) (h : ExpiryHeap K) (i : ℕ)
      → Hole n h i
      → Ends
          (λ r.
            Same n h r.0
            × (((r.1 ≡ false) × (r.0 ≡ h) × UpHole n h i) ⊎ ((r.1 ≡ true) × IsHeap n r.0)))
          (down h i n)
  unfolding down
  down-Sunk n h i v =
      let ((g, j), e, (s, o)) = down_loop-Sunk (n + 1) n h i (omega (arith, v.inside)) v in
      ((g, ltb i j), rw e, (s, said n h g i j o))
