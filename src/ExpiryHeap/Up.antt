-- ===== src/ExpiryHeap/Up.antt =====
-- up of container/heap.
use rampardos.Prelude.{
  ℕ, zero, suc, ◌+◌, ◌≤◌, ◌<◌, ◌==◌, ltb, ◌≡◌, ◌≢◌, inl, inr, length, Bool-cases, arith,
}
use rampardos.ExpiryHeap.{ExpiryHeap, parent, up_loop, up}
use rampardos.ExpiryHeap.Order.{
  Ends, key, IsHeap, Same, Same-refl, Same-trans, less-slot, swapped, swap-slot, key-swapped,
  length-swapped, Same-swapped,
}

module _ {ℓ} {K : Type ℓ} where
  -- The edges past `i`, from its parent to its children, are in order.
  abbrev pub IsBridged : ℕ → ExpiryHeap K → ℕ → Type 0
  IsBridged n h i = (c : ℕ) → 0 < c → c < n → parent c ≡ i → 0 < i → key h (parent i) ≤ key h c

  -- Only the edge above `i` may be out of order.
  pub record UpHole (n : ℕ) (h : ExpiryHeap K) (i : ℕ) : Type 0 where
    pub inside : i < n
    pub within : n ≤ length h.slots
    pub edges : (c : ℕ) → 0 < c → c < n → c ≢ i → key h (parent c) ≤ key h c
    pub bridged : IsBridged n h i

  -- `g` is in order and holds the items of `h`.
  abbrev pub Sifted : ℕ → ExpiryHeap K → ExpiryHeap K → Type ℓ
  Sifted n h g = Same n h g × IsHeap n g

  pub UpHole-IsHeap :
      (n : ℕ) (h : ExpiryHeap K) (i : ℕ) → UpHole n h i → key h (parent i) ≤ key h i → IsHeap n h
  UpHole-IsHeap n h i v e c p q = ground (arith, v.edges c)

  swapped-UpHole :
      (n : ℕ) (h : ExpiryHeap K) (i : ℕ)
      → UpHole n h i
      → parent i ≢ i
      → key h i < key h (parent i)
      → UpHole n (swapped h (parent i) i) (parent i)
  swapped-UpHole n h i v ne below =
      let at = key-swapped h (parent i) i (omega arith) (omega arith) in
      let size = length-swapped h (parent i) i (omega arith) (omega arith) in
      record {
        inside = omega arith;
        within = omega arith;
        edges = λ c p q r.
            ground (arith, at c, at (parent c), v.edges c, v.bridged c, v.edges (parent i));
        bridged = λ c p q r t.
            ground (arith, at c, at (parent (parent i)), v.edges c, v.edges (parent i));
      }

  up_loop-Sifted :
      (f n : ℕ) (h : ExpiryHeap K) (i : ℕ)
      → i < f
      → UpHole n h i
      → Ends (Sifted n h) (up_loop f h i)
  unfolding up_loop
  up_loop-Sifted zero n h i p v = absurd (omega arith)
  up_loop-Sifted (suc f) n h i p v = elim (Bool-cases (parent i == i)) [
    | inl root ↦ (h, rw root, (Same-refl n h, λ c q r. v.edges c q r (ground arith)))
    | inr low ↦
        let hi : i < length h.slots = omega arith in
        let above : parent i < length h.slots = omega arith in
        elim (Bool-cases (ltb (key h i) (key h (parent i)))) [
          | inl below ↦
              let (g, e, (s, o)) =
                up_loop-Sifted f n (swapped h (parent i) i) (parent i) (ground arith)
                  (swapped-UpHole n h i v (ground arith) (ground arith)) in
              (
                g,
                rw
                    (
                      low,
                      less-slot h i (parent i) hi above,
                      below,
                      swap-slot h (parent i) i above hi,
                    )
                    e,
                (Same-trans (Same-swapped h (parent i) i above hi n (omega arith) v.inside) s, o),
              )
          | inr settled ↦ (
            h,
            rw (low, less-slot h i (parent i) hi above, settled),
            (Same-refl n h, λ c q r. ground (arith, v.edges c)),
          )
        ]
  ]

  -- `up` ends, and orders a heap in which one item may be too low.
  pub up-Sifted : (n : ℕ) (h : ExpiryHeap K) (i : ℕ) → UpHole n h i → Ends (Sifted n h) (up h i)
  unfolding up
  up-Sifted n h i v = up_loop-Sifted (i + 1) n h i (omega arith) v
