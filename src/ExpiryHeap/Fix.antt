-- ===== src/ExpiryHeap/Fix.antt =====
-- Fix of container/heap, and the sifting that Remove shares with it.
use rampardos.Prelude.{◌>>=◌, ℕ, ◌<◌, if◌then◌else◌, ◌≡◌, inl, inr, refl, some, length, arith, pos}
use rampardos.ExpiryHeap.{ExpiryHeap, parent, up, down, heap_fix}
use rampardos.ExpiryHeap.Order.{Ends, IsHeap, Linked, Has}
use rampardos.ExpiryHeap.Up.{Sifted, up-Sifted}
use rampardos.ExpiryHeap.Down.{Hole, down-Sunk}

module _ {ℓ} {K : Type ℓ} where
  -- Fix and Remove sift down, and up if that moved nothing.
  pub resift :
      (n : ℕ) (h : ExpiryHeap K) (i : ℕ)
      → Hole n h i
      → Ends (Sifted n h) (down h i n >>= λ (g, moved). if moved then some g else up g i)
  resift n h i v =
      let ((g, moved), e, (s, o)) = down-Sunk n h i v in
      elim o [
        | inl (still, d, w) ↦ let (k, ek, t) = up-Sifted n h i w in (k, rw (e, still, d) ek, t)
        | inr (fell, order) ↦ (g, rw (e, fell), (s, order))
      ]

  -- The whole slice is a heap of linked items.
  pub record IsOrdered (h : ExpiryHeap K) : Type 0 where
    pub order : IsHeap (length h.slots) h
    pub linked : Linked h

  pub IsOrdered-same :
      (h g : ExpiryHeap K)
      → g.slots ≡ h.slots
      → ((a : ℕ) → Has h a → g.items a ≡ h.items a)
      → IsOrdered h
      → IsOrdered g
  IsOrdered-same h g e same v = record {
    order = λ c p q.
        let inside : c < length h.slots = rw (← e) q in
        rw e (
          rw (same _ (c, inside, refl), same _ (parent c, omega arith, refl)) (v.order c p inside));
    linked = λ c q.
        let inside : c < length h.slots = rw (← e) q in
        rw e (rw (same _ (c, inside, refl)) (v.linked c inside));
  }

  pub heap_fix-Sifted :
      (h : ExpiryHeap K) (i : ℕ)
      → Hole (length h.slots) h i
      → Ends (Sifted (length h.slots) h) (heap_fix h (pos i))
  unfolding heap_fix
  heap_fix-Sifted h i v = resift (length h.slots) h i v
