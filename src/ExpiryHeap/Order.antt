-- ===== src/ExpiryHeap/Order.antt =====
-- The heap order, and what sifting keeps.
use rampardos.Prelude.{
  ℕ, zero, suc, ◌≤◌, ◌<◌, ◌==◌, ltb, if◌then◌else◌, ◌≡◌, refl, ◌∙◌, Option, some, length, arith, ℤ,
  pos, set, length-set, slot, get_elem?-slot, slot-set,
}
use rampardos.ExpiryHeap.{ExpiryItem, ExpiryHeap, set_index, less, swap, parent}

-- The call ends, with a value that satisfies `P`.
abbrev pub Ends {ℓ κ} : {A : Type ℓ} → (A → Type κ) → Option A → Type (ℓ ⊔ κ)
Ends {A = A} P r = (a : A) × (r ≡ some a) × P a

module _ {ℓ} {K : Type ℓ} where
  abbrev pub key : ExpiryHeap K → ℕ → ℕ
  key h c = (h.items (slot h.slots c)).expires_at

  -- Every edge among the first `n` slots is in order.
  abbrev pub IsHeap : ℕ → ExpiryHeap K → Type 0
  IsHeap n h = (c : ℕ) → 0 < c → c < n → key h (parent c) ≤ key h c

  -- Every item knows its slot, so that no pointer stands in two slots.
  abbrev pub Linked : ExpiryHeap K → Type 0
  Linked h = (c : ℕ) → c < length h.slots → (h.items (slot h.slots c)).index ≡ pos c

  abbrev pub Has : ExpiryHeap K → ℕ → Type 0
  Has h p = (c : ℕ) × (c < length h.slots) × (slot h.slots c ≡ p)

  -- `g` holds the items of `h`, which are the same but for their slots, and those from `n` on
  -- stayed where they were.
  pub record Same (n : ℕ) (h g : ExpiryHeap K) : Type ℓ where
    pub size : length g.slots ≡ length h.slots
    pub times : (p : ℕ) → (g.items p).expires_at ≡ (h.items p).expires_at
    pub paths : (p : ℕ) → (g.items p).path ≡ (h.items p).path
    pub linked : Linked h → Linked g
    pub here : (p : ℕ) → Has h p → Has g p
    pub back : (p : ℕ) → Has g p → Has h p
    pub beyond : (c : ℕ) → n ≤ c → slot g.slots c ≡ slot h.slots c

  pub Same-refl : (n : ℕ) (h : ExpiryHeap K) → Same n h h
  Same-refl n h = record {
    size = refl;
    times = λ p. refl;
    paths = λ p. refl;
    linked = λ l. l;
    here = λ p x. x;
    back = λ p x. x;
    beyond = λ c _. refl;
  }

  pub Same-trans : {n : ℕ} {h g k : ExpiryHeap K} → Same n h g → Same n g k → Same n h k
  Same-trans s t = record {
    size = t.size ∙ s.size;
    times = λ p. t.times p ∙ s.times p;
    paths = λ p. t.paths p ∙ s.paths p;
    linked = λ l. t.linked (s.linked l);
    here = λ p x. t.here p (s.here p x);
    back = λ p x. s.back p (t.back p x);
    beyond = λ c q. t.beyond c q ∙ s.beyond c q;
  }

  pub less-slot :
      (h : ExpiryHeap K) (i j : ℕ)
      → i < length h.slots
      → j < length h.slots
      → less h i j ≡ some (ltb (key h i) (key h j))
  unfolding less
  less-slot h i j p q = rw (get_elem?-slot h.slots i p, get_elem?-slot h.slots j q)

  -- What a swap within the slice leaves.
  pub swapped : ExpiryHeap K → ℕ → ℕ → ExpiryHeap K
  swapped h i j = record {
    slots = set (set h.slots i (slot h.slots j)) j (slot h.slots i);
    items = set_index (set_index h.items (slot h.slots j) (pos i)) (slot h.slots i) (pos j);
  }

  pub swap-slot :
      (h : ExpiryHeap K) (i j : ℕ)
      → i < length h.slots
      → j < length h.slots
      → swap h i j ≡ some (swapped h i j)
  unfolding swap swapped
  swap-slot h i j p q = rw (get_elem?-slot h.slots i p, get_elem?-slot h.slots j q)

  pub set_index-time :
      (m : ℕ → ExpiryItem K) (p q : ℕ) (z : ℤ) → (set_index m p z q).expires_at ≡ (m q).expires_at
  unfolding set_index
  set_index-time m p q z = ground arith

  pub set_index-path :
      (m : ℕ → ExpiryItem K) (p q : ℕ) (z : ℤ) → (set_index m p z q).path ≡ (m q).path
  unfolding set_index
  set_index-path m p q z = ground arith

  pub set_index-index :
      (m : ℕ → ExpiryItem K) (p q : ℕ) (z : ℤ)
      → (set_index m p z q).index ≡ (if q == p then z else (m q).index)
  unfolding set_index
  set_index-index m p q z = ground arith

  module _ (h : ExpiryHeap K) (i j : ℕ) (hi : i < length h.slots) (hj : j < length h.slots) where
    pub slot-swapped :
        (c : ℕ)
        → slot (swapped h i j).slots c
          ≡ (if c == j then slot h.slots i else if c == i then slot h.slots j else slot h.slots c)
    unfolding swapped
    slot-swapped c = rw (
      slot-set (set h.slots i (slot h.slots j)) j c (slot h.slots i) (rw length-set hj),
      slot-set h.slots i c (slot h.slots j) hi,
    )

    pub swapped-time : (p : ℕ) → ((swapped h i j).items p).expires_at ≡ (h.items p).expires_at
    unfolding swapped
    swapped-time p = simp set_index-time

    pub key-swapped :
        (c : ℕ)
        → key (swapped h i j) c ≡ (if c == j then key h i else if c == i then key h j else key h c)
    key-swapped c = swapped-time (slot (swapped h i j).slots c) ∙ ground (arith, slot-swapped c)

    swapped-index :
        (p : ℕ)
        → ((swapped h i j).items p).index ≡ (
            if p == slot h.slots i
            then pos j
            else if p == slot h.slots j
            then pos i
            else (h.items p).index)
    unfolding swapped
    swapped-index p = rw (
      set_index-index (set_index h.items (slot h.slots j) (pos i)) (slot h.slots i) p (pos j),
      set_index-index h.items (slot h.slots j) p (pos i),
    )

    swapped-path : (p : ℕ) → ((swapped h i j).items p).path ≡ (h.items p).path
    unfolding swapped
    swapped-path p = simp set_index-path

    pub length-swapped : length (swapped h i j).slots ≡ length h.slots
    unfolding swapped
    length-swapped = simp length-set

    Linked-swapped : Linked h → Linked (swapped h i j)
    Linked-swapped l c hc =
        let inside : c < length h.slots = omega (arith, length-swapped) in
        ground (
          arith,
          slot-swapped c,
          swapped-index (slot (swapped h i j).slots c),
          l i hi,
          l j hj,
          l c inside,
        )

    -- Where a swap takes a slot.
    abbrev place : ℕ → ℕ
    place c = if c == i then j else if c == j then i else c

    slot-place : (c : ℕ) → slot (swapped h i j).slots (place c) ≡ slot h.slots c
    slot-place c = ground (arith, slot-swapped (place c))

    place-slot : (c : ℕ) → slot h.slots (place c) ≡ slot (swapped h i j).slots c
    place-slot c = ground (arith, slot-swapped c)

    Has-swapped : (p : ℕ) → Has h p → Has (swapped h i j) p
    Has-swapped p (c, hc, e) = (place c, ground (arith, length-swapped), slot-place c ∙ e)

    swapped-Has : (p : ℕ) → Has (swapped h i j) p → Has h p
    swapped-Has p (c, hc, e) =
        let inside : c < length h.slots = omega (arith, length-swapped) in
        (place c, ground arith, place-slot c ∙ e)

    pub Same-swapped : (n : ℕ) → i < n → j < n → Same n h (swapped h i j)
    Same-swapped n p q = record {
      size = length-swapped;
      times = swapped-time;
      paths = swapped-path;
      linked = Linked-swapped;
      here = Has-swapped;
      back = swapped-Has;
      beyond = λ c r. ground (arith, slot-swapped c);
    }

module _ {ℓ} {K : Type ℓ} (n : ℕ) (h : ExpiryHeap K) (o : IsHeap n h) where
  root-least_below : (f c : ℕ) → c < f → c < n → key h 0 ≤ key h c
  root-least_below zero c p q = absurd (omega arith)
  root-least_below (suc f) c p q = ground (arith, o c, root-least_below f (parent c))

  -- No item is due before the one at the root.
  pub root-least : (c : ℕ) → c < n → key h 0 ≤ key h c
  root-least c q = root-least_below (suc c) c (omega arith) q
