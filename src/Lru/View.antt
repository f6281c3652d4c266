-- ===== src/Lru/View.antt =====
-- The abstract view of a cache: its entries, most recently used first, with the pointers and the
-- map forgotten. Each operation of the map and the list is an operation on this list.
use rampardos.Prelude.{
  ℕ, suc, ◌-◌, ◌≡◌, ◌≢◌, refl, sym, ap, ◌∙◌, ite, Option, some, none, List, [], ◌∷◌, All, length,
  arith,
}
use rampardos.Lru.{Lru, value, unlink, back}
use rampardos.Lru.Agree.{Agree}
use rampardos.Lru.Items.{Unique, some_eq, value-back}

module _ {E : Type 0} where
  abbrev pub items : List (ℕ × E) → List E
  items [] = []
  items (x ∷ l) = x.1 ∷ items l

  -- All entries but the last, least recently used one.
  abbrev pub drop_last : List E → List E
  drop_last [] = []
  drop_last (x ∷ []) = []
  drop_last (x ∷ y ∷ l) = x ∷ drop_last (y ∷ l)

  pub length-drop_last : (l : List E) → length (drop_last l) ≡ length l - 1
  length-drop_last [] = omega arith
  length-drop_last (x ∷ []) = omega arith
  length-drop_last (x ∷ y ∷ l) = omega (arith, length-drop_last (y ∷ l))

  pub length-items : (l : List (ℕ × E)) → length (items l) ≡ length l
  length-items [] = refl
  length-items (x ∷ l) = ap suc (length-items l)

  -- Evicting the back of the list drops the last entry.
  pub items-unlink-back :
      (l : List (ℕ × E)) (i : ℕ) (e : E)
      → Unique l
      → back l ≡ some (i, e)
      → items (unlink i l) ≡ drop_last (items l)
  unfolding back unlink value
  items-unlink-back [] i e u h = refl
  items-unlink-back ((k, d) ∷ []) i e u h = ground arith
  items-unlink-back ((k, d) ∷ (n, f) ∷ l) i e u h =
      ground (arith, items-unlink-back ((n, f) ∷ l) i e u.1 h, value-back ((n, f) ∷ l) i e u.1 h)

abbrev pub view : {K E : Type 0} → Lru K E → List E
view c = items c.lru

module _ {K E : Type 0} (dec : Discrete K) (key : E → K) where
  -- The entry with the key.
  unfoldable pub find : K → List E → Option E
  find k [] = none
  find k (e ∷ l) = ite (dec (key e) k) (some e) (find k l)

  -- The other entries.
  unfoldable pub erase : K → List E → List E
  erase k [] = []
  erase k (e ∷ l) = ite (dec (key e) k) l (e ∷ erase k l)

  -- Two keys of the map do not share an element.
  pub same_key :
      (c : Lru K E) (i : ℕ) (k j : K)
      → Agree dec key c
      → c.entries k ≡ some i
      → c.entries j ≡ some i
      → j ≡ k
  same_key c i k j a h g =
      let (d, v, q) = a.pointed j i g in
      let (f, w, r) = a.pointed k i h in sym q ∙ ap key (some_eq (sym v ∙ w)) ∙ r

  module _ (m : K → Option ℕ) (k : K) where
    find_absent :
        (l : List (ℕ × E))
        → m k ≡ none
        → All (λ x. m (key x.1) ≡ some x.0) l
        → find k (items l) ≡ none
    unfolding find
    find_absent [] h a = refl
    find_absent ((j, e) ∷ l) h a = elim (dec (key e) k) [
      | yes p ↦ absurd (cc (ap m p, a.0))
      | no p ↦ ground (arith, find_absent l h a.1)
    ]

    find_present :
        (i : ℕ) (l : List (ℕ × E))
        → m k ≡ some i
        → ((j : K) → m j ≡ some i → j ≡ k)
        → All (λ x. m (key x.1) ≡ some x.0) l
        → find k (items l) ≡ value i l
    unfolding find value
    find_present i [] h s a = refl
    find_present i ((j, e) ∷ l) h s a = elim (dec (key e) k) [
      | yes p ↦ ground (arith, ap m p, a.0)
      | no p ↦
          let n : j ≢ i = λ q. p (s (key e) (a.0 ∙ ap some q)) in
          ground (arith, find_present i l h s a.1)
    ]

    erase_present :
        (i : ℕ) (l : List (ℕ × E))
        → m k ≡ some i
        → ((j : K) → m j ≡ some i → j ≡ k)
        → All (λ x. m (key x.1) ≡ some x.0) l
        → items (unlink i l) ≡ erase k (items l)
    unfolding erase unlink
    erase_present i [] h s a = refl
    erase_present i ((j, e) ∷ l) h s a = elim (dec (key e) k) [
      | yes p ↦ ground (arith, ap m p, a.0)
      | no p ↦
          let n : j ≢ i = λ q. p (s (key e) (a.0 ∙ ap some q)) in
          ground (arith, erase_present i l h s a.1)
    ]

  module _ (c : Lru K E) (k : K) (a : Agree dec key c) where
    -- A key that the map does not have is the key of no entry.
    pub find_of_none : c.entries k ≡ none → find k (view c) ≡ none
    find_of_none h = find_absent c.entries k c.lru h a.listed

    -- A key of the map points to the entry with the key.
    pub find_of_some : (i : ℕ) → c.entries k ≡ some i → find k (view c) ≡ value i c.lru
    find_of_some i h = find_present c.entries k i c.lru h (λ j g. same_key c i k j a h g) a.listed

    pub items-unlink : (i : ℕ) → c.entries k ≡ some i → items (unlink i c.lru) ≡ erase k (view c)
    items-unlink i h = erase_present c.entries k i c.lru h (λ j g. same_key c i k j a h g) a.listed
