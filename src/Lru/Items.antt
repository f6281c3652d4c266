-- ===== src/Lru/Items.antt =====
-- What the operations on the elements of a container/list do to lookups, lengths and numbers.
use rampardos.Prelude.{
  ℕ, suc, ◌==◌, if◌then◌else◌, ◌≡◌, ◌≢◌, inl, inr, refl, sym, ap, ◌∙◌, false, some, none, List, [],
  ◌∷◌, All, length, Bool-cases, ==_iff, ℕ_discrete, arith,
}
use rampardos.Lru.{value, unlink, store, move_to_front, back}

module _ {E : Type 0} where
  -- No element is in the list twice.
  abbrev pub Unique : List (ℕ × E) → Type 0
  Unique [] = Unit
  Unique ((i, e) ∷ l) = (value i l ≡ none) × Unique l

  pub All-map :
      (P Q : ℕ × E → Type 0) → ((x : ℕ × E) → P x → Q x) → (l : List (ℕ × E)) → All P l → All Q l
  All-map P Q f [] a = tt
  All-map P Q f (x ∷ l) a = (f x a.0, All-map P Q f l a.1)

  pub All-value :
      (P : ℕ × E → Type 0) (i : ℕ) (l : List (ℕ × E)) {e : E}
      → All P l
      → value i l ≡ some e
      → P (i, e)
  unfolding value
  All-value P i [] a h = absurd (cc)
  All-value P i ((j, e) ∷ l) {e = e'} a h = elim (ℕ_discrete j i) [
    | yes p ↦ let q : ◌≡◌ {A = ℕ × E} (i, e') (j, e) = ground arith in rw q a.0
    | no p ↦ All-value P i l a.1 (ground arith)
  ]

  -- What a removal leaves.
  pub value-unlink_ne : (i j : ℕ) (l : List (ℕ × E)) → j ≢ i → value j (unlink i l) ≡ value j l
  unfolding value unlink
  value-unlink_ne i j [] h = refl
  value-unlink_ne i j ((k, e) ∷ l) h = ground (arith, value-unlink_ne i j l)

  pub value-unlink_self : (i : ℕ) (l : List (ℕ × E)) → Unique l → value i (unlink i l) ≡ none
  unfolding value unlink
  value-unlink_self i [] u = refl
  value-unlink_self i ((k, e) ∷ l) u = ground (arith, value-unlink_self i l)

  pub length-unlink :
      (i : ℕ) (l : List (ℕ × E)) (e : E) → value i l ≡ some e → suc (length (unlink i l)) ≡ length l
  unfolding value unlink
  length-unlink i [] v h = absurd (cc)
  length-unlink i ((k, e) ∷ l) v h = ground (arith, length-unlink i l v)

  pub All-unlink : (P : ℕ × E → Type 0) (i : ℕ) (l : List (ℕ × E)) → All P l → All P (unlink i l)
  unfolding unlink
  All-unlink P i [] a = tt
  All-unlink P i ((k, e) ∷ l) a = elim (Bool-cases (k == i)) [
    | inl p ↦ rw p a.1
    | inr p ↦ rw p (a.0, All-unlink P i l a.1)
  ]

  pub value-unlink-none :
      (i j : ℕ) (l : List (ℕ × E)) → value j l ≡ none → value j (unlink i l) ≡ none
  unfolding value unlink
  value-unlink-none i j [] h = refl
  value-unlink-none i j ((k, e) ∷ l) h = ground (arith, value-unlink-none i j l)

  pub Unique-unlink : (i : ℕ) (l : List (ℕ × E)) → Unique l → Unique (unlink i l)
  unfolding unlink
  Unique-unlink i [] u = tt
  Unique-unlink i ((k, e) ∷ l) u = elim (Bool-cases (k == i)) [
    | inl p ↦ rw p u.1
    | inr p ↦ rw p (value-unlink-none i k l u.0, Unique-unlink i l u.1)
  ]

  -- What a store through a pointer leaves.
  pub value-store :
      (i j : ℕ) (v : E) (l : List (ℕ × E)) (w : E)
      → value i l ≡ some w
      → value j (store i v l) ≡ (if i == j then some v else value j l)
  unfolding value store
  value-store i j v [] w h = absurd (cc)
  value-store i j v ((k, e) ∷ l) w h = ground (arith, value-store i j v l w)

  pub value-store-none :
      (i j : ℕ) (v : E) (l : List (ℕ × E)) → value j l ≡ none → value j (store i v l) ≡ none
  unfolding value store
  value-store-none i j v [] h = refl
  value-store-none i j v ((k, e) ∷ l) h = ground (arith, value-store-none i j v l)

  pub Unique-store : (i : ℕ) (v : E) (l : List (ℕ × E)) → Unique l → Unique (store i v l)
  unfolding store
  Unique-store i v [] u = tt
  Unique-store i v ((k, e) ∷ l) u = elim (Bool-cases (k == i)) [
    | inl p ↦ rw p u
    | inr p ↦ rw p (value-store-none i k v l u.0, Unique-store i v l u.1)
  ]

  pub length-store : (i : ℕ) (v : E) (l : List (ℕ × E)) → length (store i v l) ≡ length l
  unfolding store
  length-store i v [] = refl
  length-store i v ((k, e) ∷ l) = ground (arith, length-store i v l)

  pub All-store :
      (P : ℕ × E → Type 0) (i : ℕ) (v : E) (l : List (ℕ × E))
      → P (i, v)
      → All P l
      → All P (store i v l)
  unfolding store
  All-store P i v [] p a = tt
  All-store P i v ((k, e) ∷ l) p a = elim (ℕ_discrete k i) [
    | yes q ↦ rw (((==_iff k i).1 q), q) (p, a.1)
    | no q ↦ let r : (k == i) ≡ false = ground arith in rw r (a.0, All-store P i v l p a.1)
  ]

  -- The last element is one of the list, and only the empty list has none.
  pub value-back :
      (l : List (ℕ × E)) (i : ℕ) (e : E) → Unique l → back l ≡ some (i, e) → value i l ≡ some e
  unfolding value back
  value-back [] i e u h = absurd (cc)
  value-back ((k, d) ∷ []) i e u h = ground arith
  value-back ((k, d) ∷ y ∷ l) i e u h =
      let r : value i (y ∷ l) ≡ some e = value-back (y ∷ l) i e u.1 h in ground arith

  pub back-cons : (x : ℕ × E) (l : List (ℕ × E)) → (y : ℕ × E) × (back (x ∷ l) ≡ some y)
  unfolding back
  back-cons x [] = (x, refl)
  back-cons x (y ∷ l) = back-cons y l

  pub All-back :
      (P : ℕ × E → Type 0) (l : List (ℕ × E)) {x : ℕ × E} → All P l → back l ≡ some x → P x
  unfolding back
  All-back P [] a h = absurd (cc)
  All-back P (y ∷ []) {x} a h = let q : x ≡ y = cc in rw q a.0
  All-back P (y ∷ z ∷ l) a h = All-back P (z ∷ l) a.1 h

  -- `lru.MoveToFront(elem)`.
  pub move_to_front-some :
      (i : ℕ) (l : List (ℕ × E)) (e : E)
      → value i l ≡ some e
      → move_to_front i l ≡ (i, e) ∷ unlink i l
  unfolding move_to_front
  move_to_front-some i l e h = ground arith

  pub value-move_to_front :
      (i j : ℕ) (l : List (ℕ × E)) (e : E)
      → value i l ≡ some e
      → value j (move_to_front i l) ≡ value j l
  unfolding value
  value-move_to_front i j l e h = elim (ℕ_discrete i j) [
    | yes p ↦ rw (move_to_front-some i l e h) (ground arith)
    | no p ↦ rw (move_to_front-some i l e h) (ground (arith, value-unlink_ne i j l))
  ]

  pub All-ne : (i : ℕ) (l : List (ℕ × E)) → value i l ≡ none → All (λ x. x.0 ≢ i) l
  unfolding value
  All-ne i [] h = tt
  All-ne i ((k, e) ∷ l) h = (ground arith, All-ne i l (ground arith))

  pub All-unlink_ne : (i : ℕ) (l : List (ℕ × E)) → Unique l → All (λ x. x.0 ≢ i) (unlink i l)
  unfolding unlink
  All-unlink_ne i [] u = tt
  All-unlink_ne i ((k, e) ∷ l) u = elim (ℕ_discrete k i) [
    | yes p ↦
        let q : value i l ≡ none = ap (λ t. value t l) (sym p) ∙ u.0 in
        rw ((==_iff k i).1 p) (All-ne i l q)
    | no p ↦ let r : (k == i) ≡ false = ground arith in rw r (p, All-unlink_ne i l u.1)
  ]

  pub All-zip :
      (P Q R : ℕ × E → Type 0)
      → ((x : ℕ × E) → P x → Q x → R x)
      → (l : List (ℕ × E)) → All P l
      → All Q l
      → All R l
  All-zip P Q R f [] a b = tt
  All-zip P Q R f (x ∷ l) a b = (f x a.0 b.0, All-zip P Q R f l a.1 b.1)

  pub some_eq : {a b : E} → some a ≡ some b → a ≡ b
  some_eq h = cc
