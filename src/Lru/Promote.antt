-- ===== src/Lru/Promote.antt =====
-- What a hit does: the entry is moved to the front, with its value or with a new one.
use rampardos.Prelude.{
  ℕ, zero, suc, ◌≡◌, inl, inr, refl, sym, ap, ◌∙◌, some, none, List, [], ◌∷◌, length, take,
  Option-cases, ==_iff, arith,
}
use rampardos.Lru.{Lru, value, unlink, store, move_to_front}
use rampardos.Lru.Agree.{Agree, move_to_front-Agree, store-Agree}
use rampardos.Lru.Items.{value-store, move_to_front-some, length-unlink, some_eq}
use rampardos.Lru.View.{view, items, find, erase, find_of_some, items-unlink, length-items}

unlink-store : {E : Type 0} (i : ℕ) (v : E) (l : List (ℕ × E)) → unlink i (store i v l) ≡ unlink i l
unfolding unlink store
unlink-store i v [] = refl
unlink-store i v ((k, e) ∷ l) = ground (arith, unlink-store i v l)

module _ {K E : Type 0} (dec : Discrete K) (key : E → K) where
  -- The entry with the key, if any, moves to the front.
  abbrev pub promote : K → List E → List E
  promote k l = elim (find dec key k l) [ none ↦ l | some e ↦ e ∷ erase dec key k l ]

  -- The first entries of the list with a new one in front and no other with its key.
  abbrev pub admit : ℕ → E → List E → List E
  admit m e l = take m (e ∷ erase dec key (key e) l)

  pub find-key : (k : K) (l : List E) (e : E) → find dec key k l ≡ some e → key e ≡ k
  unfolding find
  find-key k [] e h = absurd (cc)
  find-key k (d ∷ l) e h = elim (dec (key d) k) [
    | yes p ↦ let q : d ≡ e = some_eq (ground arith) in sym (ap key q) ∙ p
    | no p ↦ find-key k l e (ground arith)
  ]

  pub erase_of_none : (k : K) (l : List E) → find dec key k l ≡ none → erase dec key k l ≡ l
  unfolding find erase
  erase_of_none k [] h = refl
  erase_of_none k (d ∷ l) h = ground (arith, erase_of_none k l)

  module _ (c : Lru K E) (k : K) (i : ℕ) (a : Agree dec key c) (h : c.entries k ≡ some i) where
    -- The element that the map points to.
    pub present :
        (e : E) × (value i c.lru ≡ some e) × (key e ≡ k) × (find dec key k (view c) ≡ some e)
    present = let (e, v, q) = a.pointed k i h in (e, v, q, find_of_some dec key c k a i h ∙ v)

    pub view-move_to_front :
        (e : E)
        → value i c.lru ≡ some e
        → items (move_to_front i c.lru) ≡ e ∷ erase dec key k (view c)
    view-move_to_front e v =
        ap items (move_to_front-some i c.lru e v) ∙ ap (◌∷◌ e) (items-unlink dec key c k a i h)

    pub view-promote : items (move_to_front i c.lru) ≡ promote k (view c)
    view-promote = let (e, v, q, f) = present in view-move_to_front e v ∙ rw (f, promote)

    pub length-erase : suc (length (erase dec key k (view c))) ≡ length (view c)
    length-erase =
        let (e, v, q, f) = present in
        omega (
          arith,
          length-unlink i c.lru e v,
          length-items c.lru,
          length-items (unlink i c.lru),
          ap length (items-unlink dec key c k a i h),
        )

    -- A hit keeps the map and the list in agreement.
    pub hit-Agree : Agree dec key (record c { lru = move_to_front i c.lru })
    hit-Agree = let (e, v, q, f) = present in move_to_front-Agree dec key c i e a v

    -- So does an update of the entry's value.
    pub replace-Agree :
        (w : E)
        → key w ≡ k
        → Agree dec key (record c { lru = move_to_front i (store i w c.lru) })
          × (items (move_to_front i (store i w c.lru)) ≡ w ∷ erase dec key k (view c))
    replace-Agree w s =
        let (e, v, q, f) = present in
        let stored : value i (store i w c.lru) ≡ some w =
          value-store i i w c.lru e v ∙ rw ((==_iff i i).1 refl) in
        (
          move_to_front-Agree dec key (record c { lru = store i w c.lru }) i w
              (store-Agree dec key c i e w a v (s ∙ sym q)) stored,
          ap items (move_to_front-some i (store i w c.lru) w stored)
              ∙ ap (◌∷◌ w) (ap items (unlink-store i w c.lru) ∙ items-unlink dec key c k a i h),
        )

  -- A key that no entry has is not in the map either.
  pub absent_of_find :
      (c : Lru K E) (k : K) → Agree dec key c → find dec key k (view c) ≡ none → c.entries k ≡ none
  absent_of_find c k a h = elim (Option-cases (c.entries k)) [
    | inl p ↦ p
    | inr (i, p) ↦ let (e, v, q, f) = present c k i a p in absurd (cc)
  ]

  -- A key that no entry has is the key of none of the first entries.
  pub find-take_of_none :
      (k : K) (m : ℕ) (l : List E) → find dec key k l ≡ none → find dec key k (take m l) ≡ none
  unfolding find
  find-take_of_none k zero l h = refl
  find-take_of_none k (suc m) [] h = refl
  find-take_of_none k (suc m) (e ∷ l) h = ground (arith, find-take_of_none k m l)
