-- ===== src/Etag/Trim.antt =====
-- Trimming a text takes white space from its ends, and all of it.
use rampardos.Prelude.{
  ℕ, ◌≤◌, ◌≡◌, ◌⊎◌, ◌↔◌, inl, inr, refl, sym, ap, ◌∙◌, true, false, List, [], ◌∷◌, ◌++◌, Bool-cases,
  arith,
}
use rampardos.Etag.{
  quote_, is_space, is_space_of_two, is_space_of_three, is_white, trim_left, trim_right, trim_space,
}

-- The code points of the property White_Space.
abbrev pub White : List ℕ → Type 0
White [] = ⊥
White (x ∷ []) = ((9 ≤ x) × (x ≤ 13)) ⊎ (x ≡ 32)
White (x ∷ y ∷ []) = (x ≡ 0xC2) × ((y ≡ 0x85) ⊎ (y ≡ 0xA0))
White (x ∷ y ∷ z ∷ []) =
    ((x ≡ 0xE1) × (y ≡ 0x9A) × (z ≡ 0x80))
    ⊎ ((x ≡ 0xE2) × (y ≡ 0x80) × (((0x80 ≤ z) × (z ≤ 0x8A)) ⊎ (z ≡ 0xA8) ⊎ (z ≡ 0xA9) ⊎ (z ≡ 0xAF)))
    ⊎ ((x ≡ 0xE2) × (y ≡ 0x81) × (z ≡ 0x9F))
    ⊎ ((x ≡ 0xE3) × (y ≡ 0x80) × (z ≡ 0x80))
White (x ∷ y ∷ z ∷ u ∷ l) = ⊥

pub data Blank : List ℕ → Type 0 where
  empty : Blank []
  white : {l : List ℕ} (w : List ℕ) → White w → Blank l → Blank (w ++ l)

is_white-White : (w : List ℕ) → is_white w ≡ true → White w
unfolding is_white is_space is_space_of_two is_space_of_three
is_white-White [] h = absurd (cc)
is_white-White (x ∷ []) h = ground arith
is_white-White (x ∷ y ∷ []) h = ground arith
is_white-White (x ∷ y ∷ z ∷ []) h = ground arith
is_white-White (x ∷ y ∷ z ∷ u ∷ l) h = absurd (cc)

one-White : (x : ℕ) → White (x ∷ []) → is_space x ≡ true
unfolding is_space
one-White x h = ground arith

two-White :
    (x y : ℕ)
    → White (x ∷ y ∷ [])
    → (is_space x ≡ false) × (is_space y ≡ false) × (is_space_of_two x y ≡ true)
unfolding is_space is_space_of_two
two-White x y h = ground arith

three-White :
    (x y z : ℕ)
    → White (x ∷ y ∷ z ∷ [])
    → (is_space x ≡ false)
      × (is_space z ≡ false)
      × (is_space_of_two x y ≡ false)
      × (is_space_of_two y z ≡ false)
      × (is_space_of_three x y z ≡ true)
unfolding is_space is_space_of_two is_space_of_three
three-White x y z h = ground arith

trim_left-one : (x : ℕ) (s : List ℕ) → is_space x ≡ true → trim_left (x ∷ s) ≡ trim_left s
unfolding trim_left
trim_left-one x [] h = rw h refl
trim_left-one x (y ∷ []) h = rw (h, trim_left) refl
trim_left-one x (y ∷ z ∷ l) h = rw (h, trim_left) refl

trim_left-two :
    (x y : ℕ) (s : List ℕ)
    → is_space x ≡ false
    → is_space_of_two x y ≡ true
    → trim_left (x ∷ y ∷ s) ≡ trim_left s
unfolding trim_left
trim_left-two x y [] h k = rw (h, k, trim_left) refl
trim_left-two x y (z ∷ l) h k = rw (h, k, trim_left) refl

trim_left-three :
    (x y z : ℕ) (s : List ℕ)
    → is_space x ≡ false
    → is_space_of_two x y ≡ false
    → is_space_of_three x y z ≡ true
    → trim_left (x ∷ y ∷ z ∷ s) ≡ trim_left s
unfolding trim_left
trim_left-three x y z s h k j = rw (h, k, j, trim_left) refl

trim_left-blank : (w s : List ℕ) → Blank w → trim_left (w ++ s) ≡ trim_left s
trim_left-blank _ s empty = refl
trim_left-blank _ s (white {l = l} [] h b) = absurd h
trim_left-blank _ s (white {l = l} (x ∷ []) h b) =
    trim_left-one x (l ++ s) (one-White x h) ∙ trim_left-blank l s b
trim_left-blank _ s (white {l = l} (x ∷ y ∷ []) h b) =
    let (p, q, r) = two-White x y h in trim_left-two x y (l ++ s) p r ∙ trim_left-blank l s b
trim_left-blank _ s (white {l = l} (x ∷ y ∷ z ∷ []) h b) =
    let (p, q, r, u, v) = three-White x y z h in
    trim_left-three x y z (l ++ s) p r v ∙ trim_left-blank l s b
trim_left-blank _ s (white {l = l} (x ∷ y ∷ z ∷ u ∷ w) h b) = absurd h

trim_left-quote : (s : List ℕ) → trim_left (quote_ ∷ s) ≡ quote_ ∷ s
unfolding trim_left is_space is_space_of_two is_space_of_three
trim_left-quote [] = refl
trim_left-quote (x ∷ []) = refl
trim_left-quote (x ∷ y ∷ l) = refl

trim_right-Blank : (w : List ℕ) → Blank w → trim_right w ≡ []
unfolding trim_right is_white
trim_right-Blank _ empty = refl
trim_right-Blank _ (white [] h b) = absurd h
trim_right-Blank _ (white {l = l} (x ∷ []) h b) = rw (trim_right-Blank l b, one-White x h) refl
trim_right-Blank _ (white {l = l} (x ∷ y ∷ []) h b) =
    let (p, q, r) = two-White x y h in rw (trim_right-Blank l b, q, r) refl
trim_right-Blank _ (white {l = l} (x ∷ y ∷ z ∷ []) h b) =
    let (p, q, r, u, v) = three-White x y z h in rw (trim_right-Blank l b, q, u, v) refl
trim_right-Blank _ (white (x ∷ y ∷ z ∷ u ∷ w) h b) = absurd h

trim_right-append : (s w : List ℕ) → Blank w → trim_right (s ++ w) ≡ trim_right s
unfolding trim_right
trim_right-append [] w b = trim_right-Blank w b
trim_right-append (x ∷ s) w b = rw (trim_right-append s w b) refl

not_white : (l : List ℕ) → is_white (l ++ quote_ ∷ []) ≡ false
unfolding is_white is_space is_space_of_two is_space_of_three
not_white [] = refl
not_white (x ∷ []) = ground arith
not_white (x ∷ y ∷ []) = ground arith
not_white (x ∷ y ∷ z ∷ []) = refl
not_white (x ∷ y ∷ z ∷ u ∷ l) = refl

trim_right-quote : (l : List ℕ) → trim_right (l ++ quote_ ∷ []) ≡ l ++ quote_ ∷ []
unfolding trim_right is_white is_space
trim_right-quote [] = refl
trim_right-quote (x ∷ l) = rw (trim_right-quote l, not_white (x ∷ l)) refl

-- A tag in quotes.
abbrev pub quoted : List ℕ → List ℕ
quoted m = quote_ ∷ m ++ quote_ ∷ []

abbrev pub Padded : List ℕ → List ℕ → Type 0
Padded etag t =
    (before : List ℕ) × (after : List ℕ) × Blank before
    × Blank after
    × (t ≡ before ++ (etag ++ after))

split_left : (t : List ℕ) → (before : List ℕ) × Blank before × (t ≡ before ++ trim_left t)
unfolding trim_left is_white
split_left [] = ([], empty, refl)
split_left (x ∷ []) = elim (Bool-cases (is_space x)) [
  | inl a ↦ (x ∷ [], white (x ∷ []) (is_white-White (x ∷ []) a) empty, rw a refl)
  | inr a ↦ ([], empty, rw a refl)
]
split_left (x ∷ y ∷ []) = elim (Bool-cases (is_space x)) [
  | inl a ↦
      let (before, b, e) = split_left (y ∷ []) in
      (
        x ∷ before,
        white (x ∷ []) (is_white-White (x ∷ []) a) b,
        ap (◌∷◌ x) e ∙ ap (λ s. x ∷ before ++ s) (sym (trim_left-one x (y ∷ []) a)),
      )
  | inr a ↦ elim (Bool-cases (is_space_of_two x y)) [
    | inl c ↦ (
      x ∷ y ∷ [],
      white (x ∷ y ∷ []) (is_white-White (x ∷ y ∷ []) c) empty,
      ap (λ s. x ∷ y ∷ s) (sym (trim_left-two x y [] a c)),
    )
    | inr c ↦ ([], empty, rw (a, c, trim_left) refl)
  ]
]
split_left (x ∷ y ∷ z ∷ l) = elim (Bool-cases (is_space x)) [
  | inl a ↦
      let (before, b, e) = split_left (y ∷ z ∷ l) in
      (
        x ∷ before,
        white (x ∷ []) (is_white-White (x ∷ []) a) b,
        ap (◌∷◌ x) e ∙ ap (λ s. x ∷ before ++ s) (sym (trim_left-one x (y ∷ z ∷ l) a)),
      )
  | inr a ↦ elim (Bool-cases (is_space_of_two x y)) [
    | inl c ↦
        let (before, b, e) = split_left (z ∷ l) in
        (
          x ∷ y ∷ before,
          white (x ∷ y ∷ []) (is_white-White (x ∷ y ∷ []) c) b,
          ap (λ s. x ∷ y ∷ s) e
              ∙ ap (λ s. x ∷ y ∷ before ++ s) (sym (trim_left-two x y (z ∷ l) a c)),
        )
    | inr c ↦ elim (Bool-cases (is_space_of_three x y z)) [
      | inl f ↦
          let (before, b, e) = split_left l in
          (
            x ∷ y ∷ z ∷ before,
            white (x ∷ y ∷ z ∷ []) (is_white-White (x ∷ y ∷ z ∷ []) f) b,
            ap (λ s. x ∷ y ∷ z ∷ s) e
                ∙ ap (λ s. x ∷ y ∷ z ∷ before ++ s) (sym (trim_left-three x y z l a c f)),
          )
      | inr f ↦ ([], empty, rw (a, c, f, trim_left) refl)
    ]
  ]
]

split_right : (t : List ℕ) → (after : List ℕ) × Blank after × (t ≡ trim_right t ++ after)
unfolding trim_right
split_right [] = ([], empty, refl)
split_right (x ∷ l) =
    let (after, b, e) = split_right l in
    elim (Bool-cases (is_white (x ∷ trim_right l))) [
      | inl y ↦ (
        (x ∷ trim_right l) ++ after,
        white (x ∷ trim_right l) (is_white-White (x ∷ trim_right l) y) b,
        rw y (ap (◌∷◌ x) e),
      )
      | inr n ↦ (after, b, rw n (ap (◌∷◌ x) e))
    ]

Padded-trim : (m t : List ℕ) → Padded (quoted m) t → trim_space t ≡ quoted m
Padded-trim m t (before, after, b, a, e) =
    ap trim_space e
    ∙ ap trim_right
        (trim_left-blank before (quoted m ++ after) b ∙ trim_left-quote (m ++ quote_ ∷ [] ++ after))
    ∙ trim_right-append (quoted m) after a
    ∙ trim_right-quote (quote_ ∷ m)

trim-Padded : (etag t : List ℕ) → trim_space t ≡ etag → Padded etag t
trim-Padded etag t h =
    let (before, b, e) = split_left t in
    let (after, a, f) = split_right (trim_left t) in
    (before, after, b, a, e ∙ ap (λ s. before ++ s) (f ∙ ap (λ s. s ++ after) h))

-- What is left of a text is a tag in quotes exactly when the text is that tag with white space
-- around it.
pub trim_space-Padded : (m t : List ℕ) → (trim_space t ≡ quoted m) ↔ Padded (quoted m) t
trim_space-Padded m t = (trim-Padded (quoted m) t, Padded-trim m t)
