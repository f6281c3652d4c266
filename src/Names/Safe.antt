-- ===== src/Names/Safe.antt =====
-- A name that is accepted is one element of a path, and a plain name is accepted as it is.
use rampardos.Prelude.{ℕ, ◌==◌, ◌≡◌, refl, sym, ap, ◌∙◌, false, List, [], ◌∷◌, ◌++◌, arith}
use mathlib.Core.List.{append_assoc, append-nil}
use rampardos.Names.{
  slash, dot, same, contains_byte, contains_dots, rooted, elements, reduce, join, clean, name,
  sanitize_name,
}

-- One element of a path that is neither empty nor a way to another directory.
abbrev pub Plain : List ℕ → Type 0
Plain n =
    (same n [] ≡ false)
    × (same n (dot ∷ []) ≡ false)
    × (contains_byte slash n ≡ false)
    × (contains_dots n ≡ false)

elements_plain :
    (read n : List ℕ) → contains_byte slash n ≡ false → elements read n ≡ (read ++ n) ∷ []
unfolding elements contains_byte
elements_plain read [] h = ap (λ l. l ∷ []) (sym (append-nil read))
elements_plain read (x ∷ n) h =
    let x_plain : (x == slash) ≡ false = ground (arith, h) in
    let n_plain : contains_byte slash n ≡ false = ground (arith, h) in
    rw x_plain
      (elements_plain (read ++ x ∷ []) n n_plain ∙ ap (λ l. l ∷ []) (append_assoc read (x ∷ []) n))

plain_not_rooted : (n : List ℕ) → contains_byte slash n ≡ false → rooted n ≡ false
unfolding contains_byte
plain_not_rooted [] h = refl
plain_not_rooted (x ∷ n) h = ground (arith, h)

not_dots : (n : List ℕ) → contains_dots n ≡ false → same n (dot ∷ dot ∷ []) ≡ false
unfolding contains_dots same
not_dots [] h = refl
not_dots (x ∷ []) h = ground (arith, h)
not_dots (x ∷ y ∷ n) h = ground (arith, h)

clean-Plain : (n : List ℕ) → Plain n → clean n ≡ n
unfolding clean reduce join
clean-Plain n (e, d, s, t) =
    rw (elements_plain [] n s, plain_not_rooted n s, e, d, not_dots n t, e) refl

accepted : (given n : List ℕ) → sanitize_name given ≡ name n → Plain n × (n ≡ clean given)
unfolding sanitize_name
accepted given n h = ground (arith, h)

kept : (given : List ℕ) → Plain given → sanitize_name given ≡ name given
unfolding sanitize_name
kept given p = rw (clean-Plain given p) (ground (arith, p, plain_not_rooted given p.2))

-- A name is accepted only as its cleaned form, which is not empty, not a dot, and has no separator
-- and no two dots in a row; a name that is so already is accepted as it is.
pub sanitize_name-Plain :
    (given n : List ℕ)
    → ((sanitize_name given ≡ name n) → Plain n × (n ≡ clean given))
      × (Plain given → sanitize_name given ≡ name given)
sanitize_name-Plain given n = (λ h. accepted given n h, kept given)
