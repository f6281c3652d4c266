-- ===== src/Leaf/Nesting.antt =====
-- The templates that leaf_to_jet.go reads as one chain: directives are nested, and the brackets of
-- conditions are balanced.
use rampardos.Prelude.{
  not, ◌||◌, ◌&&◌, ℕ, zero, suc, ◌+◌, ◌-◌, ◌==◌, if◌then◌else◌, ◌≡◌, refl, ap, ◌∙◌, Bool, true,
  false, not, ◌&&◌, some, List, [], ◌∷◌, ◌++◌, All, length, drop, arith, ℤ, pos,
}
use rampardos.Leaf.{
  is_text, directive, if_open, endif, elseif_open, else_colon, close_colon, has_prefix,
  condition_loop, find_condition_end,
}

-- A byte that begins no directive of a block; within a block, `#elseif(` and `#else:` are text.
unfoldable pub inert : ℕ → List ℕ → Bool
inert d s = not (
    has_prefix s if_open
    || has_prefix s endif
    || (d == 0) && (has_prefix s elseif_open || has_prefix s else_colon))

-- A template which leads from a depth of open `#if(` blocks back to no open block; at depth 0 it
-- has no `#elseif(` and no `#else:`.
pub data Nested : ℕ → List ℕ → Type 0 where
  stop : Nested 0 []
  text : {d : ℕ} {s : List ℕ} (c : ℕ) → inert d (c ∷ s) ≡ true → Nested d s → Nested d (c ∷ s)
  enter : {d : ℕ} {s : List ℕ} → Nested (suc d) s → Nested d (if_open ++ s)
  leave : {d : ℕ} {s : List ℕ} → Nested d s → Nested (suc d) (endif ++ s)

-- What may follow a template: nothing, or a directive.
abbrev pub Fresh : List ℕ → Type 0
Fresh [] = Unit
Fresh (c ∷ s) = c ≡ b'#'

abbrev pub NoHash : List ℕ → Type 0
NoHash = All (λ x. (b'#' == x) ≡ false)

pub has_prefix-append :
    (s r l : List ℕ) → Fresh r → NoHash l → has_prefix (s ++ r) l ≡ has_prefix s l
has_prefix-append [] [] l f n = refl
has_prefix-append [] (c ∷ r) [] f n = refl
has_prefix-append [] (c ∷ r) (x ∷ l) f (h, n) = rw (f, h) refl
has_prefix-append (c ∷ s) r [] f n = refl
has_prefix-append (c ∷ s) r (x ∷ l) f (h, n) = rw (has_prefix-append s r l f n) refl

directive-append :
    (depth : ℤ) (c : ℕ) (s r : List ℕ)
    → Fresh r
    → directive depth (c ∷ (s ++ r)) ≡ directive depth (c ∷ s)
unfolding directive
directive-append depth c s r f =
    rw
      (
        has_prefix-append s r (drop 1 if_open) f (refl, (refl, (refl, tt))),
        has_prefix-append s r (drop 1 endif) f (refl, (refl, (refl, (refl, (refl, tt))))),
        has_prefix-append s r (drop 1 elseif_open) f
            (refl, (refl, (refl, (refl, (refl, (refl, (refl, tt))))))),
        has_prefix-append s r (drop 1 else_colon) f (refl, (refl, (refl, (refl, (refl, tt))))),
      )
      refl

directive_text : (d : ℕ) (s : List ℕ) → inert d s ≡ true → directive (pos d) s ≡ is_text
unfolding inert directive
directive_text d s h = ground arith

pub directive-inert :
    (d c : ℕ) (s r : List ℕ)
    → Fresh r
    → inert d (c ∷ s) ≡ true
    → directive (pos d) (c ∷ (s ++ r)) ≡ is_text
directive-inert d c s r f h = directive-append (pos d) c s r f ∙ directive_text d (c ∷ s) h

-- The depth of brackets after a byte.
abbrev level : ℕ → ℕ → ℕ
level c d = if c == b'(' then suc d else if c == b')' then d - 1 else d

unfoldable pub balanced : ℕ → List ℕ → Bool
balanced d [] = d == 0
balanced d (c ∷ s) = let on = balanced (level c d) s in if c == b')' then not (d == 0) && on else on

condition_loop-balanced :
    (i d : ℕ) (s r : List ℕ)
    → balanced d s ≡ true
    → condition_loop i (pos (suc d)) (s ++ (close_colon ++ r)) ≡ some (i + length s + 2)
unfolding balanced condition_loop
condition_loop-balanced i zero [] r h = ap some (omega arith)
condition_loop-balanced i (suc d) [] r h = ground arith
condition_loop-balanced i zero (c ∷ s) r h =
    ground (arith, condition_loop-balanced (suc i) 1 s r, condition_loop-balanced (suc i) 0 s r)
condition_loop-balanced i (suc d) (c ∷ s) r h = ground (
  arith,
  condition_loop-balanced (suc i) (suc (suc d)) s r,
  condition_loop-balanced (suc i) (suc d) s r,
  condition_loop-balanced (suc i) d s r,
)

pub find_condition_end-balanced :
    (body s r : List ℕ) (i : ℕ)
    → drop i body ≡ b'(' ∷ (s ++ (close_colon ++ r))
    → balanced 0 s ≡ true
    → find_condition_end body i ≡ some (i + length s + 3)
unfolding find_condition_end condition_loop
find_condition_end-balanced body s r i at h =
    rw at (condition_loop-balanced (suc i) 0 s r h ∙ ap some (omega arith))
