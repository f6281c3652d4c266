-- ===== src/NodePool/Keys.antt =====
-- The key of a pool gives its style and scale back.
use rampardos.Prelude.{
  ℕ, ◌<◌, ◌==◌, ltb, leb, if◌then◌else◌, ◌≡◌, ◌⊎◌, inl, inr, refl, Bool, true, false, ◌||◌, some,
  none, List, [], ◌∷◌, ◌++◌, Bool-cases, arith, ℤ, pos,
}
use rampardos.NodePool.{at, format_uint, pool_key, split_last, read_digits, atoi, parse_pool_key}

abbrev pub has_at : List ℕ → Bool
has_at [] = false
has_at (x ∷ l) = (x == at) || has_at l

split_last-none : (l : List ℕ) → has_at l ≡ false → split_last l ≡ none
unfolding split_last
split_last-none [] h = refl
split_last-none (x ∷ l) h =
    let x_plain : (x == at) ≡ false = ground (arith, h) in
    let l_plain : has_at l ≡ false = ground (arith, h) in
    rw (split_last-none l l_plain, x_plain) refl

split_last-at : (l m : List ℕ) → has_at m ≡ false → split_last (l ++ at ∷ m) ≡ some (l, m)
unfolding split_last
split_last-at [] m h = rw (split_last-none m h) refl
split_last-at (x ∷ l) m h = rw (split_last-at l m h) refl

format_uint-plain : (n : ℕ) → n < 256 → has_at (format_uint n) ≡ false
unfolding format_uint
format_uint-plain n h = ground arith

pub atoi-format_uint : (n : ℕ) → n < 256 → atoi (format_uint n) ≡ some (pos n)
unfolding format_uint atoi read_digits
atoi-format_uint n h = ground arith

parse_none : (key : List ℕ) → split_last key ≡ none → parse_pool_key key ≡ (key, pos 1)
unfolding parse_pool_key
parse_none key h = rw (h, parse_pool_key) refl

parse_some :
    (key before after : List ℕ) (r : ℤ)
    → split_last key ≡ some (before, after)
    → atoi after ≡ some r
    → parse_pool_key key ≡ (before, r)
unfolding parse_pool_key
parse_some key before after r h a = rw (h, parse_pool_key, a) refl

-- The key of a style and a scale below 256 gives both back, if the scale is over 1 or the style has
-- no at sign; a scale of 0 comes back as 1.
pub parse_pool_key-pool_key :
    (style_id : List ℕ) (scale : ℕ)
    → scale < 256
    → (ltb 1 scale ≡ true) ⊎ (has_at style_id ≡ false)
    → parse_pool_key (pool_key style_id scale) ≡ (style_id, pos (if leb scale 1 then 1 else scale))
unfolding pool_key
parse_pool_key-pool_key style_id scale h c = elim (Bool-cases (leb scale 1)) [
  | inl l ↦ elim c [
    | inl big ↦ absurd (ground (arith, big, l))
    | inr plain ↦ rw l (parse_none style_id (split_last-none style_id plain))
  ]
  | inr l ↦ rw l (
      parse_some _ style_id (format_uint scale) (pos scale)
        (split_last-at style_id (format_uint scale) (format_uint-plain scale h))
        (atoi-format_uint scale h))
]

-- At the scale 1, the key of a style whose name is another name, an at sign and a scale from 2 to
-- 255 is read as that other style at that scale.
pub parse_pool_key-mistaken :
    (style_id : List ℕ) (scale : ℕ)
    → 1 < scale
    → scale < 256
    → let style = style_id ++ at ∷ format_uint scale in
      parse_pool_key (pool_key style 1) ≡ (style_id, pos scale)
unfolding pool_key
parse_pool_key-mistaken style_id scale big small =
    parse_some (style_id ++ at ∷ format_uint scale) style_id (format_uint scale) (pos scale)
      (split_last-at style_id (format_uint scale) (format_uint-plain scale small))
      (atoi-format_uint scale small)
