-- ===== src/Serving/Accept.antt =====
-- Which requests handleRequest takes on.
use rampardos.Prelude.{
  ℕ, ◌*◌, ◌≤◌, ◌≡◌, ◌≢◌, ◌⊎◌, ◌↔◌, refl, true, false, none, List, [], ◌∷◌, All, arith, pos, negsuc,
}
use rampardos.StaticMap.{StaticMap}
use rampardos.Serving.{
  Float64, nan, infinite, finite, zoom_rejected, is_style_byte, all_style_bytes, is_empty,
  matches_style, validate,
}

abbrev pub StyleByte : ℕ → Type 0
StyleByte b =
    ((b'A' ≤ b) × (b ≤ b'Z'))
    ⊎ ((b'a' ≤ b) × (b ≤ b'z'))
    ⊎ ((b'0' ≤ b) × (b ≤ b'9'))
    ⊎ (b ≡ b'_')
    ⊎ (b ≡ b'-')

-- The zoom is a number from 1 to 22, in units of the least float.
abbrev pub ZoomIn : ℕ → Float64 → Type 0
ZoomIn one z = (n : ℕ) × (z ≡ finite (pos n)) × (one ≤ n) × (n ≤ 22 * one)

abbrev pub Acceptable : {M P C : Type 0} → ℕ → StaticMap Float64 M P C → Type 0
Acceptable one s =
    ZoomIn one s.zoom
    × All StyleByte s.style
    × (s.style ≢ [])
    × (1 ≤ s.width)
    × (s.width ≤ 4096)
    × (1 ≤ s.height)
    × (s.height ≤ 4096)
    × (s.scale ≤ 4)

zoom-In : (one : ℕ) (z : Float64) → zoom_rejected one z ≡ false → ZoomIn one z
unfolding zoom_rejected
zoom-In one nan h = absurd (cc)
zoom-In one (infinite b) h = absurd (cc)
zoom-In one (finite (pos n)) h = (n, refl, ground arith, ground arith)
zoom-In one (finite (negsuc n)) h = absurd (cc)

In-zoom : (one : ℕ) (z : Float64) → ZoomIn one z → zoom_rejected one z ≡ false
unfolding zoom_rejected
In-zoom one z (n, e, l, u) = rw e (ground arith)

style-StyleByte : (b : ℕ) → is_style_byte b ≡ true → StyleByte b
unfolding is_style_byte
style-StyleByte b h = ground arith

StyleByte-style : (b : ℕ) → StyleByte b → is_style_byte b ≡ true
unfolding is_style_byte
StyleByte-style b h = ground arith

style-All : (l : List ℕ) → all_style_bytes l ≡ true → All StyleByte l
unfolding all_style_bytes
style-All [] h = tt
style-All (b ∷ l) h = (style-StyleByte b (ground arith), style-All l (ground arith))

All-style : (l : List ℕ) → All StyleByte l → all_style_bytes l ≡ true
unfolding all_style_bytes
All-style [] a = refl
All-style (b ∷ l) a = rw (StyleByte-style b a.0, All-style l a.1) refl

-- The tests, one by one.
abbrev Passes : {M P C : Type 0} → ℕ → StaticMap Float64 M P C → Type 0
Passes one s =
    (zoom_rejected one s.zoom ≡ false)
    × (all_style_bytes s.style ≡ true)
    × (is_empty s.style ≡ false)
    × (1 ≤ s.width)
    × (s.width ≤ 4096)
    × (1 ≤ s.height)
    × (s.height ≤ 4096)
    × (s.scale ≤ 4)

validate-Passes :
    {M P C : Type 0} (one : ℕ) (s : StaticMap Float64 M P C) → validate one s ≡ none → Passes one s
unfolding validate matches_style
validate-Passes one s h = (
  ground arith,
  ground arith,
  ground arith,
  ground arith,
  ground arith,
  ground arith,
  ground arith,
  ground arith,
)

Passes-validate :
    {M P C : Type 0} (one : ℕ) (s : StaticMap Float64 M P C) → Passes one s → validate one s ≡ none
unfolding validate matches_style
Passes-validate one s h = ground arith

is_empty-false : (l : List ℕ) → is_empty l ≡ false → l ≢ []
unfolding is_empty
is_empty-false [] h e = cc
is_empty-false (b ∷ l) h e = cc

not-is_empty : (l : List ℕ) → l ≢ [] → is_empty l ≡ false
unfolding is_empty
not-is_empty [] h = absurd (h refl)
not-is_empty (b ∷ l) h = refl

-- A request passes the checks exactly when its zoom is a number from 1 to 22, its style is not
-- empty and consists of letters, digits, underscores and dashes, its width and height are from 1 to
-- 4096, and its scale is at most 4.
pub validate-Acceptable :
    {M P C : Type 0} (one : ℕ) (s : StaticMap Float64 M P C)
    → (validate one s ≡ none) ↔ Acceptable one s
validate-Acceptable one s = (
  λ h.
      let (z, a, e, w, w', v, v', c) = validate-Passes one s h in
      (zoom-In one s.zoom z, style-All s.style a, is_empty-false s.style e, w, w', v, v', c),
  λ (z, a, e, w, w', v, v', c).
      Passes-validate one s
        (In-zoom one s.zoom z, All-style s.style a, not-is_empty s.style e, w, w', v, v', c),
)
