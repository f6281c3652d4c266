-- ===== src/StaticMap/Tiles.antt =====
-- rampardos/internal/handlers/static_map.go: generateBaseStaticMapFromTiles, as far as it chooses
-- the tiles and the place of the map among them, and the crop of utils/image_utils_native.go.
-- The floats of the source hold these quotients well enough that rounding up gives the same.
use rampardos.Prelude.{
  ℕ, zero, suc, ◌+◌, ◌-◌, ◌*◌, ◌/◌, ◌≤◌, ◌<◌, ◌==◌, leb, if◌then◌else◌, ◌↔◌, inl, inr, Bool, true,
  false, Bool-cases, leb→le, arith,
}

abbrev pub tile_pixels : Bool → ℕ
tile_pixels true = 256
tile_pixels false = 512

-- `if scale == 0 { scale = 1 }`
abbrev pub used_scale : ℕ → ℕ
used_scale s = if s == 0 then 1 else s

-- `int(math.Ceil(size / tilePixels / scale)) + 1`
pub tiles_across : Bool → ℕ → ℕ → ℕ
tiles_across external scale size =
    let unit = tile_pixels external * used_scale scale in (size + unit - 1) / unit + 1

-- The loop from `-tiles/2` to `tiles/2`.
pub side : Bool → ℕ → ℕ → ℕ
side external scale size = 2 * (tiles_across external scale size / 2) + 1

-- `int(xDelta)*deltaScale + (tilesX/2)*tilePixels`
pub offset : Bool → ℕ → ℕ → ℕ → ℕ
offset external scale size delta =
    delta * (tile_pixels external / 256)
    + tiles_across external scale size / 2 * tile_pixels external

-- The crop of `size` pixels that is centred at the offset lies within the tiles; where the tiles
-- are larger by the scale, so are the crop and the offset.
abbrev pub Covered : Bool → ℕ → ℕ → ℕ → Type 0
Covered external scale size delta =
    (size / 2 ≤ offset external scale size delta)
    × (offset external scale size delta - size / 2 + size
        ≤ side external scale size * tile_pixels external)

-- At scale 1 the tiles cover the map, wherever in its tile the centre lies.
pub scale_one-Covered :
    (external : Bool) (scale size delta : ℕ)
    → scale ≤ 1
    → delta < 256
    → Covered external scale size delta
unfolding offset side tiles_across
scale_one-Covered true zero size delta h d = (omega arith, omega arith)
scale_one-Covered true (suc zero) size delta h d = (omega arith, omega arith)
scale_one-Covered false zero size delta h d = (omega arith, omega arith)
scale_one-Covered false (suc zero) size delta h d = (omega arith, omega arith)
scale_one-Covered external (suc (suc scale)) size delta h d = absurd (omega arith)

-- At a scale from 2 to 4 the tiles of an external style are narrower than a map of 1536 pixels or more.
pub scale_more-narrow :
    (scale size : ℕ)
    → 2 ≤ scale
    → scale ≤ 4
    → 1536 ≤ size
    → side true scale size * tile_pixels true < size
unfolding side tiles_across
scale_more-narrow zero size l u h = absurd (omega arith)
scale_more-narrow (suc zero) size l u h = absurd (omega arith)
scale_more-narrow (suc (suc zero)) size l u h = omega arith
scale_more-narrow (suc (suc (suc zero))) size l u h = omega arith
scale_more-narrow (suc (suc (suc (suc zero)))) size l u h = omega arith
scale_more-narrow (suc (suc (suc (suc (suc n))))) size l u h = absurd (omega arith)

-- For a map of at least 1536 pixels at a scale of at most 4, wherever in its tile the centre lies,
-- the tiles of an external style cover the part that is cut out exactly at the scale 1, which a
-- scale of 0 stands for.
pub tiles-Covered :
    (scale size delta : ℕ)
    → scale ≤ 4
    → 1536 ≤ size
    → delta < 256
    → Covered true scale size delta ↔ (scale ≤ 1)
tiles-Covered scale size delta u h d = (
  λ (a, b). elim (Bool-cases (leb scale 1)) [
    | inl one ↦ leb→le scale 1 one
    | inr more ↦ absurd (omega (arith, a, b, scale_more-narrow scale size (ground arith) u h))
  ],
  λ one. scale_one-Covered true scale size delta one d,
)
