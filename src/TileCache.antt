-- ===== src/TileCache.antt =====
-- rampardos/internal/services/tile_image_cache.go: the LRU of decoded tile images. Keys (cache
-- paths) are any type with decidable equality, images any type.
use rampardos.Prelude.{
  ℕ, if◌then◌else◌, Option, some, none, List, map, ℤ, exceeds, reaches, not_positive,
}
use mathlib.Core.Option
use rampardos.Lru.{Lru, empty, value, store, move_to_front, push}
use rampardos.Lru.Evict.{evict, shrink}
pub mod Refine
pub mod Trace

pub record TileImageEntry (K Img : Type 0) : Type 0 where
  pub key : K
  pub img : Img

pub record TileImageCache (K Img : Type 0) : Type 0 where
  pub core : Lru K (TileImageEntry K Img)
  pub max_size : ℤ

-- What a lookup reports to the metrics; a disabled cache reports nothing.
pub data Metric : Type 0 where
  hit miss : Metric

unfoldable pub new_tile_image_cache : {K Img : Type 0} → ℤ → TileImageCache K Img
unfolding empty
new_tile_image_cache size = record { core = empty; max_size = size }

module _ {K Img : Type 0} where
  -- `elem.Value.(*tileImageEntry).img = img; lru.MoveToFront(elem)`
  unfoldable pub replace :
      ℕ → Img → List (ℕ × TileImageEntry K Img) → List (ℕ × TileImageEntry K Img)
  unfolding value store move_to_front
  replace i img l = elim (value i l) [
    | none ↦ l
    | some e ↦ move_to_front i (store i (record e { img = img }) l)
  ]

module _ {K Img : Type 0} (dec : Discrete K) where
  abbrev pub evict_oldest_locked : Lru K (TileImageEntry K Img) → Lru K (TileImageEntry K Img)
  evict_oldest_locked c = evict dec (λ e. e.key) c

  unfoldable pub get : K → TileImageCache K Img → TileImageCache K Img × Option Img × Option Metric
  get k c = if not_positive c.max_size then (c, none, none) else elim (c.core.entries k) [
    | none ↦ (c, none, some miss)
    | some i ↦ (
      record c { core = record (c.core) { lru = move_to_front i c.core.lru } },
      Option.map (λ e. e.img) (value i c.core.lru),
      some hit,
    )
  ]

  -- The eviction loops take fuel; `none` means that the loop has not ended.
  unfoldable pub add : ℕ → K → Img → TileImageCache K Img → Option (TileImageCache K Img)
  add fuel k img c = if not_positive c.max_size then some c else elim (c.core.entries k) [
    | some i ↦ some (record c { core = record (c.core) { lru = replace i img c.core.lru } })
    | none ↦
        Option.map (λ r. record c { core = push dec k (record { key = k; img = img }) r })
          (shrink evict_oldest_locked fuel (λ n. reaches n c.max_size) c.core)
  ]

  unfoldable pub set_size : ℕ → ℤ → TileImageCache K Img → Option (TileImageCache K Img)
  set_size fuel size c =
      Option.map (λ r. record { core = r; max_size = size })
        (shrink evict_oldest_locked fuel (λ n. exceeds n size) c.core)
