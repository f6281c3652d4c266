-- ===== src/MarkerCache.antt =====
-- rampardos/internal/services/cache_index.go: the LRU of resized marker images. The key is any type
-- with decidable equality.
use rampardos.Prelude.{
  ℕ, if◌then◌else◌, Option, some, none, List, map, length, ℤ, pos, exceeds, reaches,
}
use mathlib.Core.Option
use rampardos.Lru.{Lru, empty, value, store, move_to_front, push}
use rampardos.Lru.Evict.{evict, shrink}
use rampardos.TileCache.{Metric, hit, miss}
pub mod Refine

pub record MarkerImageEntry (K Img : Type 0) : Type 0 where
  pub key : K
  pub image : Img

pub record CacheIndex (K Img : Type 0) : Type 0 where
  pub marker_images : Lru K (MarkerImageEntry K Img)
  pub marker_images_max : ℤ

unfoldable pub new_cache_index : {K Img : Type 0} → CacheIndex K Img
unfolding empty
new_cache_index = record { marker_images = empty; marker_images_max = pos 500 }

module _ {K Img : Type 0} where
  -- `elem.Value.(*markerImageEntry).image = img; markerImagesLRU.MoveToFront(elem)`
  unfoldable pub replace :
      ℕ → Img → List (ℕ × MarkerImageEntry K Img) → List (ℕ × MarkerImageEntry K Img)
  unfolding value store move_to_front
  replace i img l = elim (value i l) [
    | none ↦ l
    | some e ↦ move_to_front i (store i (record e { image = img }) l)
  ]

module _ {K Img : Type 0} (dec : Discrete K) where
  abbrev pub evict_oldest_marker_image_locked :
      Lru K (MarkerImageEntry K Img) → Lru K (MarkerImageEntry K Img)
  evict_oldest_marker_image_locked c = evict dec (λ e. e.key) c

  unfoldable pub get_marker_image :
      K → CacheIndex K Img → CacheIndex K Img × Option Img × Option Metric
  get_marker_image k c = elim (c.marker_images.entries k) [
    | none ↦ (c, none, some miss)
    | some i ↦ (
      record c {
        marker_images = record (c.marker_images) { lru = move_to_front i c.marker_images.lru };
      },
      Option.map (λ e. e.image) (value i c.marker_images.lru),
      some hit,
    )
  ]

  unfoldable pub add_marker_image : K → Img → CacheIndex K Img → CacheIndex K Img
  add_marker_image k img c = elim (c.marker_images.entries k) [
    | some i ↦ record c {
      marker_images = record (c.marker_images) { lru = replace i img c.marker_images.lru };
    }
    | none ↦
        let room =
          if reaches (length c.marker_images.lru) c.marker_images_max
          then evict_oldest_marker_image_locked c.marker_images
          else c.marker_images in
        record c { marker_images = push dec k (record { key = k; image = img }) room }
  ]

  -- The eviction loop takes fuel; `none` means that it has not ended.
  unfoldable pub set_marker_image_cache_size : ℕ → ℤ → CacheIndex K Img → Option (CacheIndex K Img)
  set_marker_image_cache_size fuel size c =
      Option.map (λ r. record { marker_images = r; marker_images_max = size })
        (shrink evict_oldest_marker_image_locked fuel (λ n. exceeds n size) c.marker_images)
