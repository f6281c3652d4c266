-- ===== src/Tests/Caches.antt =====
-- Concrete runs of the renderer's and the image caches.
use rampardos.Prelude.{ℕ, ◌≡◌, refl, some, none, List, [], ◌∷◌, ℕ_discrete, arith, pos}
use rampardos.TileCache.{TileImageCache, new_tile_image_cache}
use rampardos.TileCache.Refine.{new-IsValid, set_size_negative}
use rampardos.TileCache.Trace.{Call, look, store, resize, run, ideal, run-ideal}
use rampardos.TileCache.Refine as Tile
use rampardos.Lru.View.{view, erase}
use rampardos.MarkerCache.{CacheIndex, new_cache_index, add_marker_image}
use rampardos.MarkerCache.Refine as Marker
use rampardos.CompositeCache.{
  base, final, other, CompositeImageCache, new_composite_image_cache, push_entry, add,
}
use rampardos.CompositeCache.Refine as Composite
use rampardos.CompositeCache.Additions as Additions
use rampardos.CompositeCache.Trim.{Trimmed}
use rampardos.CompositeCache.Account.{push-Accounted}

abbrev calls : List (Call ℕ ℕ)
calls = store 1 10 ∷ store 2 20 ∷ look 1 ∷ store 3 30 ∷ look 2 ∷ look 3 ∷ resize 1 ∷ look 1 ∷ []

abbrev cache : TileImageCache ℕ ℕ
cache = new_tile_image_cache (pos 2)

run-ideal_example :
    (c' : TileImageCache ℕ ℕ) × (run ℕ_discrete calls cache
      ≡ some (c', some 10 ∷ none ∷ some 30 ∷ none ∷ []))
    × Tile.IsValid ℕ_discrete c'
    × (view c'.core ≡ record { key = 3; img = 30 } ∷ [])
unfolding new_tile_image_cache ideal rampardos.Lru.View.find ℕ_discrete rampardos.Lru.View.erase
run-ideal_example = run-ideal ℕ_discrete calls cache (new-IsValid ℕ_discrete (pos 2))

abbrev markers : CacheIndex ℕ ℕ
markers = add_marker_image ℕ_discrete 1 10 new_cache_index

markers-IsValid : Marker.IsValid ℕ_discrete markers
markers-IsValid =
    (Marker.marker_add-view ℕ_discrete new_cache_index 1 10 (Marker.new-IsValid ℕ_discrete)).0

marker_add-view_example :
    Marker.IsValid ℕ_discrete (add_marker_image ℕ_discrete 2 20 markers)
    × (view (add_marker_image ℕ_discrete 2 20 markers).marker_images
        ≡ record { key = 2; image = 20 } ∷ record { key = 1; image = 10 } ∷ [])
    × ((add_marker_image ℕ_discrete 2 20 markers).marker_images_max ≡ markers.marker_images_max)
unfolding add_marker_image new_cache_index erase rampardos.Lru.push ℕ_discrete
marker_add-view_example = Marker.marker_add-view ℕ_discrete markers 2 20 markers-IsValid

-- A composite cache of two entries and 40 bytes, with an image of 16 bytes.
abbrev composites : CompositeImageCache ℕ
composites =
    push_entry ℕ_discrete (record { key = 1; kind = base; img = other 2 2; bytes = 16 })
      (new_composite_image_cache (pos 2) (pos 40))

composites-IsValid : Composite.IsValid ℕ_discrete composites
unfolding new_composite_image_cache push_entry rampardos.Lru.push rampardos.Lru.empty
composites-IsValid = record {
  accounted =
      push-Accounted ℕ_discrete (new_composite_image_cache (pos 2) (pos 40))
        (record { key = 1; kind = base; img = other 2 2; bytes = 16 })
        (Composite.new-IsValid ℕ_discrete (pos 2) (pos 40)).accounted refl refl;
  within = ground arith;
}

add-Trimmed_example :
    (c' : CompositeImageCache ℕ) × (add ℕ_discrete 10 final 2 (some (other 3 2)) composites
      ≡ some c')
    × Trimmed ℕ_discrete
        (pos 2)
        (pos 40)
        (record { key = 2; kind = final; img = other 3 2; bytes = 24 } ∷ view composites.core)
        c'
unfolding new_composite_image_cache push_entry rampardos.Lru.push rampardos.Lru.empty erase
    ℕ_discrete
add-Trimmed_example =
    Additions.add-Trimmed ℕ_discrete 10 composites final 2 (other 3 2) composites-IsValid refl refl
      (omega arith)
