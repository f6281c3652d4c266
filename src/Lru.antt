-- ===== src/Lru.antt =====
-- What the three image caches (rampardos/internal/services/tile_image_cache.go, cache_index.go and
-- composite_image_cache.go) have in common: a `container/list` of entries, most recently used
-- first, and a map from key to list element. An element is a pointer, a number that `PushFront`
-- allocates; the map and the list share it.
use rampardos.Prelude.{ℕ, suc, ◌==◌, if◌then◌else◌, Option, none, some, List, [], ◌∷◌, put, delete}
pub mod Items
pub mod Agree
pub mod View
pub mod Evict
pub mod Promote

-- `lru` is the list, front first, each element with its pointer; `entries` is the map.
pub record Lru (K E : Type 0) : Type 0 where
  pub entries : K → Option ℕ
  pub lru : List (ℕ × E)
  pub next : ℕ

unfoldable pub empty : {K E : Type 0} → Lru K E
empty = record { entries = λ _. none; lru = []; next = 0 }

module _ {E : Type 0} where
  -- `elem.Value`
  unfoldable pub value : ℕ → List (ℕ × E) → Option E
  value i [] = none
  value i ((j, e) ∷ l) = if j == i then some e else value i l

  -- `lru.Remove(elem)`
  unfoldable pub unlink : ℕ → List (ℕ × E) → List (ℕ × E)
  unlink i [] = []
  unlink i ((j, e) ∷ l) = if j == i then l else (j, e) ∷ unlink i l

  -- `elem.Value = e`
  unfoldable pub store : ℕ → E → List (ℕ × E) → List (ℕ × E)
  store i v [] = []
  store i v ((j, e) ∷ l) = if j == i then (j, v) ∷ l else (j, e) ∷ store i v l

  -- `lru.MoveToFront(elem)`
  unfoldable pub move_to_front : ℕ → List (ℕ × E) → List (ℕ × E)
  unfolding value unlink
  move_to_front i l = elim (value i l) [ none ↦ l | some e ↦ (i, e) ∷ unlink i l ]

  -- `lru.Back()`
  unfoldable pub back : List (ℕ × E) → Option (ℕ × E)
  back [] = none
  back (x ∷ []) = some x
  back (x ∷ y ∷ l) = back (y ∷ l)

module _ {K E : Type 0} (dec : Discrete K) where
  -- `entries[key] = lru.PushFront(e)`
  unfoldable pub push : K → E → Lru K E → Lru K E
  push k e c = record {
    entries = put dec k c.next c.entries;
    lru = (c.next, e) ∷ c.lru;
    next = suc c.next;
  }

  -- `lru.Remove(elem); delete(entries, key)` for the element `i` that holds the key
  unfoldable pub remove : ℕ → K → Lru K E → Lru K E
  unfolding unlink
  remove i k c = record c { entries = delete dec k c.entries; lru = unlink i c.lru }
