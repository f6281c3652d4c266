-- ===== src/CompositeCache.antt =====
-- rampardos/internal/services/composite_image_cache.go: the LRU of composed images, bounded by the
-- bytes of their pixels and by their number. Byte counts are natural numbers: what is in memory
-- stays far below 2 ^ 63, and the invariant shows that no subtraction goes below 0.
use rampardos.Prelude.{
  ℕ, zero, suc, ◌+◌, ◌-◌, ◌*◌, ◌%◌, ◌^◌, ltb, if◌then◌else◌, ite, Bool, true, false, ◌&&◌, ◌||◌,
  Option, some, none, List, map, length, ℤ, exceeds, not_positive,
}
use mathlib.Core.Option
use rampardos.Lru.{Lru, empty, value, move_to_front, back, push, remove}
pub mod Account
pub mod Trim
pub mod Refine
pub mod Additions
pub mod Content

-- The kinds of entry, `CompositeKindBase` and the others.
pub data CompositeKind : Type 0 where
  base final multi : CompositeKind

unfoldable pub CompositeKind-discrete : Discrete CompositeKind
CompositeKind-discrete = hlevel

-- An image as far as the cache looks into it: a pixel buffer, or the extent of another image.
pub data Image : Type 0 where
  nrgba : List ℕ → Image
  rgba : List ℕ → Image
  other : ℕ → ℕ → Image

abbrev pub composite_image_bytes : Image → ℕ
composite_image_bytes (nrgba pix) = length pix
composite_image_bytes (rgba pix) = length pix
composite_image_bytes (other dx dy) = dx * dy * 4

pub record CompositeImageEntry (K : Type 0) : Type 0 where
  pub key : K
  pub kind : CompositeKind
  pub img : Image
  pub bytes : ℕ

pub record CompositeImageCache (K : Type 0) : Type 0 where
  pub core : Lru K (CompositeImageEntry K)
  pub max_entries : ℤ
  pub max_bytes : ℤ
  pub bytes : ℕ
  pub kind_bytes : CompositeKind → ℕ
  pub evictions : ℕ  -- uint64

unfoldable pub new_composite_image_cache : {K : Type 0} → ℤ → ℤ → CompositeImageCache K
unfolding empty
new_composite_image_cache max_entries max_bytes = record {
  core = empty;
  max_entries = max_entries;
  max_bytes = max_bytes;
  bytes = 0;
  kind_bytes = λ _. 0;
  evictions = 0;
}

abbrev pub disabled_locked : {K : Type 0} → CompositeImageCache K → Bool
disabled_locked c = not_positive c.max_entries || not_positive c.max_bytes

-- Whether a lookup has found an image.
abbrev pub is_ok : Option Image → Bool
is_ok none = false
is_ok (some _) = true

-- The condition of the loop of `trimLocked`.
abbrev pub over_limits : {K : Type 0} → CompositeImageCache K → Bool
over_limits c =
    ltb 0 (length c.core.lru)
    && (exceeds (length c.core.lru) c.max_entries || exceeds c.bytes c.max_bytes)

module _ {K : Type 0} (dec : Discrete K) where
  -- `removeLocked` of the element `i` that holds the entry.
  unfoldable pub remove_locked :
      ℕ → CompositeImageEntry K → CompositeImageCache K → CompositeImageCache K
  remove_locked i entry c = record c {
    core = remove dec i entry.key c.core;
    bytes = c.bytes - entry.bytes;
    kind_bytes = λ k.
        ite (CompositeKind-discrete k entry.kind) (c.kind_bytes k - entry.bytes) (c.kind_bytes k);
  }

  -- One round of the loop of `trimLocked`.
  unfoldable pub evict_locked : CompositeImageCache K → CompositeImageCache K
  unfolding back
  evict_locked c = elim (back c.core.lru) [
    | none ↦ c
    | some (i, entry) ↦ record (remove_locked i entry c) { evictions = (c.evictions + 1) % 2 ^ 64 }
  ]

  -- The loop, with fuel: `none` means that it has not ended.
  unfoldable pub trim_locked : ℕ → CompositeImageCache K → Option (CompositeImageCache K)
  trim_locked zero c = none
  trim_locked (suc fuel) c =
      let rest = trim_locked fuel (evict_locked c) in if over_limits c then rest else some c

  unfoldable pub lookup_locked : K → CompositeImageCache K → CompositeImageCache K × Option Image
  lookup_locked k c = elim (c.core.entries k) [
    | none ↦ (c, none)
    | some i ↦ (
      record c { core = record (c.core) { lru = move_to_front i c.core.lru } },
      Option.map (λ e. e.img) (value i c.core.lru),
    )
  ]

  -- `Get` reports the lookup to the metrics, under its kind, and whether it was a hit.
  unfoldable pub get :
      CompositeKind
      → K
      → CompositeImageCache K
      → CompositeImageCache K × Option Image × Option (CompositeKind × Bool)
  get kind k c =
      if disabled_locked c
      then (c, none, none)
      else let (c', img) = lookup_locked k c in (c', img, some (kind, is_ok img))

  unfoldable pub recheck : K → CompositeImageCache K → CompositeImageCache K × Option Image
  recheck k c = if disabled_locked c then (c, none) else lookup_locked k c

  -- `if elem, ok := c.entries[key]; ok { c.removeLocked(elem) }`
  unfoldable pub drop_stale : K → CompositeImageCache K → CompositeImageCache K
  drop_stale k c = elim (c.core.entries k) [
    | none ↦ c
    | some i ↦ elim (value i c.core.lru) [ none ↦ c | some e ↦ remove_locked i e c ]
  ]

  unfoldable pub push_entry : CompositeImageEntry K → CompositeImageCache K → CompositeImageCache K
  push_entry e c = record c {
    core = push dec e.key e c.core;
    bytes = c.bytes + e.bytes;
    kind_bytes =
        λ k. ite (CompositeKind-discrete k e.kind) (c.kind_bytes k + e.bytes) (c.kind_bytes k);
  }

  unfoldable pub add :
      ℕ → CompositeKind → K → Option Image → CompositeImageCache K → Option (CompositeImageCache K)
  add fuel kind k none c = some c
  add fuel kind k (some img) c =
      let size = composite_image_bytes img in
      let kept = drop_stale k c in
      let entry : CompositeImageEntry K = record {
        key = k;
        kind = kind;
        img = img;
        bytes = size;
      } in
      if disabled_locked c
      then some c
      else if exceeds size c.max_bytes
      then some kept
      else trim_locked fuel (push_entry entry kept)

  unfoldable pub set_size : ℕ → ℤ → CompositeImageCache K → Option (CompositeImageCache K)
  set_size fuel max_entries c = trim_locked fuel (record c { max_entries = max_entries })

  unfoldable pub set_max_bytes : ℕ → ℤ → CompositeImageCache K → Option (CompositeImageCache K)
  set_max_bytes fuel max_bytes c = trim_locked fuel (record c { max_bytes = max_bytes })
