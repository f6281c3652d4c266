-- ===== src/MultiStaticMap.antt =====
-- rampardos/internal/models/multi_static_map.go: a grid of maps, and
-- rampardos/internal/utils/image_utils_native.go: how their images are put together. An image is
-- the way it is made, with its size; scaling and drawing are third-party code. Sizes are far below
-- the range of an int.
pub mod Compose
use rampardos.Prelude.{
  ℕ, ◌+◌, ◌*◌, ◌/◌, ◌==◌, if◌then◌else◌, Bool, true, false, ◌||◌, Option, some, none, List, [], ◌∷◌,
  ◌++◌, map,
}

-- Another direction is treated as `right`.
pub data CombineDirection : Type 0 where
  first right bottom unknown : CombineDirection

pub record DirectionedStaticMap (S : Type 0) : Type 0 where
  pub direction : CombineDirection
  pub shown : S

pub record DirectionedMultiStaticMap (S : Type 0) : Type 0 where
  pub direction : CombineDirection
  pub maps : List (DirectionedStaticMap S)

abbrev pub Grid : Type 0 → Type 0
Grid S = List (DirectionedMultiStaticMap S)

-- The component with its number and size, or the second image to the right of or below the first.
pub data Picture : Type 0 where
  component : ℕ → ℕ → ℕ → Picture
  beside : Picture → Picture → Picture
  below : Picture → Picture → Picture

-- What appendImages scales the addition to: the other side in proportion, rounded down.
pub scaled : ℕ → ℕ → ℕ → ℕ
scaled target across along =
    if across == target || across == 0 then along else along * target / across

mutual
  pub width : Picture → ℕ
  width (component k w h) = w
  width (beside a b) = width a + scaled (height a) (height b) (width b)
  width (below a b) = width a

  pub height : Picture → ℕ
  height (component k w h) = h
  height (beside a b) = height a
  height (below a b) = height a + scaled (width a) (width b) (height b)

-- Of an addition that is scaled to nothing, nothing is drawn.
abbrev pub append_right : Picture → Picture → Picture
append_right a b = if scaled (height a) (height b) (width b) == 0 then a else beside a b

abbrev pub append_bottom : Picture → Picture → Picture
append_bottom a b = if scaled (width a) (width b) (height b) == 0 then a else below a b

unfoldable pub append_images : Picture → Picture → CombineDirection → Picture
append_images a b right = append_right a b
append_images a b bottom = append_bottom a b
append_images a b first = append_right a b
append_images a b unknown = append_right a b

unfoldable pub is_first : CombineDirection → Bool
is_first first = true
is_first d = false

-- `m.Direction == CombineDirectionFirst || composite == nil`
pub join_row : CombineDirection → Option Picture → Picture → Picture
join_row d none img = img
join_row d (some c) img = if is_first d then img else append_images c img d

pub group :
    CombineDirection
    → Option Picture
    → List (CombineDirection × Picture)
    → List (CombineDirection × Picture)
group d none rest = rest
group d (some c) rest = (d, c) ∷ rest

pub join_groups : Picture → List (CombineDirection × Picture) → Picture
join_groups result [] = result
join_groups result ((d, c) ∷ groups) =
    join_groups (append_images result c (if is_first d then right else d)) groups

pub combine : List (CombineDirection × Picture) → Option Picture
combine [] = none
combine ((d, c) ∷ groups) = some (join_groups c groups)

module _ {S : Type 0} where
  -- The loop over the maps of a row: the composite and the images that are left, or an error.
  pub compose_row :
      List (DirectionedStaticMap S)
      → Option Picture
      → List Picture
      → Option (Option Picture × List Picture)
  compose_row [] c imgs = some (c, imgs)
  compose_row (m ∷ ms) c [] = none
  compose_row (m ∷ ms) c (img ∷ imgs) = compose_row ms (some (join_row m.direction c img)) imgs

  -- The loop over the rows: the groups with their directions.
  pub compose_rows : Grid S → List Picture → Option (List (CombineDirection × Picture))
  compose_rows [] imgs = some []
  compose_rows (row ∷ rows) imgs = elim (compose_row row.maps none imgs) [
    | none ↦ none
    | some (c, rest) ↦ elim (compose_rows rows rest) [
      | none ↦ none
      | some groups ↦ some (group row.direction c groups)
    ]
  ]

  pub generate_multi_static_map : Grid S → List Picture → Option Picture
  generate_multi_static_map grid imgs = elim (compose_rows grid imgs) [
    | none ↦ none
    | some groups ↦ combine groups
  ]

  -- The maps whose images are asked for, in this order.
  unfoldable pub maps_to_generate : Grid S → List S
  maps_to_generate [] = []
  maps_to_generate (row ∷ rows) = map (λ m. m.shown) row.maps ++ maps_to_generate rows
