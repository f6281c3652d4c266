-- ===== src/MultiStaticMap/Compose.antt =====
-- The image of a grid, row by row, with the image of each of its maps.
use rampardos.Prelude.{◌==◌, if◌then◌else◌, Option, some, none, List, [], ◌∷◌}
use rampardos.MultiStaticMap.{
  CombineDirection, first, right, bottom, unknown, DirectionedStaticMap, Grid, Picture, beside,
  below, scaled, width, height, is_first,
}

-- Only `bottom` puts an image below what is there.
abbrev pub placed : CombineDirection → Picture → Picture → Picture
placed bottom a b = if scaled (width a) (width b) (height b) == 0 then a else below a b
placed first a b = if scaled (height a) (height b) (width b) == 0 then a else beside a b
placed right a b = if scaled (height a) (height b) (width b) == 0 then a else beside a b
placed unknown a b = if scaled (height a) (height b) (width b) == 0 then a else beside a b

-- The images of groups put together, each by its direction.
abbrev pub together : Picture → List (CombineDirection × Picture) → Picture
together p [] = p
together p ((d, q) ∷ groups) = together (placed d p q) groups

module _ {S : Type 0} (image_of : S → Picture) where
  abbrev pub Start : Type 0
  Start = DirectionedStaticMap S × List (DirectionedStaticMap S)

  abbrev pub or_here :
      Option Start → DirectionedStaticMap S → List (DirectionedStaticMap S) → Option Start
  or_here none m ms = if is_first m.direction then some (m, ms) else none
  or_here (some r) m ms = some r

  -- The last map of a row that is marked as the first, and the maps behind it.
  abbrev pub last_first : List (DirectionedStaticMap S) → Option Start
  last_first [] = none
  last_first (m ∷ ms) = or_here (last_first ms) m ms

  abbrev pub row_from : Picture → List (DirectionedStaticMap S) → Picture
  row_from p [] = p
  row_from p (m ∷ ms) = row_from (placed m.direction p (image_of m.shown)) ms

  abbrev pub resumed : Option Start → Picture → List (DirectionedStaticMap S) → Picture
  resumed none p ms = row_from p ms
  resumed (some (m, rest)) p ms = row_from (image_of m.shown) rest

  -- A row goes on from what is there, unless a map is marked as the first.
  abbrev pub row_behind : Picture → List (DirectionedStaticMap S) → Picture
  row_behind p ms = resumed (last_first ms) p ms

  abbrev pub row_picture : List (DirectionedStaticMap S) → Option Picture
  row_picture [] = none
  row_picture (m ∷ ms) = some (row_behind (image_of m.shown) ms)

  abbrev pub rows_of : Grid S → List (CombineDirection × Picture)
  rows_of [] = []
  rows_of (row ∷ rows) = elim (row_picture row.maps) [
    | none ↦ rows_of rows
    | some p ↦ (row.direction, p) ∷ rows_of rows
  ]

  abbrev pub grid_picture : Grid S → Option Picture
  grid_picture grid = elim (rows_of grid) [ [] ↦ none | (d, p) ∷ groups ↦ some (together p groups) ]
