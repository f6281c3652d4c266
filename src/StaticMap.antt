-- ===== src/StaticMap.antt =====
-- rampardos/internal/models/static_map.go and image_format.go: the request for a map and the paths
-- under which its image is cached. Texts are lists of bytes. Coordinates, markers, polygons and
-- circles are parameters. The digest of the JSON of a map and its format, in base64, is a
-- parameter: JSON and SHA-256 are not part of the program.
pub mod Paths
pub mod Generate
pub mod Tiles
use rampardos.Prelude.{
  ℕ, ◌==◌, ltb, if◌then◌else◌, Bool, ◌||◌, Option, some, none, List, [], ◌∷◌, ◌++◌, length,
}

-- The settings of image_format.go.
pub record FormatSettings : Type 0 where
  pub default_image_format : List ℕ
  pub override_client_format : Bool

pub record StaticMap (F M P C : Type 0) : Type 0 where
  pub style : List ℕ
  pub latitude : F
  pub longitude : F
  pub zoom : F
  pub width : ℕ
  pub height : ℕ
  pub scale : ℕ
  pub format : Option (List ℕ)
  pub bearing : Option F
  pub pitch : Option F
  pub markers : List M
  pub polygons : List P
  pub circles : List C

abbrev pub slash : ℕ
slash = b'/'

abbrev pub underscore : ℕ
underscore = b'_'

-- `strings.ReplaceAll(encoded, "/", "_")`
pub replace_slashes : List ℕ → List ℕ
replace_slashes [] = []
replace_slashes (b ∷ l) = (if b == slash then underscore else b) ∷ replace_slashes l

-- "Cache/Static/"
abbrev pub static_folder : List ℕ
static_folder =
    b'C' ∷ b'a' ∷ b'c' ∷ b'h' ∷ b'e' ∷ b'/' ∷ b'S' ∷ b't' ∷ b'a' ∷ b't' ∷ b'i' ∷ b'c' ∷ b'/' ∷ []

module _ {F M P C : Type 0} where
  pub get_format : FormatSettings → StaticMap F M P C → List ℕ
  get_format g s = elim s.format [
    | some f ↦ if g.override_client_format then g.default_image_format else f
    | none ↦ g.default_image_format
  ]

  -- The copy that PersistentHash digests.
  pub normalized : StaticMap F M P C → StaticMap F M P C
  normalized s = record s { format = none; scale = if s.scale == 0 then 1 else s.scale }

  pub without_drawables : StaticMap F M P C → StaticMap F M P C
  without_drawables s = record s { markers = []; polygons = []; circles = [] }

  -- `hasDrawables` of generateStaticMap
  pub has_drawables : StaticMap F M P C → Bool
  has_drawables s =
      ltb 0 (length s.markers) || ltb 0 (length s.polygons) || ltb 0 (length s.circles)

  module _ (digest : StaticMap F M P C → List ℕ → List ℕ) where
    pub persistent_hash : FormatSettings → StaticMap F M P C → List ℕ
    persistent_hash g s = replace_slashes (digest (normalized s) (get_format g s))

    pub path : FormatSettings → StaticMap F M P C → List ℕ
    path g s = static_folder ++ persistent_hash g s ++ b'.' ∷ get_format g s

    pub base_path : FormatSettings → StaticMap F M P C → List ℕ
    base_path g s =
        static_folder ++ persistent_hash g (without_drawables s) ++ b'.' ∷ get_format g s
