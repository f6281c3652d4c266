-- ===== src/Tests/Serving.antt =====
-- Concrete requests for maps, and the writes of files.
use rampardos.Prelude.{
  put, put_ne, ap, ◌∙◌, ℕ, ◌-◌, ◌*◌, ◌^◌, ◌≤◌, ◌==◌, leb, if◌then◌else◌, ◌≡◌, ◌↔◌, refl, true,
  false, some, none, List, [], ◌∷◌, length, take, drop, ℕ_discrete, arith, pos, negsuc,
}
use mathlib.Core.List.{List-discrete}
use rampardos.CompositeCache.{Image, other, new_composite_image_cache}
use rampardos.CompositeCache.Refine as Composite
use rampardos.StaticMap.{FormatSettings, StaticMap, path, static_folder, get_format}
use rampardos.StaticMap.Paths.{NoSlash, path-NoSlash}
use rampardos.StaticMap.Tiles.{Covered, tiles-Covered}
use rampardos.StaticMap.Generate.{Cache, ok, base_leads, Run, leads, generate_static_map}
use rampardos.StaticMap.Generate.Sound.{Held, Right, RightFlight, generate_static_map-Right}
use rampardos.ExpiryQueue.{is_owned_ttl}
use rampardos.Etag.{Namespace}
use rampardos.Serving.{
  Float64, finite, validate, effective_ttl, Query, Disk, Outcome, base_name, handle_request,
}
use rampardos.Serving.Accept.{Acceptable, validate-Acceptable}
use rampardos.Serving.Lifetime.{effective_ttl-wraps}
use rampardos.Serving.Respond.{Fresh, Handled, handle_request-Handled}
use rampardos.AtomicFile.{Calls, Files, Atomic, atomic_write_file, atomic_write_file-Atomic}
use rampardos.MultiStaticMap.{first, right, bottom, Grid, Picture, component}

abbrev bytes_discrete : Discrete (List ℕ)
bytes_discrete = List-discrete ℕ_discrete

-- A map of 4 by 4 pixels with one marker, in the style "a".
abbrev small_map : StaticMap Float64 ℕ ℕ ℕ
small_map = record {
  style = b'a' ∷ [];
  latitude = finite (pos 0);
  longitude = finite (pos 0);
  zoom = finite (pos (2 ^ 1074));
  width = 4;
  height = 4;
  scale = 1;
  format = some (b'p' ∷ []);
  bearing = none;
  pitch = none;
  markers = 1 ∷ [];
  polygons = [];
  circles = [];
}

abbrev settings : FormatSettings
settings = record { default_image_format = b'q' ∷ []; override_client_format = false }

-- A digest that tells maps with markers from those without.
abbrev count_digest : StaticMap Float64 ℕ ℕ ℕ → List ℕ → List ℕ
count_digest s f = length s.markers ∷ b'/' ∷ f

abbrev Fits : List ℕ → Image → Type 0
Fits k img = img ≡ other 2 2

abbrev fresh_run : Run
fresh_run = record {
  before_recheck = [];
  before_base = [];
  base_flight =
      base_leads (record { before_recheck = []; before_store = []; rendered = ok (other 2 2) });
  drawn = λ img. ok img;
  before_store = [];
}

abbrev small_cache : Cache
small_cache = some (new_composite_image_cache (pos 2) (pos 40))

small_cache-Held : Held bytes_discrete Fits small_cache
unfolding new_composite_image_cache rampardos.Lru.empty
small_cache-Held = record {
  accounted = (Composite.new-IsValid bytes_discrete (pos 2) (pos 40)).accounted;
  shown = tt;
}

small_flight : RightFlight bytes_discrete Fits count_digest settings small_map (leads fresh_run)
small_flight = record {
  before = tt;
  between = tt;
  base_right = record { before = tt; between = tt; renders = refl };
  draws = λ b s. s;
  after = tt;
}

generate_static_map-Right_example :
    Right bytes_discrete Fits count_digest settings (path count_digest settings small_map) (
      generate_static_map bytes_discrete count_digest settings small_map false
        (leads fresh_run)
        small_cache)
generate_static_map-Right_example =
    generate_static_map-Right bytes_discrete Fits count_digest settings small_map false
      (leads fresh_run) small_cache small_cache-Held small_flight

abbrev plain_query : Query
plain_query = record {
  nocache = true;
  pregenerate = true;
  regeneratable = true;
  ttl = pos 0;
  if_none_match = [];
}

abbrev all_succeed : Calls bytes_discrete
all_succeed = record {
  mkdir_all = true;
  create_temp = true;
  part = none;
  sync = true;
  close = true;
  chmod = true;
  rename = true;
  remove = true;
}

-- While the image is made, the file of a tile is stored.
abbrev outcome : Outcome bytes_discrete
outcome = record {
  meanwhile = λ d. record { files = put bytes_discrete (7 ∷ []) (8 ∷ []) d.files; queue = d.queue };
  image_calls = all_succeed;
  image_tmp = 2 ∷ [];
  now = 1000;
  stat = true;
  marker = some (1 ∷ []);
  marker_calls = all_succeed;
  marker_tmp = 3 ∷ [];
}

abbrev empty_disk : Disk
empty_disk = record { files = λ k. none; queue = none }

abbrev small_tag : List ℕ → ℕ → List ℕ → List ℕ
small_tag commit epoch p = p

abbrev version : Namespace
version = record { git_commit = []; content_version_epoch = 0 }

in_folder :
    (k : List ℕ)
    → k ≡ path count_digest settings small_map
    → take (length static_folder) k ≡ static_folder
in_folder k e =
    ap (take (length static_folder)) e ∙ (path-NoSlash count_digest settings small_map).0

-- The marker has the name of the image, and stands in the folder of the process.
small_names :
    Fresh bytes_discrete Fits count_digest settings small_tag version
      (λ img p. some p)
      (λ n. 9 ∷ n)
      small_map
      outcome
      empty_disk
small_names = (
  put_ne bytes_discrete (7 ∷ []) (8 ∷ []) (λ k. none) (2 ∷ []) (λ e. cc e),
  λ e. cc (in_folder (2 ∷ []) e),
  put_ne bytes_discrete (7 ∷ []) (8 ∷ []) (λ k. none) (3 ∷ []) (λ e. cc e),
  λ e. cc (in_folder (3 ∷ []) e),
  λ e. cc e,
  λ e. cc e,
  λ e. cc (in_folder (9 ∷ base_name (path count_digest settings small_map)) e),
  λ e. cc e,
)

handle_request-Handled_example :
    Handled bytes_discrete Fits count_digest settings small_tag version
      (λ img p. some p)
      (λ n. 9 ∷ n)
      small_map
      plain_query
      (leads fresh_run)
      outcome
      small_cache
      empty_disk
      small_cache-Held
      small_flight
      tt
      tt
      small_names
      (handle_request bytes_discrete count_digest settings small_tag version
        (λ img p. some p)
        (λ n. 9 ∷ n)
        small_map
        plain_query
        (leads fresh_run)
        outcome
        small_cache
        empty_disk)
handle_request-Handled_example =
    handle_request-Handled bytes_discrete Fits count_digest settings small_tag version
      (λ img p. some p) (λ n. 9 ∷ n) small_map plain_query (leads fresh_run) outcome small_cache
      empty_disk small_cache-Held small_flight tt tt small_names

validate-Acceptable_example : (validate 10 small_map ≡ none) ↔ Acceptable 10 small_map
validate-Acceptable_example = validate-Acceptable 10 small_map

path-NoSlash_example :
    (take (length static_folder) (path count_digest settings small_map) ≡ static_folder)
    × (NoSlash (drop (length static_folder) (path count_digest settings small_map))
        ↔ NoSlash (get_format settings small_map))
path-NoSlash_example = path-NoSlash count_digest settings small_map

tiles-Covered_example : Covered true 2 2048 17 ↔ (2 ≤ 1)
tiles-Covered_example = tiles-Covered 2 2048 17 (omega arith) (omega arith) (omega arith)

effective_ttl-wraps_example :
    (effective_ttl (pos 9223372037) ≡ (
      if leb 9223372037 9223372036
      then pos (9223372037 * 1000000000)
      else negsuc (18446744073709551615 - 9223372037 * 1000000000)))
    × ((is_owned_ttl (effective_ttl (pos 9223372037)) ≡ true)
        ↔ ((86400 ≤ 9223372037) × (9223372037 ≤ 9223372036)))
effective_ttl-wraps_example = effective_ttl-wraps 9223372037 (omega arith) (omega arith)

-- A write that stores two of three bytes.
abbrev torn_write : Calls ℕ_discrete
torn_write = record {
  mkdir_all = true;
  create_temp = true;
  part = some (1 ∷ 2 ∷ []);
  sync = true;
  close = true;
  chmod = true;
  rename = true;
  remove = true;
}

abbrev one_file : Files ℕ_discrete
one_file k = if k == 5 then some (9 ∷ []) else none

atomic_write_file-Atomic_example :
    Atomic ℕ_discrete 6 5
      (1 ∷ 2 ∷ 3 ∷ [])
      one_file
      refl
      (omega arith)
      torn_write
      (atomic_write_file ℕ_discrete torn_write 6 5 (1 ∷ 2 ∷ 3 ∷ []) one_file)
atomic_write_file-Atomic_example =
    atomic_write_file-Atomic ℕ_discrete 6 5 (1 ∷ 2 ∷ 3 ∷ []) one_file refl (omega arith) torn_write

-- Two maps beside each other, and a third one below them.
abbrev small_grid : Grid ℕ
small_grid =
    record {
      direction = first;
      maps = record { direction = first; shown = 1 } ∷ record { direction = right; shown = 2 } ∷ [];
    }
    ∷ record { direction = bottom; maps = record { direction = first; shown = 3 } ∷ [] }
    ∷ []

abbrev part : ℕ → Picture
part k = component k (10 * k) (10 * k)
