-- ===== src/Serving.antt =====
-- rampardos/internal/handlers/static_map.go: handleRequest, effectiveTTL and generateResponse, and
-- common.go: enqueueWithBase and handlePregenerateResponseBytes. Drawing, encoding, JSON and the
-- results of the file system are arguments. Metrics, logs and hit ratios are left out. The clock
-- is read once for a request, in Add. A response is what the handler asks of net/http; how
-- http.ServeContent answers conditional and range requests is up to that package.
pub mod Accept
pub mod Lifetime
pub mod Respond
pub mod Save
use rampardos.Prelude.{
  ℕ, zero, suc, ◌-◌, ◌*◌, ◌%◌, ◌^◌, ◌==◌, ltb, leb, if◌then◌else◌, ite, Bool, true, false, not,
  ◌&&◌, ◌||◌, Option, some, none, List, [], ◌∷◌, ◌++◌, ℤ, pos, negsuc,
}
use rampardos.CompositeCache.{Image}
use rampardos.StaticMap.{FormatSettings, StaticMap, slash, path, base_path}
use rampardos.StaticMap.Generate.{◌>>=◌, Cache, Result, ok, failed, Flight, generate_static_map}
use rampardos.ExpiryQueue.{ExpiryQueue, add, owned_threshold}
use rampardos.AtomicFile.{Calls, last, atomic_write_file}
use rampardos.Etag.{Namespace, content_etag, conditional}

-- A float64: a finite one is a multiple of the least positive one, 2 ^ -1074.
pub data Float64 : Type 0 where
  nan : Float64
  infinite : Bool → Float64
  finite : ℤ → Float64

abbrev pub float_one : ℕ
float_one = 2 ^ 1074

pub data Rejection : Type 0 where
  invalid_zoom invalid_style invalid_dimensions dimensions_too_large : Rejection
  scale_too_large missing_style : Rejection

-- `math.IsNaN(z) || math.IsInf(z, 0) || z < 1 || z > 22`
pub zoom_rejected : ℕ → Float64 → Bool
zoom_rejected one nan = true
zoom_rejected one (infinite _) = true
zoom_rejected one (finite (pos n)) = ltb n one || ltb (22 * one) n
zoom_rejected one (finite (negsuc n)) = true

-- [A-Za-z0-9_-]
pub is_style_byte : ℕ → Bool
is_style_byte b =
    (leb b'A' b && leb b b'Z')
    || (leb b'a' b && leb b b'z')
    || (leb b'0' b && leb b b'9')
    || b == b'_'
    || b == b'-'

pub all_style_bytes : List ℕ → Bool
all_style_bytes [] = true
all_style_bytes (b ∷ l) = is_style_byte b && all_style_bytes l

pub is_empty {ℓ} : {E : Type ℓ} → List E → Bool
is_empty [] = true
is_empty (e ∷ l) = false

-- validStyleRe, which does not match an empty text.
pub matches_style : List ℕ → Bool
matches_style l = not (is_empty l) && all_style_bytes l

-- The checks at the head of handleRequest, in order.
pub validate : {M P C : Type 0} → ℕ → StaticMap Float64 M P C → Option Rejection
validate one s =
    if zoom_rejected one s.zoom
    then some invalid_zoom
    else if not (is_empty s.style) && not (matches_style s.style)
    then some invalid_style
    else if s.width == 0 || s.height == 0
    then some invalid_dimensions
    else if ltb 4096 s.width || ltb 4096 s.height
    then some dimensions_too_large
    else if ltb 4 s.scale
    then some scale_too_large
    else if is_empty s.style
    then some missing_style
    else none

-- The int64 that a product wraps to.
pub to_int64 : ℕ → ℤ
to_int64 n =
    if ltb (n % 2 ^ 64) (2 ^ 63) then pos (n % 2 ^ 64) else negsuc (2 ^ 64 - 1 - n % 2 ^ 64)

pub effective_ttl : ℤ → ℤ
effective_ttl (pos zero) = pos owned_threshold
effective_ttl (pos (suc n)) = to_int64 (suc n * 1000000000)
effective_ttl (negsuc n) = pos owned_threshold

-- The query parameters; `ttl` is what Atoi gives, and 0 if the parameter is missing.
pub record Query : Type 0 where
  pub nocache : Bool
  pub pregenerate : Bool
  pub regeneratable : Bool
  pub ttl : ℤ
  pub if_none_match : List ℕ

-- A fresh image that is to be fetched later lives for 30 seconds unless the query says otherwise.
pub ttl_seconds : Bool → Bool → ℤ → ℤ
ttl_seconds nocache pregenerate (pos zero) = if nocache && pregenerate then pos 30 else pos 0
ttl_seconds nocache pregenerate t = t

-- `filepath.Base`: without trailing slashes, what follows the last slash.
pub strip_slashes : List ℕ → List ℕ
strip_slashes [] = []
strip_slashes (b ∷ l) = elim (strip_slashes l) [
  | [] ↦ if b == slash then [] else b ∷ []
  | c ∷ m ↦ b ∷ c ∷ m
]

pub last_element : List ℕ → List ℕ → List ℕ
last_element read [] = read
last_element read (b ∷ l) =
    let next = last_element [] l in
    let on = last_element (read ++ b ∷ []) l in if b == slash then next else on

pub base_name : List ℕ → List ℕ
base_name p = elim (strip_slashes p) [
  | [] ↦ if is_empty p then b'.' ∷ [] else slash ∷ []
  | b ∷ l ↦ last_element [] (b ∷ l)
]

-- The files, and the queue, which may be nil.
pub record Disk : Type 0 where
  pub files : List ℕ → Option (List ℕ)
  pub queue : Option (ExpiryQueue (List ℕ))

pub data Response : Type 0 where
  bad_request : Rejection → Response
  not_modified : List ℕ → Response
  generation_failed encode_failed pregenerate_failed : Response
  -- `http.ServeContent` with the headers of `setStaticMapCacheHeaders`: the entity tag, the name and
  -- the bytes. The modification time is always the start of the server.
  serve_content : List ℕ → List ℕ → List ℕ → Response
  file_name : List ℕ → Response

module _ (dec : Discrete (List ℕ)) where
  pub enqueue_with_base :
      ℕ
      → ℤ
      → List ℕ
      → List ℕ
      → Option (ExpiryQueue (List ℕ))
      → Option (Option (ExpiryQueue (List ℕ)))
  enqueue_with_base now ttl p base none = some none
  enqueue_with_base now ttl p base (some q) =
      let both = add dec now ttl q (p ∷ base ∷ []) in
      let one = add dec now ttl q (p ∷ []) in ite (dec p base) one both >>= λ r. some (some r)

  -- What the file system, the clock and JSON answer, and what happens to the disk until the image is
  -- there: the files of markers and tiles, and what other requests do.
  pub record Outcome : Type 0 where
    pub meanwhile : Disk → Disk
    pub image_calls : Calls dec
    pub image_tmp : List ℕ
    pub now : ℕ
    -- Whether `os.Stat` of the marker gives no error but that there is none.
    pub stat : Bool
    -- `json.Marshal`
    pub marker : Option (List ℕ)
    pub marker_calls : Calls dec
    pub marker_tmp : List ℕ

  abbrev pub FilesOf : Type 0
  FilesOf = List ℕ → Option (List ℕ)

  abbrev pub has_file : FilesOf → List ℕ → Bool
  has_file files p = elim (files p) [ none ↦ false | some _ ↦ true ]

  -- The marker of a regeneratable map, where there is none; a failure is only logged.
  pub write_marker : Bool → Outcome → Option (List ℕ) → List ℕ → FilesOf → FilesOf
  write_marker regeneratable out none p files = files
  write_marker regeneratable out (some body) p files =
      let (states, _) = atomic_write_file dec out.marker_calls out.marker_tmp p body files in
      if regeneratable && (out.stat && not (has_file files p)) then last dec files states else files

  pub handle_pregenerate :
      Query
      → (List ℕ → List ℕ)
      → Outcome
      → ℤ
      → List ℕ
      → List ℕ
      → List ℕ
      → Disk
      → Option (Disk × Response)
  handle_pregenerate query marker_path out ttl p base encoded disk =
      let name = base_name p in
      let (states, written) =
        atomic_write_file dec out.image_calls out.image_tmp p encoded disk.files in
      let files = last dec disk.files states in
      let saved : Option (Disk × Response) =
        enqueue_with_base out.now ttl p base disk.queue >>= λ q. some (
          record {
            files = write_marker query.regeneratable out out.marker (marker_path name) files;
            queue = q;
          },
          file_name name,
        ) in
      if written then saved else some (record disk { files = files }, pregenerate_failed)

module _ {M P C : Type 0} (dec : Discrete (List ℕ))
    (digest : StaticMap Float64 M P C → List ℕ → List ℕ) (g : FormatSettings)
    (tag : List ℕ → ℕ → List ℕ → List ℕ) (version : Namespace)
    (encode : Image → List ℕ → Option (List ℕ)) (marker_path : List ℕ → List ℕ) where
  -- generateResponse, after the image is encoded.
  pub respond :
      StaticMap Float64 M P C → Query → Outcome dec → List ℕ → Disk → Option (Disk × Response)
  respond s query out encoded disk =
      let ttl = effective_ttl (ttl_seconds query.nocache query.pregenerate query.ttl) in
      if query.pregenerate
      then handle_pregenerate dec query marker_path out ttl (path digest g s) (base_path digest g s)
          encoded disk
      else some (
        disk,
        serve_content (content_etag tag version (path digest g s)) (base_name (path digest g s))
            encoded,
      )

  -- From the result of GenerateStaticMap on.
  pub finish :
      StaticMap Float64 M P C → Query → Outcome dec → Result → Disk → Option (Disk × Response)
  finish s query out failed disk = some (disk, generation_failed)
  finish s query out (ok img) disk = elim (encode img (path digest g s)) [
    | none ↦ some (disk, encode_failed)
    | some encoded ↦ respond s query out encoded disk
  ]

  -- handleRequest: the cache and the disk afterwards, and the response.
  pub handle_request :
      StaticMap Float64 M P C
      → Query
      → Flight dec digest g
      → Outcome dec
      → Cache
      → Disk
      → Option (Cache × Disk × Response)
  handle_request s query flight out gc disk =
      let (etag, same) = conditional tag version (path digest g s) query.if_none_match in
      let generate : Option (Cache × Disk × Response) = do
        (c, r, _) ← generate_static_map dec digest g s query.nocache flight gc
        (d, a) ← finish s query out r (out.meanwhile disk)
        some (c, d, a)
      in elim (validate float_one s) [
        | some e ↦ some (gc, disk, bad_request e)
        | none ↦
            if not query.pregenerate && same then some (gc, disk, not_modified etag) else generate
      ]
