-- ===== src/StaticMap/Generate.antt =====
-- rampardos/internal/handlers/static_map.go: GenerateStaticMap, ensureBase and generateStaticMap,
-- over the composite cache. Between two calls of the cache other requests use it too: what they do
-- is a list of acts. Rendering and drawing are arguments: what they returned in this run.
-- A call of singleflight either runs its callback, or gives the result that the callback had in
-- another run for the key, which is an argument with the cache that it met. Context errors of a
-- waiting caller do not occur, since Do does not look at contexts. `none` is a cache call that does
-- not end; the fuel is two rounds more than the cache has entries.
pub mod Sound
use rampardos.Prelude.{
  ℕ, ◌+◌, if◌then◌else◌, Bool, true, false, Option, some, none, List, [], ◌∷◌, map, length, ℤ,
}
use mathlib.Core.Option
use rampardos.CompositeCache.{
  CompositeKind, base, final, Image, CompositeImageCache, get, recheck, add, set_size,
}
use rampardos.StaticMap.{FormatSettings, StaticMap, has_drawables, path, base_path}

infixl 5 ◌>>=◌
abbrev pub ◌>>=◌ {ℓ κ} : {A : Type ℓ} {B : Type κ} → Option A → (A → Option B) → Option B
none >>= f = none
some a >>= f = f a

-- `services.GlobalCompositeImageCache`, which may be nil.
abbrev pub Cache : Type 0
Cache = Option (CompositeImageCache (List ℕ))

-- What another request, or the settings, may do with the cache.
pub data Act : Type 0 where
  looked : CompositeKind → List ℕ → Act
  rechecked : List ℕ → Act
  stored : CompositeKind → List ℕ → Image → Act
  resized : ℤ → Act

-- The image, or an error.
pub data Result : Type 0 where
  ok : Image → Result
  failed : Result

-- One run of the callback of ensureBase.
pub record BaseRun : Type 0 where
  pub before_recheck : List Act
  pub before_store : List Act
  pub rendered : Result

pub data BaseFlight : Type 0 where
  base_leads : BaseRun → BaseFlight
  base_joins : Cache → Bool → BaseRun → BaseFlight

-- One run of the callback of GenerateStaticMap.
pub record Run : Type 0 where
  pub before_recheck : List Act
  pub before_base : List Act
  pub base_flight : BaseFlight
  pub drawn : Image → Result
  pub before_store : List Act

-- What generateStaticMap makes of the base.
pub draw : Bool → (Image → Result) → Result → Result
draw drawables drawn failed = failed
draw drawables drawn (ok img) = if drawables then drawn img else ok img

module _ (dec : Discrete (List ℕ)) where
  pub look_up : Bool → CompositeKind → List ℕ → Cache → Cache × Option Image
  look_up true kind k gc = (gc, none)
  look_up false kind k none = (none, none)
  look_up false kind k (some c) = (some (get dec kind k c).0, (get dec kind k c).1)

  pub look_again : Bool → List ℕ → Cache → Cache × Option Image
  look_again true k gc = (gc, none)
  look_again false k none = (none, none)
  look_again false k (some c) = (some (recheck dec k c).0, (recheck dec k c).1)

  pub store : CompositeKind → List ℕ → Image → Cache → Option Cache
  store kind k img none = some none
  store kind k img (some c) = Option.map some (add dec (length c.core.lru + 2) kind k (some img) c)

  pub act : Act → Cache → Option Cache
  act (looked kind k) gc = some (look_up false kind k gc).0
  act (rechecked k) gc = some (look_again false k gc).0
  act (stored kind k img) gc = store kind k img gc
  act (resized n) none = some none
  act (resized n) (some c) = Option.map some (set_size dec (length c.core.lru + 1) n c)

  pub acts : List Act → Cache → Option Cache
  acts [] gc = some gc
  acts (a ∷ l) gc = act a gc >>= acts l

  -- `if err != nil { return nil, err }`, and then the Add.
  pub keep : CompositeKind → List ℕ → List Act → Result → Cache → Option (Cache × Result)
  keep kind k others failed gc = some (gc, failed)
  keep kind k others (ok img) gc = do c ← acts others gc; d ← store kind k img c; some (d, ok img)

  pub base_callback : List ℕ → Bool → BaseRun → Cache → Option (Cache × Result)
  base_callback k nocache run gc = do
    c ← acts run.before_recheck gc
    let seen = look_again nocache k c
    elim seen.1 [
      | some img ↦ some (seen.0, ok img)
      | none ↦ keep base k run.before_store run.rendered seen.0
    ]

  pub ensure_base : List ℕ → Bool → BaseFlight → Cache → Option (Cache × Result)
  ensure_base k nocache flight gc =
      let seen = look_up nocache base k gc in
      elim seen.1 [
        | some img ↦ some (seen.0, ok img)
        | none ↦ elim flight [
          | base_leads run ↦ base_callback k nocache run seen.0
          | base_joins gc' nocache' run ↦
              base_callback k nocache' run gc' >>= λ (_, r). some (seen.0, r)
        ]
      ]

module _ {F M P C : Type 0} (dec : Discrete (List ℕ)) (digest : StaticMap F M P C → List ℕ → List ℕ)
    (g : FormatSettings) where
  pub callback : StaticMap F M P C → Bool → Run → Cache → Option (Cache × Result × Bool)
  callback s nocache run gc = do
    c ← acts dec run.before_recheck gc
    let seen = look_again dec nocache (path digest g s) c
    let render : Option (Cache × Result × Bool) = do
      d ← acts dec run.before_base seen.0
      (e, b) ← ensure_base dec (base_path digest g s) nocache run.base_flight d
      let r = draw (has_drawables s) run.drawn b
      (h, q) ← keep dec final (path digest g s) run.before_store r e
      some (h, q, false)
    elim seen.1 [ some img ↦ some (seen.0, ok img, true) | none ↦ render ]

  pub data Flight : Type 0 where
    leads : Run → Flight
    joins : StaticMap F M P C → Cache → Bool → Run → Flight

  -- GenerateStaticMap: the cache afterwards, the image or the error, and whether it was cached.
  pub generate_static_map :
      StaticMap F M P C → Bool → Flight → Cache → Option (Cache × Result × Bool)
  generate_static_map s nocache flight gc =
      let seen = look_up dec nocache final (path digest g s) gc in
      elim seen.1 [
        | some img ↦ some (seen.0, ok img, true)
        | none ↦ elim flight [
          | leads run ↦ callback s nocache run seen.0
          | joins t gc' nocache' run ↦
              callback t nocache' run gc' >>= λ (_, r, cached). some (seen.0, r, cached)
        ]
      ]
