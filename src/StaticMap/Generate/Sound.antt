-- ===== src/StaticMap/Generate/Sound.antt =====
-- Every image that GenerateStaticMap answers with is one of the map that was asked for, and so is
-- every image that it leaves in the cache under the path of the map.
use rampardos.Prelude.{
  ℕ, ◌+◌, ◌≡◌, inl, inr, refl, sym, Bool, true, false, Option, some, none, List, [], ◌∷◌, All,
  length, Bool-cases, Option-cases, arith,
}
use mathlib.Core.Path.{subst}
use rampardos.CompositeCache.{CompositeKind, base, final, Image}
use rampardos.CompositeCache.Content.{
  Content, get-Seen, recheck-Seen, add-Content, set_size-Content,
}
use rampardos.StaticMap.{FormatSettings, StaticMap, has_drawables, path, base_path}
use rampardos.StaticMap.Paths.{plain-path}
use rampardos.StaticMap.Generate.{
  ◌>>=◌, Cache, Act, looked, rechecked, stored, resized, Result, ok, failed, BaseRun, BaseFlight,
  base_leads, base_joins, Run, look_up, look_again, store, act, acts, keep, base_callback,
  ensure_base, draw, Flight, leads, joins, callback, generate_static_map,
}

module _ (dec : Discrete (List ℕ)) (Shows : List ℕ → Image → Type 0) where
  abbrev pub Held : Cache → Type 0
  Held none = Unit {0}
  Held (some c) = Content dec Shows c

  abbrev pub RightAct : Act → Type 0
  RightAct (looked kind k) = Unit {0}
  RightAct (rechecked k) = Unit {0}
  RightAct (stored kind k img) = Shows k img
  RightAct (resized n) = Unit {0}

  abbrev pub Answers : List ℕ → Result → Type 0
  Answers k failed = Unit {0}
  Answers k (ok img) = Shows k img

  look_up-Held :
      (nocache : Bool) (kind : CompositeKind) (k : List ℕ) (gc : Cache)
      → Held gc
      → Held (look_up dec nocache kind k gc).0
        × ((img : Image) → (look_up dec nocache kind k gc).1 ≡ some img → Shows k img)
  unfolding look_up
  look_up-Held true kind k gc v = (v, λ img h. absurd (ground arith))
  look_up-Held false kind k none v = (v, λ img h. absurd (ground arith))
  look_up-Held false kind k (some c) v = get-Seen dec Shows kind k c v

  look_again-Held :
      (nocache : Bool) (k : List ℕ) (gc : Cache)
      → Held gc
      → Held (look_again dec nocache k gc).0
        × ((img : Image) → (look_again dec nocache k gc).1 ≡ some img → Shows k img)
  unfolding look_again
  look_again-Held true k gc v = (v, λ img h. absurd (ground arith))
  look_again-Held false k none v = (v, λ img h. absurd (ground arith))
  look_again-Held false k (some c) v = recheck-Seen dec Shows k c v

  store-Held :
      (kind : CompositeKind) (k : List ℕ) (img : Image) (gc : Cache)
      → Held gc
      → Shows k img
      → (r : Cache) × (store dec kind k img gc ≡ some r) × Held r
  unfolding store
  store-Held kind k img none v s = (none, refl, tt)
  store-Held kind k img (some c) v s =
      let (r, e, w) =
        add-Content dec Shows (length c.core.lru + 2) kind k img c v s (omega arith) in
      (some r, rw e refl, w)

  act-Held :
      (a : Act) (gc : Cache) → Held gc → RightAct a → (r : Cache) × (act dec a gc ≡ some r) × Held r
  unfolding act
  act-Held (looked kind k) gc v s = (_, refl, (look_up-Held false kind k gc v).0)
  act-Held (rechecked k) gc v s = (_, refl, (look_again-Held false k gc v).0)
  act-Held (stored kind k img) gc v s = store-Held kind k img gc v s
  act-Held (resized n) none v s = (none, refl, tt)
  act-Held (resized n) (some c) v s =
      let (r, e, w) = set_size-Content dec Shows (length c.core.lru + 1) n c v (omega arith) in
      (some r, rw e refl, w)

  acts-Held :
      (l : List Act) (gc : Cache)
      → Held gc
      → All RightAct l
      → (r : Cache) × (acts dec l gc ≡ some r) × Held r
  unfolding acts
  acts-Held [] gc v s = (gc, refl, v)
  acts-Held (a ∷ l) gc v s = let (r, e, w) = act-Held a gc v s.0 in rw e (acts-Held l r w s.1)

  -- The call ends, keeps the cache right and answers with an image of the path, or an error.
  abbrev pub Sound : List ℕ → Option (Cache × Result) → Type 0
  Sound k o = (r : Cache × Result) × (o ≡ some r) × Held r.0 × Answers k r.1

  keep-Sound :
      (kind : CompositeKind) (k : List ℕ) (l : List Act) (r : Result) (gc : Cache)
      → Held gc
      → All RightAct l
      → Answers k r
      → Sound k (keep dec kind k l r gc)
  unfolding keep
  keep-Sound kind k l failed gc v a s = ((gc, failed), refl, v, tt)
  keep-Sound kind k l (ok img) gc v a s =
      let (c, e, w) = acts-Held l gc v a in
      let (d, f, x) = store-Held kind k img c w s in ((d, ok img), rw (e, f) refl, x, s)

  -- The other requests put in right images, and rendering gives one of the base.
  pub record RightBase (k : List ℕ) (run : BaseRun) : Type 0 where
    pub before : All RightAct run.before_recheck
    pub between : All RightAct run.before_store
    pub renders : Answers k run.rendered

  abbrev pub RightBaseFlight : List ℕ → BaseFlight → Type 0
  RightBaseFlight k (base_leads run) = RightBase k run
  RightBaseFlight k (base_joins gc nocache run) = Held gc × RightBase k run

  base_callback-Sound :
      (k : List ℕ) (nocache : Bool) (run : BaseRun) (gc : Cache)
      → Held gc
      → RightBase k run
      → Sound k (base_callback dec k nocache run gc)
  unfolding base_callback
  base_callback-Sound k nocache run gc v t =
      let (c, e, w) = acts-Held run.before_recheck gc v t.before in
      let (x, s) = look_again-Held nocache k c w in
      elim (Option-cases (look_again dec nocache k c).1) [
        | inl miss ↦
            rw (e, ◌>>=◌, miss)
              (keep-Sound base k run.before_store run.rendered _ x t.between t.renders)
        | inr (img, hit) ↦
            rw (e, ◌>>=◌, hit) (((look_again dec nocache k c).0, ok img), refl, x, s img hit)
      ]

  base_flown :
      (k : List ℕ) (nocache : Bool) (flight : BaseFlight) (gc : Cache)
      → Held gc
      → RightBaseFlight k flight
      → Sound k (elim flight [
        | base_leads run ↦ base_callback dec k nocache run gc
        | base_joins gc' nocache' run ↦
            base_callback dec k nocache' run gc' >>= λ (_, r). some (gc, r)
      ])
  base_flown k nocache (base_leads run) gc v t = base_callback-Sound k nocache run gc v t
  base_flown k nocache (base_joins gc' nocache' run) gc v t =
      let ((c, r), e, x, s) = base_callback-Sound k nocache' run gc' t.0 t.1 in
      ((gc, r), rw e refl, v, s)

  ensure_base-Sound :
      (k : List ℕ) (nocache : Bool) (flight : BaseFlight) (gc : Cache)
      → Held gc
      → RightBaseFlight k flight
      → Sound k (ensure_base dec k nocache flight gc)
  unfolding ensure_base
  ensure_base-Sound k nocache flight gc v t =
      let (x, s) = look_up-Held nocache base k gc v in
      elim (Option-cases (look_up dec nocache base k gc).1) [
        | inl miss ↦ rw (miss, ensure_base) (base_flown k nocache flight _ x t)
        | inr (img, hit) ↦
            rw (hit, ensure_base) (((look_up dec nocache base k gc).0, ok img), refl, x, s img hit)
      ]

module _ {F M P C : Type 0} (dec : Discrete (List ℕ)) (Shows : List ℕ → Image → Type 0)
    (digest : StaticMap F M P C → List ℕ → List ℕ) (g : FormatSettings) where
  -- The other requests put in right images, the base is rendered rightly, and drawing on an image
  -- of the base gives one of the map.
  pub record RightRun (s : StaticMap F M P C) (run : Run) : Type 0 where
    pub before : All (RightAct dec Shows) run.before_recheck
    pub between : All (RightAct dec Shows) run.before_base
    pub base_right : RightBaseFlight dec Shows (base_path digest g s) run.base_flight
    pub draws :
        (b : Image)
        → Shows (base_path digest g s) b
        → Answers dec Shows (path digest g s) (run.drawn b)
    pub after : All (RightAct dec Shows) run.before_store

  abbrev pub RightFlight : StaticMap F M P C → Flight dec digest g → Type 0
  RightFlight s (leads run) = RightRun s run
  RightFlight s (joins t gc nocache run) =
      (path digest g t ≡ path digest g s) × Held dec Shows gc × RightRun t run

  draw-Answers :
      (s : StaticMap F M P C) (run : Run) (r : Result)
      → RightRun s run
      → Answers dec Shows (base_path digest g s) r
      → Answers dec Shows (path digest g s) (draw (has_drawables s) run.drawn r)
  unfolding draw
  draw-Answers s run failed t a = tt
  draw-Answers s run (ok img) t a = elim (Bool-cases (has_drawables s)) [
    | inl some_left ↦ rw some_left (t.draws img a)
    | inr plain ↦ rw plain (subst (λ k. Shows k img) (sym (plain-path digest g s plain)) a)
  ]

  -- The call ends, keeps the cache right and answers with an image of the path, or an error.
  abbrev pub Right : List ℕ → Option (Cache × Result × Bool) → Type 0
  Right k o =
      (r : Cache × Result × Bool) × (o ≡ some r) × Held dec Shows r.0 × Answers dec Shows k r.1

  callback-Right :
      (s : StaticMap F M P C) (nocache : Bool) (run : Run) (gc : Cache)
      → Held dec Shows gc
      → RightRun s run
      → Right (path digest g s) (callback dec digest g s nocache run gc)
  unfolding callback
  callback-Right s nocache run gc v t =
      let (c, e, w) = acts-Held dec Shows run.before_recheck gc v t.before in
      let (x, a) = look_again-Held dec Shows nocache (path digest g s) c w in
      elim (Option-cases (look_again dec nocache (path digest g s) c).1) [
        | inl miss ↦
            let (d, f, y) = acts-Held dec Shows run.before_base _ x t.between in
            let ((h, b), i, z, j) =
              ensure_base-Sound dec Shows (base_path digest g s) nocache run.base_flight d y
                t.base_right in
            let ((k, q), m, n, o) =
              keep-Sound dec Shows final (path digest g s) run.before_store
                (draw (has_drawables s) run.drawn b) h z t.after (draw-Answers s run b t j) in
            rw (e, ◌>>=◌, miss, f, i, m) ((k, q, false), refl, n, o)
        | inr (img, hit) ↦
            rw (e, ◌>>=◌, hit)
              (((look_again dec nocache (path digest g s) c).0, ok img, true), refl, x, a img hit)
      ]

  flown :
      (s : StaticMap F M P C) (nocache : Bool) (flight : Flight dec digest g) (gc : Cache)
      → Held dec Shows gc
      → RightFlight s flight
      → Right (path digest g s) (elim flight [
        | leads run ↦ callback dec digest g s nocache run gc
        | joins t gc' nocache' run ↦
            callback dec digest g t nocache' run gc' >>= λ (_, r, cached). some (gc, r, cached)
      ])
  flown s nocache (leads run) gc v t = callback-Right s nocache run gc v t
  flown s nocache (joins u gc' nocache' run) gc v t =
      let ((c, r, b), e, x, a) = callback-Right u nocache' run gc' t.1 t.2 in
      ((gc, r, b), rw e refl, v, subst (λ k. Answers dec Shows k r) t.0 a)

  -- If every image in the cache is one of its key, other requests put in only such images, the base
  -- is rendered rightly and drawing on an image of the base gives one of the map, then a call ends,
  -- answers with an image of the map or an error, and leaves only images of their keys in the
  -- cache; a call that joins another one gets what a run for the same path gave, from a cache of
  -- which the same holds.
  pub generate_static_map-Right :
      (s : StaticMap F M P C) (nocache : Bool) (flight : Flight dec digest g) (gc : Cache)
      → Held dec Shows gc
      → RightFlight s flight
      → Right (path digest g s) (generate_static_map dec digest g s nocache flight gc)
  unfolding generate_static_map
  generate_static_map-Right s nocache flight gc v t =
      let (x, a) = look_up-Held dec Shows nocache final (path digest g s) gc v in
      elim (Option-cases (look_up dec nocache final (path digest g s) gc).1) [
        | inl miss ↦ rw (miss, generate_static_map) (flown s nocache flight _ x t)
        | inr (img, hit) ↦
            rw (hit, generate_static_map)
              (
                ((look_up dec nocache final (path digest g s) gc).0, ok img, true),
                refl,
                x,
                a img hit,
              )
      ]
