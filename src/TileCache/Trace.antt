-- ===== src/TileCache/Trace.antt =====
-- Any sequence of calls of the tile cache, against a list of entries that has no map and no
-- pointers.
use rampardos.Prelude.{
  ℕ, suc, ◌≡◌, refl, ap, ◌∙◌, Option, some, none, List, [], ◌∷◌, length, take, arith, pos, to_ℕ,
}
use mathlib.Core.Option
use rampardos.Lru.Promote.{promote, admit}
use rampardos.Lru.View.{view, find}
use rampardos.TileCache.{TileImageEntry, TileImageCache, get, add, set_size}
use rampardos.TileCache.Refine.{key, IsValid, get-view, add-view, set_size-view}

pub data Call (K Img : Type 0) : Type 0 where
  look : K → Call K Img
  store : K → Img → Call K Img
  resize : ℕ → Call K Img

module _ {K Img : Type 0} (dec : Discrete K) where
  -- The answers of the lookups, and the last state. Each loop gets one round for every entry.
  unfoldable pub run :
      List (Call K Img) → TileImageCache K Img → Option (TileImageCache K Img × List (Option Img))
  run [] c = some (c, [])
  run (look k ∷ calls) c =
      let (c', img, _) = get dec k c in Option.map (λ r. (r.0, img ∷ r.1)) (run calls c')
  run (store k img ∷ calls) c = elim (add dec (suc (length c.core.lru)) k img c) [
    | none ↦ none
    | some c' ↦ run calls c'
  ]
  run (resize m ∷ calls) c = elim (set_size dec (suc (length c.core.lru)) (pos m) c) [
    | none ↦ none
    | some c' ↦ run calls c'
  ]

  -- The same calls on a list of entries with a size.
  unfoldable pub ideal :
      List (Call K Img)
      → List (TileImageEntry K Img)
      → ℕ
      → List (TileImageEntry K Img) × List (Option Img)
  ideal [] l m = (l, [])
  ideal (look k ∷ calls) l m =
      let (l', answers) = ideal calls (promote dec (key dec) k l) m in
      (l', Option.map (λ e. e.img) (find dec (key dec) k l) ∷ answers)
  ideal (store k img ∷ calls) l m =
      ideal calls (admit dec (key dec) m (record { key = k; img = img }) l) m
  ideal (resize m ∷ calls) l _ = ideal calls (take m l) m

  -- Every sequence of lookups, additions and changes to a size of at least 0, from a valid cache,
  -- ends, gives the answers of a list of the most recently used entries, and leaves the entries of
  -- that list in a valid cache.
  pub run-ideal :
      (calls : List (Call K Img)) (c : TileImageCache K Img)
      → IsValid dec c
      → (c' : TileImageCache K Img) × (run calls c
          ≡ some (c', (ideal calls (view c.core) (to_ℕ c.max_size)).1))
        × IsValid dec c'
        × (view c'.core ≡ (ideal calls (view c.core) (to_ℕ c.max_size)).0)
  unfolding run ideal
  run-ideal [] c v = (c, refl, v, refl)
  run-ideal (look k ∷ calls) c v =
      let (v', w, img, size) = get-view dec c k v in
      let (c', r, u, s) = run-ideal calls (get dec k c).0 v' in
      let same : ideal calls (view (get dec k c).0.core) (to_ℕ (get dec k c).0.max_size)
          ≡ ideal calls (promote dec (key dec) k (view c.core)) (to_ℕ c.max_size) =
        cc (w, size) in
      (
        c',
        rw (r, img)
            (ap (λ t. some (c', Option.map (λ e. e.img) (find dec (key dec) k (view c.core)) ∷ t.1))
              same),
        u,
        s ∙ ap (λ t. t.0) same,
      )
  run-ideal (store k img ∷ calls) c v =
      let (d, added, all) = add-view dec (suc (length c.core.lru)) c k img v (omega arith) in
      let (v', w, size) = all in
      let (c', r, u, s) = run-ideal calls d v' in
      let same : ideal calls (view d.core) (to_ℕ d.max_size)
          ≡ ideal calls
              (admit dec (key dec) (to_ℕ c.max_size) (record { key = k; img = img }) (view c.core))
              (to_ℕ c.max_size) =
        cc (w, size) in
      (c', rw (added, run, r) (ap (λ t. some (c', t.1)) same), u, s ∙ ap (λ t. t.0) same)
  run-ideal (resize m ∷ calls) c v =
      let (d, set, v', w, size) = set_size-view dec (suc (length c.core.lru)) m c v (omega arith) in
      let (c', r, u, s) = run-ideal calls d v' in
      let same : ideal calls (view d.core) (to_ℕ d.max_size)
          ≡ ideal calls (take m (view c.core)) m =
        cc (w, size) in
      (c', rw (set, run, r) (ap (λ t. some (c', t.1)) same), u, s ∙ ap (λ t. t.0) same)
