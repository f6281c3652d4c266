-- ===== src/CompositeCache/Content.antt =====
-- rampardos/internal/services/composite_image_cache.go: what its users may rely on. Every image in
-- the cache is one that belongs to its key, if only such images are added.
use rampardos.Prelude.{
  ℕ, zero, suc, ◌+◌, ◌<◌, ◌≡◌, inl, inr, refl, sym, ap, ◌∙◌, Option, some, none, List, [], ◌∷◌, All,
  length, take, Bool-cases, Option-cases, arith, ℤ, exceeds,
}
use mathlib.Core.Option
use mathlib.Core.Path.{subst₂}
use rampardos.Lru.{push}
use rampardos.Lru.View.{view, find, length-items}
use rampardos.Lru.Promote.{promote, find-key}
use rampardos.CompositeCache.{
  CompositeKind, Image, composite_image_bytes, CompositeImageEntry, CompositeImageCache,
  disabled_locked, trim_locked, drop_stale, lookup_locked, get, recheck, push_entry, add, set_size,
}
use rampardos.CompositeCache.Account.{key, Accounted, All-erase, push-Accounted}
use rampardos.CompositeCache.Trim.{Trimmed, trim-Trimmed}
use rampardos.CompositeCache.Refine.{All-find, lookup-Accounted, get_on, recheck_on}
use rampardos.CompositeCache.Additions.{drop_stale-view, length-erase-le, set_size-Trimmed}

All-take {ℓ κ} : {E : Type ℓ} (P : E → Type κ) (n : ℕ) (l : List E) → All P l → All P (take n l)
All-take P zero l a = tt
All-take P (suc n) [] a = tt
All-take P (suc n) (e ∷ l) a = (a.0, All-take P n l a.1)

module _ {K : Type 0} (dec : Discrete K) (Shows : K → Image → Type 0) where
  abbrev pub Belongs : CompositeImageEntry K → Type 0
  Belongs e = Shows e.key e.img

  -- The counters are exact, and every entry shows what its key stands for.
  pub record Content (c : CompositeImageCache K) : Type 0 where
    pub accounted : Accounted dec c
    pub shown : All Belongs (view c.core)

  All-promote :
      (k : K) (l : List (CompositeImageEntry K)) → All Belongs l → All Belongs (promote dec key k l)
  All-promote k l a = elim (Option-cases (find dec key k l)) [
    | inl h ↦ rw (h, promote) a
    | inr (e, h) ↦ rw (h, promote) (All-find dec Belongs k l e a h, All-erase dec Belongs k l a)
  ]

  found-Shows :
      (k : K) (l : List (CompositeImageEntry K)) (img : Image)
      → All Belongs l
      → Option.map (λ e. e.img) (find dec key k l) ≡ some img
      → Shows k img
  found-Shows k l img a h = elim (Option-cases (find dec key k l)) [
    | inl gone ↦ absurd (ground (arith, gone, h))
    | inr (e, there) ↦
        let belongs = All-find dec Belongs k l e a there in
        let same_key = find-key dec key k l e there in
        let same_image : e.img ≡ img = ground (arith, there, h) in
        subst₂ Shows same_key same_image belongs
  ]

  -- What a look under a key leaves and answers.
  abbrev pub Seen : K → CompositeImageCache K → CompositeImageCache K × Option Image → Type 0
  Seen k c r = Content r.0 × ((img : Image) → r.1 ≡ some img → Shows k img)

  lookup-Seen : (k : K) (c : CompositeImageCache K) → Content c → Seen k c (lookup_locked dec k c)
  lookup-Seen k c v =
      let (a, moved, answer, _, _, _) = lookup-Accounted dec c k v.accounted in
      (
        record { accounted = a; shown = rw moved (All-promote k (view c.core) v.shown) },
        λ img h. found-Shows k (view c.core) img v.shown (sym answer ∙ h),
      )

  pub get-Seen :
      (kind : CompositeKind) (k : K) (c : CompositeImageCache K)
      → Content c
      → Seen k c ((get dec kind k c).0, (get dec kind k c).1)
  unfolding get
  get-Seen kind k c v = elim (Bool-cases (disabled_locked c)) [
    | inl off ↦ rw (off, get) (v, λ img h. absurd (ground arith))
    | inr on ↦ rw (get_on dec c kind k on) (lookup-Seen k c v)
  ]

  pub recheck-Seen : (k : K) (c : CompositeImageCache K) → Content c → Seen k c (recheck dec k c)
  unfolding recheck
  recheck-Seen k c v = elim (Bool-cases (disabled_locked c)) [
    | inl off ↦ rw (off, recheck) (v, λ img h. absurd (ground arith))
    | inr on ↦ rw (recheck_on dec c k on) (lookup-Seen k c v)
  ]

  Trimmed-Content :
      (me mb : ℤ) (l : List (CompositeImageEntry K)) (c : CompositeImageCache K)
      → Trimmed dec me mb l c
      → All Belongs l
      → Content c
  Trimmed-Content me mb l c t a = record {
    accounted = t.accounted;
    shown = rw t.prefix (All-take Belongs t.kept l a);
  }

  room :
      (fuel : ℕ) (c : CompositeImageCache K) (k : K)
      → Accounted dec c
      → length c.core.lru + 1 < fuel
      → length (drop_stale dec k c).core.lru + 1 < fuel
  room fuel c k v enough =
      let (a, w, gone, le, lb) = drop_stale-view dec c k v in
      omega (
        arith,
        length-items (drop_stale dec k c).core.lru,
        length-items c.core.lru,
        ap length w,
        length-erase-le dec k (view c.core),
      )

  pushed :
      (fuel : ℕ) (k : K) (entry : CompositeImageEntry K) (c : CompositeImageCache K)
      → Accounted dec c
      → c.core.entries entry.key ≡ none
      → entry.bytes ≡ composite_image_bytes entry.img
      → length c.core.lru + 1 < fuel
      → (r : CompositeImageCache K) × (trim_locked dec fuel (push_entry dec entry c) ≡ some r)
        × Trimmed dec c.max_entries c.max_bytes (entry ∷ view c.core) r
  unfolding push_entry push
  pushed fuel k entry c a gone charged enough =
      trim-Trimmed dec fuel (push_entry dec entry c) (push-Accounted dec c entry a gone charged)
        (omega arith)

  -- Adding an image that belongs to its key ends, whatever the limits.
  pub add-Content :
      (fuel : ℕ) (kind : CompositeKind) (k : K) (img : Image) (c : CompositeImageCache K)
      → Content c
      → Shows k img
      → length c.core.lru + 1 < fuel
      → (r : CompositeImageCache K) × (add dec fuel kind k (some img) c ≡ some r) × Content r
  unfolding add
  add-Content fuel kind k img c v s enough =
      let size = composite_image_bytes img in
      let entry : CompositeImageEntry K = record {
        key = k;
        kind = kind;
        img = img;
        bytes = size;
      } in
      let kept = drop_stale dec k c in
      let (a, w, gone, le, lb) = drop_stale-view dec c k v.accounted in
      let rest = All-erase dec Belongs k (view c.core) v.shown in
      elim (Bool-cases (disabled_locked c)) [
        | inl off ↦ (c, rw off refl, v)
        | inr on ↦ elim (Bool-cases (exceeds size c.max_bytes)) [
          | inl large ↦ (kept, rw (on, large) refl, record { accounted = a; shown = rw w rest })
          | inr small ↦
              let (r, e, t) =
                pushed fuel k entry kept a gone refl (room fuel c k v.accounted enough) in
              (r, rw (on, small) e, Trimmed-Content _ _ _ r t (s, rw w rest))
        ]
      ]

  -- Changing the size ends, and keeps only what was there.
  pub set_size-Content :
      (fuel : ℕ) (me : ℤ) (c : CompositeImageCache K)
      → Content c
      → length c.core.lru < fuel
      → (r : CompositeImageCache K) × (set_size dec fuel me c ≡ some r) × Content r
  set_size-Content fuel me c v enough =
      let (r, e, t) = set_size-Trimmed dec fuel me c v.accounted enough in
      (r, e, Trimmed-Content me c.max_bytes (view c.core) r t v.shown)
