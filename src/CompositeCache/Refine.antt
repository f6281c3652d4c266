-- ===== src/CompositeCache/Refine.antt =====
-- The lookups of the composite cache against a list of entries, most recently used first, and
-- the invariant that the counters are exact and both limits hold.
use rampardos.Prelude.{
  ◌≡◌, inl, inr, refl, false, Option, some, none, List, [], ◌∷◌, All, length, Option-cases, arith,
  ℤ,
}
use mathlib.Core.Option
use rampardos.Lru.Agree.{empty-Agree}
use rampardos.Lru.Promote.{promote, present, view-promote, length-erase, hit-Agree}
use rampardos.Lru.View.{view, find, find_of_none}
use rampardos.CompositeCache.{
  CompositeKind, Image, CompositeImageEntry, CompositeImageCache, new_composite_image_cache,
  disabled_locked, lookup_locked, get, recheck, is_ok,
}
use rampardos.CompositeCache.Account.{
  key, total, total_of, Charged, Accounted, total-erase, total_of-erase, All-erase,
}
use rampardos.CompositeCache.Trim.{Within}

module _ {K : Type 0} (dec : Discrete K) where
  pub record IsValid (c : CompositeImageCache K) : Type 0 where
    pub accounted : Accounted dec c
    pub within : Within c.max_entries c.max_bytes (view c.core)

  pub new-IsValid : (me mb : ℤ) → IsValid (new_composite_image_cache me mb)
  unfolding new_composite_image_cache
  new-IsValid me mb = record {
    accounted = record {
      agree = empty-Agree dec key;
      summed = refl;
      kinds = λ k. refl;
      charged = tt;
    };
    within = tt;
  }

  total-promote : (k : K) (l : List (CompositeImageEntry K)) → total (promote dec key k l) ≡ total l
  total-promote k l = elim (Option-cases (find dec key k l)) [
    | inl h ↦ rw (h, promote)
    | inr (e, h) ↦ rw (h, promote) (omega (arith, total-erase dec k l e h))
  ]

  total_of-promote :
      (q : CompositeKind) (k : K) (l : List (CompositeImageEntry K))
      → total_of q (promote dec key k l) ≡ total_of q l
  total_of-promote q k l = elim (Option-cases (find dec key k l)) [
    | inl h ↦ rw (h, promote)
    | inr (e, h) ↦ rw (h, promote) (omega (arith, total_of-erase dec q k l e h))
  ]

  pub All-find :
      (P : CompositeImageEntry K → Type 0) (k : K) (l : List (CompositeImageEntry K))
      (e : CompositeImageEntry K)
      → All P l
      → find dec key k l ≡ some e
      → P e
  unfolding find
  All-find P k [] e a h = absurd (cc)
  All-find P k (d ∷ l) e a h = elim (dec d.key k) [
    | yes p ↦ let q : e ≡ d = ground arith in rw q a.0
    | no p ↦ All-find P k l e a.1 (ground arith)
  ]

  -- What a lookup answers.
  abbrev pub Looked : K → CompositeImageCache K → CompositeImageCache K × Option Image → Type 0
  Looked k c r =
      IsValid r.0
      × (view r.0.core ≡ promote dec key k (view c.core))
      × (r.1 ≡ Option.map (λ e. e.img) (find dec key k (view c.core)))

  Within-same :
      (me mb : ℤ) (l m : List (CompositeImageEntry K))
      → length m ≡ length l
      → total m ≡ total l
      → Within me mb l
      → Within me mb m
  Within-same me mb l [] n t w = tt
  Within-same me mb [] (e ∷ m) n t w = absurd (omega arith)
  Within-same me mb (d ∷ l) (e ∷ m) n t w = (rw n w.0, rw t w.1)

  -- A lookup keeps the counters exact, whatever the limits.
  pub lookup-Accounted :
      (c : CompositeImageCache K) (k : K)
      → Accounted dec c
      → Accounted dec (lookup_locked dec k c).0
        × (view (lookup_locked dec k c).0.core ≡ promote dec key k (view c.core))
        × ((lookup_locked dec k c).1 ≡ Option.map (λ e. e.img) (find dec key k (view c.core)))
        × (length (promote dec key k (view c.core)) ≡ length (view c.core))
        × ((lookup_locked dec k c).0.max_entries ≡ c.max_entries)
        × ((lookup_locked dec k c).0.max_bytes ≡ c.max_bytes)
  unfolding lookup_locked
  lookup-Accounted c k a = elim (Option-cases (c.core.entries k)) [
    | inl absent ↦
        let f : find dec key k (view c.core) ≡ none =
          find_of_none dec key c.core k a.agree absent in
        rw (absent, lookup_locked) (a, rw (f, promote), rw f, rw (f, promote), refl, refl)
    | inr (i, found) ↦
        let (e, w, q, f) = present dec key c.core k i a.agree found in
        let moved = view-promote dec key c.core k i a.agree found in
        let n = length-erase dec key c.core k i a.agree found in
        rw (found, lookup_locked)
          (
            record {
              agree = hit-Agree dec key c.core k i a.agree found;
              summed = rw (moved, total-promote k (view c.core)) a.summed;
              kinds = λ j. rw (moved, total_of-promote j k (view c.core)) (a.kinds j);
              charged =
                  rw (moved, f, promote)
                    (
                      All-find Charged k (view c.core) e a.charged f,
                      All-erase dec Charged k (view c.core) a.charged,
                    );
            },
            moved,
            rw (w, f),
            rw (f, promote) n,
            refl,
            refl,
          )
  ]

  pub lookup-view :
      (c : CompositeImageCache K) (k : K) → IsValid c → Looked k c (lookup_locked dec k c)
  lookup-view c k v =
      let (a, moved, answer, same_length, same_entries, same_bytes) =
        lookup-Accounted c k v.accounted in
      (
        record {
          accounted = a;
          within =
              rw (moved, same_entries, same_bytes)
                (Within-same c.max_entries c.max_bytes (view c.core)
                  (promote dec key k (view c.core)) same_length (total-promote k (view c.core))
                  v.within);
        },
        moved,
        answer,
      )

  pub get_on :
      (c : CompositeImageCache K) (kind : CompositeKind) (k : K)
      → disabled_locked c ≡ false
      → get dec kind k c ≡ (
        (lookup_locked dec k c).0,
        (lookup_locked dec k c).1,
        some (kind, is_ok (lookup_locked dec k c).1),
      )
  unfolding get
  get_on c kind k on = rw on

  pub recheck_on :
      (c : CompositeImageCache K) (k : K)
      → disabled_locked c ≡ false
      → recheck dec k c ≡ lookup_locked dec k c
  unfolding recheck
  recheck_on c k on = rw on

  -- A second look in a valid enabled cache answers with the image stored under the key and moves
  -- its entry to the front; a first look does the same and counts a hit of its kind exactly when it
  -- has an image.
  pub lookups-view :
      (c : CompositeImageCache K) (kind : CompositeKind) (k : K)
      → IsValid c
      → disabled_locked c ≡ false
      → Looked k c (recheck dec k c)
        × (((get dec kind k c).0, (get dec kind k c).1) ≡ recheck dec k c)
        × ((get dec kind k c).2 ≡ some (kind, is_ok (get dec kind k c).1))
  lookups-view c kind k v on =
      rw (get_on c kind k on, recheck_on c k on) (lookup-view c k v, refl, refl)
