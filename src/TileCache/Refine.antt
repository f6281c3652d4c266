-- ===== src/TileCache/Refine.antt =====
-- The tile cache against a list of entries, most recently used first, bounded by the size.
use rampardos.Prelude.{
  ℕ, zero, suc, ◌≤◌, ◌<◌, ltb, ◌≡◌, inl, inr, refl, sym, ap, ◌∙◌, true, false, Option, some, none,
  List, [], ◌∷◌, length, take, length-take, take_of_length-le, Bool-cases, Option-cases, arith, ℤ,
  pos, negsuc, exceeds, reaches, not_positive, to_ℕ,
}
use mathlib.Core.Option
use rampardos.Lru.{value, store, move_to_front, push}
use rampardos.Lru.Agree.{Agree, empty-Agree, push-Agree}
use rampardos.Lru.Evict.{shrink-take, shrink_never}
use rampardos.Lru.Promote.{
  promote, admit, absent_of_find, find-take_of_none, erase_of_none, present, view-promote,
  length-erase, hit-Agree, replace-Agree,
}
use rampardos.Lru.View.{view, find, erase, find_of_none}
use rampardos.TileCache.{
  TileImageEntry, TileImageCache, Metric, hit, miss, new_tile_image_cache, replace,
  evict_oldest_locked, get, add, set_size,
}

enabled_size : (z : ℤ) → not_positive z ≡ false → (m : ℕ) × (z ≡ pos (suc m))
enabled_size (pos zero) h = absurd (cc)
enabled_size (pos (suc m)) h = (m, refl)
enabled_size (negsuc m) h = absurd (cc)

disabled_size : (z : ℤ) → not_positive z ≡ true → to_ℕ z ≡ 0
disabled_size (pos zero) h = refl
disabled_size (pos (suc m)) h = absurd (cc)
disabled_size (negsuc m) h = refl

reaches-suc : (m j : ℕ) → reaches j (pos (suc m)) ≡ ltb m j
reaches-suc m j = ground arith

module _ {K Img : Type 0} (dec : Discrete K) where
  abbrev pub key : TileImageEntry K Img → K
  key e = e.key

  -- The map and the list agree, and the list is not longer than the size.
  pub record IsValid (c : TileImageCache K Img) : Type 0 where
    pub agree : Agree dec key c.core
    pub bounded : length (view c.core) ≤ to_ℕ c.max_size

  pub new-IsValid : (size : ℤ) → IsValid (new_tile_image_cache size)
  unfolding new_tile_image_cache
  new-IsValid size = record { agree = empty-Agree dec key; bounded = omega arith }

  disabled_empty :
      (c : TileImageCache K Img) → IsValid c → not_positive c.max_size ≡ true → view c.core ≡ []
  disabled_empty c v h = go c.max_size (view c.core) h v.bounded
    where
      go :
          (z : ℤ) (l : List (TileImageEntry K Img))
          → not_positive z ≡ true
          → length l ≤ to_ℕ z
          → l ≡ []
      go z [] h b = refl
      go (pos zero) (x ∷ l) h b = absurd (omega arith)
      go (pos (suc n)) (x ∷ l) h b = absurd (cc)
      go (negsuc n) (x ∷ l) h b = absurd (omega arith)

  module _ (c : TileImageCache K Img) (k : K) where
    get_off : not_positive c.max_size ≡ true → get dec k c ≡ (c, none, none)
    unfolding get
    get_off off = rw off

    get_absent :
        not_positive c.max_size ≡ false
        → c.core.entries k ≡ none
        → get dec k c ≡ (c, none, some miss)
    unfolding get
    get_absent on absent = rw (on, absent)

    get_found :
        (i : ℕ)
        → not_positive c.max_size ≡ false
        → c.core.entries k ≡ some i
        → get dec k c ≡ (
          record c { core = record (c.core) { lru = move_to_front i c.core.lru } },
          Option.map (λ e. e.img) (value i c.core.lru),
          some hit,
        )
    unfolding get
    get_found i on found = rw (on, found)

  -- What a lookup answers: the image stored under the key, the list with its entry in front, and
  -- a hit or a miss for the metrics unless the cache is disabled.
  abbrev pub Looked :
      K → TileImageCache K Img → TileImageCache K Img × Option Img × Option Metric → Type 0
  Looked k c r =
      IsValid r.0
      × (view r.0.core ≡ promote dec key k (view c.core))
      × (r.1 ≡ Option.map (λ e. e.img) (find dec key k (view c.core)))
      × (r.0.max_size ≡ c.max_size)

  pub get-view : (c : TileImageCache K Img) (k : K) → IsValid c → Looked k c (get dec k c)
  unfolding find
  get-view c k v = elim (Bool-cases (not_positive c.max_size)) [
    | inl off ↦
        let e : view c.core ≡ [] = disabled_empty c v off in
        rw (get_off c k off) (
          v,
          e ∙ sym (ap (promote dec key k) e),
          sym (ap (λ l. Option.map (λ e. e.img) (find dec key k l)) e),
          refl,
        )
    | inr on ↦ elim (Option-cases (c.core.entries k)) [
      | inl absent ↦
          let f : find dec key k (view c.core) ≡ none =
            find_of_none dec key c.core k v.agree absent in
          rw (get_absent c k on absent) (v, rw (f, promote), rw f, refl)
      | inr (i, found) ↦
          let (e, w, q, f) = present dec key c.core k i v.agree found in
          rw (get_found c k i on found) (
            record {
              agree = hit-Agree dec key c.core k i v.agree found;
              bounded =
                  rw (view-promote dec key c.core k i v.agree found, f, promote)
                    (omega (arith, length-erase dec key c.core k i v.agree found, v.bounded));
            },
            view-promote dec key c.core k i v.agree found,
            rw (w, f),
            refl,
          )
    ]
  ]

  -- A cache holds the entry that was just added, in front of the others that fit.
  abbrev pub Added : K → Img → TileImageCache K Img → TileImageCache K Img → Type 0
  Added k img c c' =
      IsValid c'
      × (view c'.core
          ≡ admit dec key (to_ℕ c.max_size) (record { key = k; img = img }) (view c.core))
      × (c'.max_size ≡ c.max_size)

  module _ (fuel : ℕ) (c : TileImageCache K Img) (k : K) (img : Img) (v : IsValid c) where
    add_off :
        not_positive c.max_size ≡ true
        → (c' : TileImageCache K Img) × (add dec fuel k img c ≡ some c') × Added k img c c'
    unfolding add
    add_off off = (c, rw off, (v, rw (disabled_size c.max_size off) (disabled_empty c v off), refl))

    replace_present :
        (i : ℕ) (l : List (ℕ × TileImageEntry K Img)) (e : TileImageEntry K Img)
        → value i l ≡ some e
        → e.key ≡ k
        → replace i img l ≡ move_to_front i (store i (record { key = k; img = img }) l)
    unfolding replace
    replace_present i l e w q =
        rw (w, replace) (ap (λ j. move_to_front i (store i (record { key = j; img = img }) l)) q)

    add_found :
        (i : ℕ)
        → not_positive c.max_size ≡ false
        → c.core.entries k ≡ some i
        → (c' : TileImageCache K Img) × (add dec fuel k img c ≡ some c') × Added k img c c'
    unfolding add
    add_found i on found =
        let (e, w, q, f) = present dec key c.core k i v.agree found in
        let n : TileImageEntry K Img = record { key = k; img = img } in
        let (a, r) = replace-Agree dec key c.core k i v.agree found n refl in
        let fits : length (n ∷ erase dec key k (view c.core)) ≤ to_ℕ c.max_size =
          omega (arith, length-erase dec key c.core k i v.agree found, v.bounded) in
        let s = replace_present i c.core.lru e w q in
        (
          record c { core = record (c.core) { lru = move_to_front i (store i n c.core.lru) } },
          rw (on, found) (ap (λ l. some (record c { core = record (c.core) { lru = l } })) s),
          (
            record { agree = a; bounded = rw r fits },
            r ∙ sym (take_of_length-le (to_ℕ c.max_size) _ fits),
            refl,
          ),
        )

    add_absent :
        not_positive c.max_size ≡ false
        → c.core.entries k ≡ none
        → length c.core.lru < fuel
        → (c' : TileImageCache K Img) × (add dec fuel k img c ≡ some c') × Added k img c c'
    unfolding add push
    add_absent on absent enough =
        let n : TileImageEntry K Img = record { key = k; img = img } in
        let (m, z) = enabled_size c.max_size on in
        let (r, s, a, w) =
          shrink-take dec key fuel (λ j. reaches j c.max_size) m c.core v.agree
            (λ j. ap (reaches j) z ∙ reaches-suc m j) enough in
        let none_there : find dec key k (view c.core) ≡ none =
          find_of_none dec key c.core k v.agree absent in
        let none_left : find dec key k (view r) ≡ none =
          ap (find dec key k) w ∙ find-take_of_none dec key k m (view c.core) none_there in
        let shown : n ∷ view r ≡ admit dec key (suc m) n (view c.core) =
          ap (◌∷◌ n) (w ∙ ap (take m) (sym (erase_of_none dec key k (view c.core) none_there))) in
        let size : to_ℕ c.max_size ≡ suc m = ap to_ℕ z in
        (
          record c { core = push dec k n r },
          rw (on, absent, s),
          (
            record {
              agree = push-Agree dec key r n a (absent_of_find dec key r k a none_left);
              bounded = omega (
                arith,
                ap length shown,
                length-take (suc m) (n ∷ erase dec key k (view c.core)),
                size,
              );
            },
            shown ∙ ap (λ j. admit dec key j n (view c.core)) (sym size),
            refl,
          ),
        )

    pub add-view :
        length c.core.lru < fuel
        → (c' : TileImageCache K Img) × (add dec fuel k img c ≡ some c') × Added k img c c'
    add-view enough = elim (Bool-cases (not_positive c.max_size)) [
      | inl off ↦ add_off off
      | inr on ↦ elim (Option-cases (c.core.entries k)) [
        | inl absent ↦ add_absent on absent enough
        | inr (i, found) ↦ add_found i on found
      ]
    ]

  -- Setting a size of at least 0 keeps the most recently used entries that fit.
  pub set_size-view :
      (fuel m : ℕ) (c : TileImageCache K Img)
      → IsValid c
      → length c.core.lru < fuel
      → (c' : TileImageCache K Img) × (set_size dec fuel (pos m) c ≡ some c')
        × IsValid c'
        × (view c'.core ≡ take m (view c.core))
        × (c'.max_size ≡ pos m)
  unfolding set_size
  set_size-view fuel m c v enough =
      let (r, s, a, w) =
        shrink-take dec key fuel (λ j. exceeds j (pos m)) m c.core v.agree (λ j. refl) enough in
      (
        record { core = r; max_size = pos m },
        rw s,
        record { agree = a; bounded = omega (arith, ap length w, length-take m (view c.core)) },
        w,
        refl,
      )

  -- Setting a negative size does not end, from any state and with any number of rounds.
  pub set_size_negative :
      (fuel n : ℕ) (c : TileImageCache K Img) → set_size dec fuel (negsuc n) c ≡ none
  unfolding set_size
  set_size_negative fuel n c =
      rw
        (shrink_never (evict_oldest_locked dec) fuel (λ j. exceeds j (negsuc n)) c.core (λ j. refl))
