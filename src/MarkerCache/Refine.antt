-- ===== src/MarkerCache/Refine.antt =====
-- The marker cache against a list of entries, most recently used first. Additions check the size
-- before they add, so a cache of size 0 holds one entry.
use rampardos.Prelude.{
  ℕ, zero, suc, ◌≤◌, ◌<◌, if◌then◌else◌, ◌≡◌, inl, inr, refl, sym, ap, ◌∙◌, true, false, some, none,
  List, [], ◌∷◌, length, take, length-take, take_of_length-le, Bool-cases, Option-cases, arith, ℤ,
  pos, negsuc, exceeds, reaches,
}
use mathlib.Core.Option
use rampardos.Lru.{Lru, value, store, move_to_front, push}
use rampardos.Lru.Agree.{Agree, empty-Agree, push-Agree}
use rampardos.Lru.Evict.{evict-Agree, shrink-take, shrink_never, take-drop_last}
use rampardos.Lru.Promote.{
  promote, admit, absent_of_find, find-take_of_none, erase_of_none, present, view-promote,
  length-erase, hit-Agree, replace-Agree,
}
use rampardos.Lru.View.{view, drop_last, length-drop_last, find, erase, find_of_none, length-items}
use rampardos.MarkerCache.{
  MarkerImageEntry, CacheIndex, new_cache_index, replace, evict_oldest_marker_image_locked,
  get_marker_image, add_marker_image, set_marker_image_cache_size,
}

-- How many entries a cache of the size holds at most.
abbrev pub room : ℤ → ℕ
room (pos zero) = 1
room (pos (suc n)) = suc n
room (negsuc n) = 1

room-suc : (z : ℤ) → (j : ℕ) × (room z ≡ suc j)
room-suc (pos zero) = (0, refl)
room-suc (pos (suc n)) = (n, refl)
room-suc (negsuc n) = (0, refl)

room_ge : (m n : ℕ) → n ≤ m → n ≤ room (pos m)
room_ge zero n h = omega arith
room_ge (suc m) n h = h

made_room-take :
    {E : Type 0} (z : ℤ) (l : List E)
    → length l ≤ room z
    → reaches (length l) z ≡ true
    → (n : E) → n ∷ drop_last l ≡ take (room z) (n ∷ l)
made_room-take (pos zero) [] b h n = refl
made_room-take (pos zero) (x ∷ []) b h n = refl
made_room-take (pos zero) (x ∷ y ∷ l) b h n = absurd (omega arith)
made_room-take (pos (suc m)) l b h n =
    let full : length l ≡ suc m = ground arith in
    let short : length (drop_last l) ≤ m = omega (arith, length-drop_last l) in
    ap (◌∷◌ n) (sym (take_of_length-le m (drop_last l) short) ∙ take-drop_last m l (omega arith))
made_room-take (negsuc m) [] b h n = refl
made_room-take (negsuc m) (x ∷ []) b h n = refl
made_room-take (negsuc m) (x ∷ y ∷ l) b h n = absurd (omega arith)

fits : {E : Type 0} (z : ℤ) (l : List E) → reaches (length l) z ≡ false → suc (length l) ≤ room z
fits (pos zero) l h = ground arith
fits (pos (suc m)) l h = ground arith
fits (negsuc m) l h = absurd (cc)

module _ {K Img : Type 0} (dec : Discrete K) where
  abbrev pub key : MarkerImageEntry K Img → K
  key e = e.key

  pub record IsValid (c : CacheIndex K Img) : Type 0 where
    pub agree : Agree dec key c.marker_images
    pub bounded : length (view c.marker_images) ≤ room c.marker_images_max

  pub new-IsValid : IsValid new_cache_index
  unfolding new_cache_index
  new-IsValid = record { agree = empty-Agree dec key; bounded = omega arith }

  module _ (c : CacheIndex K Img) (k : K) where
    -- A lookup answers with the image stored under the key, moves its entry to the front, and
    -- reports a hit exactly when it has one.
    pub get-view :
        IsValid c
        → let (c', img, m) = get_marker_image dec k c in
          IsValid c'
          × (view c'.marker_images ≡ promote dec key k (view c.marker_images))
          × (img ≡ Option.map (λ e. e.image) (find dec key k (view c.marker_images)))
          × (c'.marker_images_max ≡ c.marker_images_max)
    unfolding get_marker_image
    get-view v = elim (Option-cases (c.marker_images.entries k)) [
      | inl absent ↦
          let f : find dec key k (view c.marker_images) ≡ none =
            find_of_none dec key c.marker_images k v.agree absent in
          rw (absent, get_marker_image) (v, rw (f, promote), rw f, refl)
      | inr (i, found) ↦
          let (e, w, q, f) = present dec key c.marker_images k i v.agree found in
          rw (found, get_marker_image)
            (
              record {
                agree = hit-Agree dec key c.marker_images k i v.agree found;
                bounded =
                    rw (view-promote dec key c.marker_images k i v.agree found, f, promote)
                      (omega
                        (arith, length-erase dec key c.marker_images k i v.agree found, v.bounded));
              },
              view-promote dec key c.marker_images k i v.agree found,
              rw (w, f),
              refl,
            )
    ]

    module _ (img : Img) (v : IsValid c) where
      abbrev added : MarkerImageEntry K Img
      added = record { key = k; image = img }

      replace_present :
          (i : ℕ) (l : List (ℕ × MarkerImageEntry K Img)) (e : MarkerImageEntry K Img)
          → value i l ≡ some e
          → e.key ≡ k
          → replace i img l ≡ move_to_front i (store i added l)
      unfolding replace
      replace_present i l e w q =
          rw (w, replace)
            (ap (λ j. move_to_front i (store i (record { key = j; image = img }) l)) q)

      -- What an addition to the cache leaves.
      abbrev Added : CacheIndex K Img → Type 0
      Added c' =
          IsValid c'
          × (view c'.marker_images
              ≡ admit dec key (room c.marker_images_max) (record { key = k; image = img })
                  (view c.marker_images))
          × (c'.marker_images_max ≡ c.marker_images_max)

      add_found :
          (i : ℕ) → c.marker_images.entries k ≡ some i → Added (add_marker_image dec k img c)
      unfolding add_marker_image
      add_found i found =
          let (e, w, q, f) = present dec key c.marker_images k i v.agree found in
          let (a, r) = replace-Agree dec key c.marker_images k i v.agree found added refl in
          let short : length (added ∷ erase dec key k (view c.marker_images))
              ≤ room c.marker_images_max =
            omega (arith, length-erase dec key c.marker_images k i v.agree found, v.bounded) in
          let s = replace_present i c.marker_images.lru e w q in
          rw (found, add_marker_image, s)
            (
              record { agree = a; bounded = rw r short },
              r ∙ sym (take_of_length-le (room c.marker_images_max) _ short),
              refl,
            )

      -- The list that an addition pushes to: the oldest entry has made room if there was none.
      abbrev made_room : Lru K (MarkerImageEntry K Img)
      made_room =
          if reaches (length c.marker_images.lru) c.marker_images_max
          then evict_oldest_marker_image_locked dec c.marker_images
          else c.marker_images

      made_room-view :
          Agree dec key made_room
          × (added ∷ view made_room
              ≡ take (room c.marker_images_max) (added ∷ view c.marker_images))
      made_room-view =
          let n = length-items c.marker_images.lru in
          elim (Bool-cases (reaches (length c.marker_images.lru) c.marker_images_max)) [
            | inl full ↦
                let (a, w) = evict-Agree dec key c.marker_images v.agree in
                rw full (
                  a,
                  ap (◌∷◌ added) w
                      ∙ made_room-take c.marker_images_max (view c.marker_images) v.bounded
                          (rw n full) added,
                )
            | inr free ↦ rw free (
              v.agree,
              sym (
                  take_of_length-le _ _
                    (fits c.marker_images_max (view c.marker_images) (rw n free))),
            )
          ]

      add_absent : c.marker_images.entries k ≡ none → Added (add_marker_image dec k img c)
      unfolding add_marker_image push
      add_absent absent =
          let (a, w) = made_room-view in
          let (j, size) = room-suc c.marker_images_max in
          let none_there : find dec key k (view c.marker_images) ≡ none =
            find_of_none dec key c.marker_images k v.agree absent in
          let kept : view made_room ≡ take j (view c.marker_images) =
            cc (w ∙ ap (λ r. take r (added ∷ view c.marker_images)) size) in
          let none_left : find dec key k (view made_room) ≡ none =
            ap (find dec key k) kept
            ∙ find-take_of_none dec key k j (view c.marker_images) none_there in
          let shown : added ∷ view made_room
              ≡ admit dec key (room c.marker_images_max) added (view c.marker_images) =
            w
            ∙ ap (λ l. take (room c.marker_images_max) (added ∷ l))
                (sym (erase_of_none dec key k (view c.marker_images) none_there)) in
          rw (absent, add_marker_image)
            (
              record {
                agree =
                    push-Agree dec key made_room added a
                      (absent_of_find dec key made_room k a none_left);
                bounded = omega (
                  arith,
                  ap length shown,
                  length-take (room c.marker_images_max)
                      (added ∷ erase dec key k (view c.marker_images)),
                );
              },
              shown,
              refl,
            )

  -- Adding a marker image to a valid cache puts it in front under its key, keeps the other entries
  -- in order and drops the last one if there is no room, where a size of 0 has room for one entry.
  pub marker_add-view :
      (c : CacheIndex K Img) (k : K) (img : Img)
      → IsValid c
      → let c' = add_marker_image dec k img c in
        IsValid c'
        × (view c'.marker_images
            ≡ admit dec key
                (room c.marker_images_max)
                (record { key = k; image = img })
                (view c.marker_images))
        × (c'.marker_images_max ≡ c.marker_images_max)
  marker_add-view c k img v = elim (Option-cases (c.marker_images.entries k)) [
    | inl absent ↦ add_absent c k img v absent
    | inr (i, found) ↦ add_found c k img v i found
  ]

  -- Setting the size of a valid cache to a number of at least 0 ends, given more rounds than
  -- entries, and keeps the most recently used entries that fit.
  pub marker_size-view :
      (fuel m : ℕ) (c : CacheIndex K Img)
      → IsValid c
      → length c.marker_images.lru < fuel
      → (c' : CacheIndex K Img) × (set_marker_image_cache_size dec fuel (pos m) c ≡ some c')
        × IsValid c'
        × (view c'.marker_images ≡ take m (view c.marker_images))
        × (c'.marker_images_max ≡ pos m)
  unfolding set_marker_image_cache_size
  marker_size-view fuel m c v enough =
      let (r, s, a, w) =
        shrink-take dec key fuel (λ j. exceeds j (pos m)) m c.marker_images v.agree (λ j. refl)
          enough in
      (
        record { marker_images = r; marker_images_max = pos m },
        rw s,
        record {
          agree = a;
          bounded =
              room_ge m (length (view r))
                (omega (arith, ap length w, length-take m (view c.marker_images)));
        },
        w,
        refl,
      )

  -- Setting a negative size does not end, from any state and with any number of rounds.
  marker_size_negative :
      (fuel n : ℕ) (c : CacheIndex K Img) → set_marker_image_cache_size dec fuel (negsuc n) c ≡ none
  unfolding set_marker_image_cache_size
  marker_size_negative fuel n c = rw (
      shrink_never (evict_oldest_marker_image_locked dec) fuel (λ j. exceeds j (negsuc n))
        c.marker_images (λ j. refl))
