-- ===== src/CompositeCache/Additions.antt =====
-- rampardos/internal/services/composite_image_cache.go: `Add`, `SetSize` and `SetMaxBytes`, and what
-- they leave in the cache.
use rampardos.Prelude.{
  ℕ, zero, suc, ◌+◌, ◌≤◌, ◌<◌, ◌≡◌, inl, inr, refl, sym, ap, ◌∙◌, true, false, ◌||◌, some, none,
  List, [], ◌∷◌, length, take, Option-cases, delete, arith, ℤ, pos, negsuc, exceeds, not_positive,
}
use mathlib.Core.Path.{subst₂, subst₃}
use rampardos.Lru.{Lru, empty, value, move_to_front, push}
use rampardos.Lru.Promote.{erase_of_none, present}
use rampardos.Lru.View.{view, erase, find_of_none, length-items}
use rampardos.CompositeCache.{
  CompositeKind, Image, composite_image_bytes, CompositeImageEntry, CompositeImageCache,
  disabled_locked, remove_locked, trim_locked, drop_stale, push_entry, add, set_size, set_max_bytes,
}
use rampardos.CompositeCache.Account.{key, Accounted, remove-Accounted, push-Accounted}
use rampardos.CompositeCache.Trim.{AtMost, Within, Trimmed, trim-Trimmed}
use rampardos.CompositeCache.Refine.{IsValid}

one_fits :
    (me mb : ℤ) (size : ℕ)
    → (not_positive me || not_positive mb) ≡ false
    → exceeds size mb ≡ false
    → AtMost 1 me × AtMost size mb
one_fits (pos zero) mb size h g = absurd (cc)
one_fits (negsuc n) mb size h g = absurd (cc)
one_fits (pos (suc n)) (pos m) size h g = (omega arith, ground arith)
one_fits (pos (suc n)) (negsuc m) size h g = absurd (cc)

module _ {K : Type 0} (dec : Discrete K) where
  stays :
      (me mb : ℤ) (e : CompositeImageEntry K) (l : List (CompositeImageEntry K))
      (c : CompositeImageCache K)
      → Trimmed dec me mb (e ∷ l) c
      → AtMost 1 me × AtMost e.bytes mb
      → (r : List (CompositeImageEntry K)) × (view c.core ≡ e ∷ r)
  stays me mb e l c t f = go t.kept t.prefix t.longest
    where
      go :
          (j : ℕ)
          → view c.core ≡ take j (e ∷ l)
          → (j < length (e ∷ l) → ¬ Within me mb (take (suc j) (e ∷ l)))
          → (r : List (CompositeImageEntry K)) × (view c.core ≡ e ∷ r)
      go zero p n =
          let one : e.bytes + 0 ≡ e.bytes = omega arith in
          absurd (n (omega arith) (f.0, rw one f.1))
      go (suc j) p n = (take j l, p)

  pub length-erase-le :
      (k : K) (l : List (CompositeImageEntry K)) → length (erase dec key k l) ≤ length l
  unfolding erase
  length-erase-le k [] = omega arith
  length-erase-le k (e ∷ l) = ground (arith, length-erase-le k l)

  remove_gone :
      (c : CompositeImageCache K) (i : ℕ) (e : CompositeImageEntry K) (k : K)
      → e.key ≡ k
      → (remove_locked dec i e c).core.entries k ≡ none
  unfolding remove_locked rampardos.Lru.remove delete
  remove_gone c i e k q = ground arith

  -- The element for the key is gone, the rest is untouched.
  pub drop_stale-view :
      (c : CompositeImageCache K) (k : K)
      → Accounted dec c
      → Accounted dec (drop_stale dec k c)
        × (view (drop_stale dec k c).core ≡ erase dec key k (view c.core))
        × ((drop_stale dec k c).core.entries k ≡ none)
        × ((drop_stale dec k c).max_entries ≡ c.max_entries)
        × ((drop_stale dec k c).max_bytes ≡ c.max_bytes)
  unfolding drop_stale remove_locked
  drop_stale-view c k a = elim (Option-cases (c.core.entries k)) [
    | inl h ↦
        let f = erase_of_none dec key k (view c.core) (find_of_none dec key c.core k a.agree h) in
        rw (h, drop_stale) (a, sym f, h, refl, refl)
    | inr (i, h) ↦
        let (e, w, q, f) = present dec key c.core k i a.agree h in
        let (b, v) = remove-Accounted dec c i e a (ap c.core.entries q ∙ h) w in
        rw (h, drop_stale, w)
          (b, v ∙ ap (λ j. erase dec key j (view c.core)) q, remove_gone c i e k q, refl, refl)
  ]

  module _ (fuel : ℕ) (c : CompositeImageCache K) (kind : CompositeKind) (k : K) (img : Image)
      (v : IsValid dec c) (on : disabled_locked c ≡ false) where
    abbrev pub added : CompositeImageEntry K
    added = record { key = k; kind = kind; img = img; bytes = composite_image_bytes img }

    -- An image larger than the byte budget is not cached; a stale entry for its key is dropped.
    pub add_too_large :
        exceeds (composite_image_bytes img) c.max_bytes ≡ true
        → (c' : CompositeImageCache K) × (add dec fuel kind k (some img) c ≡ some c')
          × Accounted dec c'
          × (view c'.core ≡ erase dec key k (view c.core))
    unfolding add
    add_too_large large =
        let (a, w, n, le, lb) = drop_stale-view c k v.accounted in
        (drop_stale dec k c, rw (on, large), a, w)

    add_steps :
        exceeds (composite_image_bytes img) c.max_bytes ≡ false
        → add dec fuel kind k (some img) c
          ≡ trim_locked dec fuel (push_entry dec added (drop_stale dec k c))
    unfolding add
    add_steps small = rw (on, small)

    -- In a valid enabled cache, adding an image that fits the byte budget ends, given more rounds
    -- than entries, and leaves the longest prefix that both limits allow of the list with the new
    -- entry in front and the old one of its key removed, with exact counters.
    pub add-Trimmed :
        exceeds (composite_image_bytes img) c.max_bytes ≡ false
        → length c.core.lru + 1 < fuel
        → (c' : CompositeImageCache K) × (add dec fuel kind k (some img) c ≡ some c')
          × Trimmed dec c.max_entries c.max_bytes (added ∷ erase dec key k (view c.core)) c'
    unfolding push_entry push
    add-Trimmed small enough =
        let (a, w, n, le, lb) = drop_stale-view c k v.accounted in
        let b = push-Accounted dec (drop_stale dec k c) added a n refl in
        let room : suc (length (drop_stale dec k c).core.lru) < fuel = omega (
          arith,
          length-items (drop_stale dec k c).core.lru,
          length-items c.core.lru,
          ap length w,
          length-erase-le k (view c.core),
        ) in
        let (c', r, t) = trim-Trimmed dec fuel (push_entry dec added (drop_stale dec k c)) b room in
        (c', add_steps small ∙ r, subst₃ (λ e m l. Trimmed dec e m l c') le lb (ap (◌∷◌ added) w) t)

  -- In a valid enabled cache, adding an image that fits the byte budget ends, given more rounds
  -- than entries, in a valid cache with the new entry first.
  pub add-IsValid :
      (fuel : ℕ) (c : CompositeImageCache K) (kind : CompositeKind) (k : K) (img : Image)
      → IsValid dec c
      → disabled_locked c ≡ false
      → exceeds (composite_image_bytes img) c.max_bytes ≡ false
      → length c.core.lru + 1 < fuel
      → (c' : CompositeImageCache K) × (add dec fuel kind k (some img) c ≡ some c')
        × IsValid dec c'
        × ((l : List (CompositeImageEntry K)) × (view c'.core
              ≡ record { key = k; kind = kind; img = img; bytes = composite_image_bytes img } ∷ l))
  add-IsValid fuel c kind k img v on small enough =
      let (c', r, t) = add-Trimmed fuel c kind k img v on small enough in
      (
        c',
        r,
        record {
          accounted = t.accounted;
          within =
              subst₂ (λ e m. Within e m (view c'.core)) (sym t.same_entries) (sym t.same_bytes)
                t.within;
        },
        stays c.max_entries c.max_bytes _ (erase dec key k (view c.core)) c' t
            (one_fits c.max_entries c.max_bytes (composite_image_bytes img) on small),
      )

  -- Changing a limit, to any number, ends and keeps the longest prefix that the limits allow.
  pub set_size-Trimmed :
      (fuel : ℕ) (me : ℤ) (c : CompositeImageCache K)
      → Accounted dec c
      → length c.core.lru < fuel
      → (c' : CompositeImageCache K) × (set_size dec fuel me c ≡ some c')
        × Trimmed dec me c.max_bytes (view c.core) c'
  unfolding set_size
  set_size-Trimmed fuel me c a enough =
      trim-Trimmed dec fuel (record c { max_entries = me })
        (record { agree = a.agree; summed = a.summed; kinds = a.kinds; charged = a.charged }) enough

  -- Changing the byte limit of a cache with exact counters to any number ends, given more rounds
  -- than entries, and keeps the longest prefix that the limits allow.
  pub set_max_bytes-Trimmed :
      (fuel : ℕ) (mb : ℤ) (c : CompositeImageCache K)
      → Accounted dec c
      → length c.core.lru < fuel
      → (c' : CompositeImageCache K) × (set_max_bytes dec fuel mb c ≡ some c')
        × Trimmed dec c.max_entries mb (view c.core) c'
  unfolding set_max_bytes
  set_max_bytes-Trimmed fuel mb c a enough =
      trim-Trimmed dec fuel (record c { max_bytes = mb })
        (record { agree = a.agree; summed = a.summed; kinds = a.kinds; charged = a.charged }) enough
