-- ===== src/CompositeCache/Account.antt =====
-- The byte counters of the composite cache are the sums over its entries.
use rampardos.Prelude.{
  ℕ, ◌+◌, ◌≡◌, inl, inr, sym, ap, ◌∙◌, ite, if_pos, if_neg, some, none, List, [], ◌∷◌, All,
  Option-cases, arith,
}
use rampardos.Lru.{value, unlink, back, push, remove}
use rampardos.Lru.Agree.{Agree, push-Agree, remove-Agree}
use rampardos.Lru.Items.{All-back, value-back}
use rampardos.Lru.Evict.{drop_last_of_none}
use rampardos.Lru.Promote.{present}
use rampardos.Lru.View.{view, items, find, erase, items-unlink, items-unlink-back, drop_last}
use rampardos.CompositeCache.{
  CompositeKind, CompositeKind-discrete, composite_image_bytes, CompositeImageEntry,
  CompositeImageCache, remove_locked, evict_locked, push_entry,
}

module _ {K : Type 0} where
  abbrev pub key : CompositeImageEntry K → K
  key e = e.key

  -- The bytes of the entries, and of those of one kind.
  abbrev pub total : List (CompositeImageEntry K) → ℕ
  total [] = 0
  total (e ∷ l) = e.bytes + total l

  abbrev pub bytes_as : CompositeKind → CompositeImageEntry K → ℕ
  bytes_as k e = ite (CompositeKind-discrete k e.kind) e.bytes 0

  abbrev pub total_of : CompositeKind → List (CompositeImageEntry K) → ℕ
  total_of k [] = 0
  total_of k (e ∷ l) = bytes_as k e + total_of k l

  -- An entry is charged the footprint of its image.
  abbrev pub Charged : CompositeImageEntry K → Type 0
  Charged e = e.bytes ≡ composite_image_bytes e.img

module _ {K : Type 0} (dec : Discrete K) where
  pub record Accounted (c : CompositeImageCache K) : Type 0 where
    pub agree : Agree dec key c.core
    pub summed : c.bytes ≡ total (view c.core)
    pub kinds : (k : CompositeKind) → c.kind_bytes k ≡ total_of k (view c.core)
    pub charged : All Charged (view c.core)

  pub total-erase :
      (k : K) (l : List (CompositeImageEntry K)) (e : CompositeImageEntry K)
      → find dec key k l ≡ some e
      → total (erase dec key k l) + e.bytes ≡ total l
  unfolding find erase
  total-erase k [] e h = absurd (cc)
  total-erase k (d ∷ l) e h = ground (arith, total-erase k l e)

  pub total_of-erase :
      (q : CompositeKind) (k : K) (l : List (CompositeImageEntry K)) (e : CompositeImageEntry K)
      → find dec key k l ≡ some e
      → total_of q (erase dec key k l) + bytes_as q e ≡ total_of q l
  unfolding find erase
  total_of-erase q k [] e h = absurd (cc)
  total_of-erase q k (d ∷ l) e h = ground (arith, total_of-erase q k l e)

  pub All-erase :
      (P : CompositeImageEntry K → Type 0) (k : K) (l : List (CompositeImageEntry K))
      → All P l
      → All P (erase dec key k l)
  unfolding erase
  All-erase P k [] a = tt
  All-erase P k (d ∷ l) a = elim (dec d.key k) [
    | yes p ↦ rw (if_pos (dec d.key k) p l (d ∷ erase dec key k l)) a.1
    | no p ↦ rw (if_neg (dec d.key k) p l (d ∷ erase dec key k l)) (a.0, All-erase P k l a.1)
  ]

  -- Removing an entry subtracts what it was charged.
  pub remove-Accounted :
      (c : CompositeImageCache K) (i : ℕ) (e : CompositeImageEntry K)
      → Accounted c
      → c.core.entries e.key ≡ some i
      → value i c.core.lru ≡ some e
      → Accounted (remove_locked dec i e c)
        × (view (remove_locked dec i e c).core ≡ erase dec key e.key (view c.core))
  unfolding remove_locked remove
  remove-Accounted c i e a h w =
      let (d, v, q, f) = present dec key c.core e.key i a.agree h in
      let same : d ≡ e = cc in
      let there : find dec key e.key (view c.core) ≡ some e = f ∙ ap some same in
      let gone : items (unlink i c.core.lru) ≡ erase dec key e.key (view c.core) =
        items-unlink dec key c.core e.key a.agree i h in
      (
        record {
          agree = remove-Agree dec key c.core i e.key a.agree h;
          summed = rw gone (omega (arith, a.summed, total-erase e.key (view c.core) e there));
          kinds = λ q.
              rw gone (ground (arith, a.kinds q, total_of-erase q e.key (view c.core) e there));
          charged = rw gone (All-erase Charged e.key (view c.core) a.charged);
        },
        gone,
      )

  -- An evicted entry is the last of the list.
  pub evict-Accounted :
      (c : CompositeImageCache K)
      → Accounted c
      → Accounted (evict_locked dec c) × (view (evict_locked dec c).core ≡ drop_last (view c.core))
  unfolding evict_locked
  evict-Accounted c a = elim (Option-cases (back c.core.lru)) [
    | inl h ↦ rw (h, evict_locked) (a, drop_last_of_none c.core.lru h)
    | inr ((i, e), h) ↦
        let held : c.core.entries e.key ≡ some i = All-back _ c.core.lru a.agree.listed h in
        let there : value i c.core.lru ≡ some e = value-back c.core.lru i e a.agree.unique h in
        let (b, v) = remove-Accounted c i e a held there in
        rw (h, evict_locked)
          (
            record { agree = b.agree; summed = b.summed; kinds = b.kinds; charged = b.charged },
            v
                ∙ sym (items-unlink dec key c.core e.key a.agree i held)
                ∙ items-unlink-back c.core.lru i e a.agree.unique h,
          )
  ]

  -- A new entry is added to the counters.
  pub push-Accounted :
      (c : CompositeImageCache K) (e : CompositeImageEntry K)
      → Accounted c
      → c.core.entries e.key ≡ none
      → Charged e
      → Accounted (push_entry dec e c)
  unfolding push_entry push
  push-Accounted c e a h s = record {
    agree = push-Agree dec key c.core e a.agree h;
    summed = omega (arith, a.summed);
    kinds = λ q. ground (arith, a.kinds q);
    charged = (s, a.charged);
  }
