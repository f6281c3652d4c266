-- ===== src/Lru/Agree.antt =====
-- The map and the list of a cache agree, and the operations on both keep them so.
use rampardos.Prelude.{
  ℕ, ◌<◌, ◌==◌, ◌≡◌, ◌≢◌, inl, inr, refl, sym, ap, ◌∙◌, Option, some, none, List, [], ◌∷◌, All,
  Bool-cases, ==_iff, put, delete, put_self, put_ne, delete_ne, arith,
}
use rampardos.Lru.{Lru, empty, value, unlink, store, move_to_front, push, remove}
use rampardos.Lru.Items.{
  Unique, All-map, All-value, value-unlink_ne, value-unlink_self, All-unlink, Unique-unlink,
  value-store, Unique-store, All-store, move_to_front-some, value-move_to_front, All-unlink_ne,
  All-zip, some_eq,
}

module _ {K E : Type 0} (dec : Discrete K) (key : E → K) where
  -- Every key of the map points to an element that holds it, and every element is what the map
  -- has for its key.
  pub record Agree (c : Lru K E) : Type 0 where
    pub pointed :
        (k : K) (i : ℕ) → c.entries k ≡ some i → (e : E) × (value i c.lru ≡ some e) × (key e ≡ k)
    pub listed : All (λ x. c.entries (key x.1) ≡ some x.0) c.lru
    pub unique : Unique c.lru
    pub fresh : All (λ x. x.0 < c.next) c.lru

  fresh_none : (n : ℕ) (l : List (ℕ × E)) → All (λ x. x.0 < n) l → value n l ≡ none
  unfolding value
  fresh_none n [] a = refl
  fresh_none n ((i, e) ∷ l) a =
      let r : value n l ≡ none = fresh_none n l a.1 in let q : i < n = a.0 in ground arith

  pub empty-Agree : Agree empty
  unfolding empty
  empty-Agree = record { pointed = λ k i h. absurd (cc); listed = tt; unique = tt; fresh = tt }

  push_pointed :
      (c : Lru K E) (e : E) (k : K) (i : ℕ)
      → Agree c
      → put dec (key e) c.next c.entries k ≡ some i
      → (d : E) × (value i ((c.next, e) ∷ c.lru) ≡ some d) × (key d ≡ k)
  unfolding put value
  push_pointed c e k i a h = elim (dec k (key e)) [
    | yes p ↦ (e, ground arith, sym p)
    | no p ↦
        let (d, v, q) = a.pointed k i (ground arith) in
        let r : i < c.next = All-value (λ x. x.0 < c.next) i c.lru a.fresh v in (d, ground arith, q)
  ]

  -- `entries[key] = lru.PushFront(e)` for a key that the map does not have.
  pub push-Agree :
      (c : Lru K E) (e : E) → Agree c → c.entries (key e) ≡ none → Agree (push dec (key e) e c)
  unfolding push
  push-Agree c e a absent = record {
    pointed = λ k i h. push_pointed c e k i a h;
    listed = (
      put_self dec (key e) c.next c.entries,
      All-map (λ x. c.entries (key x.1) ≡ some x.0) _
          (λ x h. put_ne dec (key e) c.next c.entries (key x.1) (λ q. cc (ap c.entries q)) ∙ h)
          c.lru a.listed,
    );
    unique = (fresh_none c.next c.lru a.fresh, a.unique);
    fresh = (omega arith, All-map (λ x. x.0 < c.next) _ (λ x h. omega arith) c.lru a.fresh);
  }

  -- An element other than `i` has another key than `i` has.
  listed_delete :
      (m : K → Option ℕ) (k : K) (i : ℕ) (l : List (ℕ × E))
      → m k ≡ some i
      → Unique l
      → All (λ x. m (key x.1) ≡ some x.0) l
      → All (λ x. delete dec k m (key x.1) ≡ some x.0) (unlink i l)
  listed_delete m k i l h u a =
      All-zip (λ x. x.0 ≢ i) (λ x. m (key x.1) ≡ some x.0) _
        (λ x n q. delete_ne dec k m (key x.1) (λ r. n (ground (arith, ap m r))) ∙ q) (unlink i l)
        (All-unlink_ne i l u) (All-unlink _ i l a)

  remove_pointed :
      (c : Lru K E) (i : ℕ) (k j : K) (n : ℕ)
      → Agree c
      → c.entries k ≡ some i
      → delete dec k c.entries j ≡ some n
      → (d : E) × (value n (unlink i c.lru) ≡ some d) × (key d ≡ j)
  unfolding delete
  remove_pointed c i k j n a h g = elim (dec j k) [
    | yes p ↦ absurd (ground arith)
    | no p ↦
        let (d, v, q) = a.pointed j n (ground arith) in
        let (f, w, r) = a.pointed k i h in
        let ne : n ≢ i =
          λ s. p (sym q ∙ ap key (some_eq (sym v ∙ ap (λ t. value t c.lru) s ∙ w)) ∙ r) in
        (d, value-unlink_ne i n c.lru ne ∙ v, q)
  ]

  -- `lru.Remove(elem); delete(entries, key)`.
  pub remove-Agree :
      (c : Lru K E) (i : ℕ) (k : K) → Agree c → c.entries k ≡ some i → Agree (remove dec i k c)
  unfolding remove
  remove-Agree c i k a h = record {
    pointed = λ j n g. remove_pointed c i k j n a h g;
    listed = listed_delete c.entries k i c.lru h a.unique a.listed;
    unique = Unique-unlink i c.lru a.unique;
    fresh = All-unlink _ i c.lru a.fresh;
  }

  pub move_to_front-Agree :
      (c : Lru K E) (i : ℕ) (e : E)
      → Agree c
      → value i c.lru ≡ some e
      → Agree (record c { lru = move_to_front i c.lru })
  move_to_front-Agree c i e a h = record {
    pointed =
        λ k n g. let (d, v, q) = a.pointed k n g in (d, value-move_to_front i n c.lru e h ∙ v, q);
    listed = rw (move_to_front-some i c.lru e h) (
      All-value (λ x. c.entries (key x.1) ≡ some x.0) i c.lru a.listed h,
      All-unlink _ i c.lru a.listed,
    );
    unique =
        rw (move_to_front-some i c.lru e h)
          (value-unlink_self i c.lru a.unique, Unique-unlink i c.lru a.unique);
    fresh =
        rw (move_to_front-some i c.lru e h)
          (All-value (λ x. x.0 < c.next) i c.lru a.fresh h, All-unlink _ i c.lru a.fresh);
  }

  -- `elem.Value = v` for an entry with the same key.
  pub store-Agree :
      (c : Lru K E) (i : ℕ) (e v : E)
      → Agree c
      → value i c.lru ≡ some e
      → key v ≡ key e
      → Agree (record c { lru = store i v c.lru })
  store-Agree c i e v a h s = record {
    pointed = λ k n g. store_pointed k n g (a.pointed k n g);
    listed =
        All-store (λ x. c.entries (key x.1) ≡ some x.0) i v c.lru
          (ap c.entries s ∙ All-value (λ x. c.entries (key x.1) ≡ some x.0) i c.lru a.listed h)
          a.listed;
    unique = Unique-store i v c.lru a.unique;
    fresh =
        All-store (λ x. x.0 < c.next) i v c.lru (All-value (λ x. x.0 < c.next) i c.lru a.fresh h)
          a.fresh;
  }
    where
      store_pointed :
          (k : K) (n : ℕ)
          → c.entries k ≡ some n
          → (d : E) × (value n c.lru ≡ some d) × (key d ≡ k)
          → (d : E) × (value n (store i v c.lru) ≡ some d) × (key d ≡ k)
      store_pointed k n g (d, w, q) = elim (Bool-cases (i == n)) [
        | inl p ↦ (
          v,
          value-store i n v c.lru e h ∙ rw p,
          s ∙ ap key (some_eq (sym h ∙ ap (λ t. value t c.lru) ((==_iff i n).0 p) ∙ w)) ∙ q,
        )
        | inr p ↦ (d, value-store i n v c.lru e h ∙ rw p w, q)
      ]
