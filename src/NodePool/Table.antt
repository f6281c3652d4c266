-- ===== src/NodePool/Table.antt =====
-- What a reload and a close do to the pools.
use rampardos.Prelude.{
  ℕ, suc, ◌≤◌, ◌==◌, if◌then◌else◌, ◌≡◌, ◌⊎◌, inl, inr, refl, ap, ◌∙◌, ite, Bool, true, false, not,
  ◌&&◌, ◌||◌, Option, some, none, List, [], ◌∷◌, ◌++◌, Bool-cases, arith,
}
use rampardos.NodePool.{
  Renderer, have_pool, nil_map, lookup, member, get_or_create_pool, rebuild, kept_pools, old_pools,
  ids, reload_swap, close,
}

-- A pool that is there, and was made from a number on.
abbrev pub AtLeast : ℕ → Option ℕ → Type 0
AtLeast n none = ⊥
AtLeast n (some p) = n ≤ p

AtLeast-weaken : (n : ℕ) (o : Option ℕ) → AtLeast (suc n) o → AtLeast n o
AtLeast-weaken n none h = h
AtLeast-weaken n (some p) h = omega (arith, h)

module _ {K : Type 0} (k j : K) (loads : K → Bool) (m : Bool) (o before : Option ℕ) (next : ℕ) where
  new_of :
      (d : Dec (k ≡ j))
      → ((m && loads k) ≡ true → AtLeast (suc next) o)
      → ((m && loads k) ≡ false → o ≡ ite d (some next) before)
      → (ite d true m && loads k) ≡ true
      → AtLeast next o
  new_of (yes e) is_new same h = elim (Bool-cases (m && loads k)) [
    | inl t ↦ AtLeast-weaken next o (is_new t)
    | inr f ↦ rw (same f) (omega arith)
  ]
  new_of (no n) is_new same h = AtLeast-weaken next o (is_new h)

  old_of :
      (d : Dec (k ≡ j))
      → loads j ≡ true
      → ((m && loads k) ≡ false → o ≡ ite d (some next) before)
      → (ite d true m && loads k) ≡ false
      → o ≡ before
  old_of (yes e) y same h = absurd (cc (h, y, ap loads e))
  old_of (no n) y same h = same h

  skipped_new :
      (d : Dec (k ≡ j))
      → loads j ≡ false
      → ((m && loads k) ≡ true → AtLeast next o)
      → (ite d true m && loads k) ≡ true
      → AtLeast next o
  skipped_new (yes e) f is_new h = absurd (cc (h, f, ap loads e))
  skipped_new (no n) f is_new h = is_new h

  skipped_old :
      (d : Dec (k ≡ j))
      → ((m && loads k) ≡ false → o ≡ before)
      → (ite d true m && loads k) ≡ false
      → o ≡ before
  skipped_old (yes e) same h = same (ground (arith, h))
  skipped_old (no n) same h = same h

-- What two tables, one behind the other, give for a key.
abbrev first_of : Option ℕ → Option ℕ → Option ℕ
first_of none o = o
first_of (some p) o = some p

first_of_new : (n : ℕ) (o o' : Option ℕ) → AtLeast n o → AtLeast n (first_of o o')
first_of_new n none o' h = absurd h
first_of_new n (some p) o' h = h

module _ {K : Type 0} (dec : Discrete K) where
  lookup-append :
      (k : K) (l m : List (K × ℕ))
      → lookup dec k (l ++ m) ≡ first_of (lookup dec k l) (lookup dec k m)
  unfolding lookup
  lookup-append k [] m = refl
  lookup-append k ((j, p) ∷ l) m = ground (arith, lookup-append k l m)

  -- The pools that stay are those of the keys outside the snapshot.
  lookup-kept :
      (k : K) (active : List K) (pools : List (K × ℕ))
      → lookup dec k (kept_pools dec active pools)
        ≡ (if member dec k active then none else lookup dec k pools)
  unfolding lookup kept_pools
  lookup-kept k active [] = ground arith
  lookup-kept k active ((j, p) ∷ pools) = let ih = lookup-kept k active pools in ground (arith, ih)

  module _ (loads ended : K → Bool) (going : (j : K) → ended j ≡ false) (k : K) where
    -- What a loop to its end has made for a key.
    abbrev pub Made : List K → List (K × ℕ) → ℕ → (List (K × ℕ) × ℕ) × Bool → Type 0
    Made ks made next r =
        (r.1 ≡ true)
        × ((member dec k ks && loads k) ≡ true → AtLeast next (lookup dec k r.0.0))
        × ((member dec k ks && loads k) ≡ false → lookup dec k r.0.0 ≡ lookup dec k made)

    rebuild-Made :
        (ks : List K) (made : List (K × ℕ)) (next : ℕ)
        → Made ks made next (rebuild dec loads ended ks made next)
    unfolding rebuild member lookup
    rebuild-Made [] made next = (refl, λ h. absurd (cc), λ h. refl)
    rebuild-Made (j ∷ ks) made next = elim (Bool-cases (loads j)) [
      | inl y ↦
          let (done, is_new, same) = rebuild-Made ks ((j, next) ∷ made) (suc next) in
          rw (going j, y)
            (
              done,
              new_of k j loads (member dec k ks) _ (lookup dec k made) next (dec k j) is_new same,
              old_of k j loads (member dec k ks) _ (lookup dec k made) next (dec k j) y same,
            )
      | inr n ↦
          let (done, is_new, same) = rebuild-Made ks made next in
          rw (going j, n)
            (
              done,
              skipped_new k j loads (member dec k ks) _ (lookup dec k made) next (dec k j) n is_new,
              skipped_old k j loads (member dec k ks) _ (lookup dec k made) next (dec k j) same,
            )
    ]

  abbrev pub is_in : ℕ → List ℕ → Bool
  is_in p [] = false
  is_in p (q ∷ l) = (p == q) || is_in p l

  is_in-append : (p : ℕ) (l m : List ℕ) → is_in p l ≡ true → is_in p (l ++ m) ≡ true
  is_in-append p [] m h = absurd (cc)
  is_in-append p (q ∷ l) m h = ground (arith, h, is_in-append p l m)

  old_pools-is_in :
      (k : K) (active : List K) (pools : List (K × ℕ)) (p : ℕ)
      → member dec k active ≡ true
      → lookup dec k pools ≡ some p
      → is_in p (old_pools dec active pools) ≡ true
  unfolding lookup old_pools
  old_pools-is_in k active [] p a h = absurd (cc)
  old_pools-is_in k active ((j, q) ∷ pools) p a h =
      let ih = old_pools-is_in k active pools p a in ground (arith, a, h, ih)

  ids-is_in :
      (k : K) (pools : List (K × ℕ)) (p : ℕ)
      → lookup dec k pools ≡ some p
      → is_in p (ids dec pools) ≡ true
  unfolding lookup
  ids-is_in k [] p h = absurd (cc)
  ids-is_in k ((j, q) ∷ pools) p h = let ih = ids-is_in k pools p in ground (arith, h, ih)

  swap_done :
      (active : List K) (r : (List (K × ℕ) × ℕ) × Bool) (npr : Renderer K)
      → r.1 ≡ true
      → reload_swap dec active r npr ≡ record npr {
        pools = r.0.0 ++ kept_pools dec active npr.pools;
        gone = false;
        closed = old_pools dec active npr.pools ++ npr.closed;
        next = r.0.1;
      }
  unfolding reload_swap
  swap_done active ((made, next), true) npr h = refl
  swap_done active ((made, next), false) npr h = absurd (cc)

  swapped :
      (k : K) (active : List K) (made : List (K × ℕ)) (pools : List (K × ℕ))
      → lookup dec k (made ++ kept_pools dec active pools)
        ≡ first_of (lookup dec k made) (if member dec k active then none else lookup dec k pools)
  swapped k active made pools =
      lookup-append k made (kept_pools dec active pools)
      ∙ ap (first_of (lookup dec k made)) (lookup-kept k active pools)

  -- A reload whose context does not end gives each key of its snapshot a pool that is made anew, or
  -- none where the pool cannot be made, keeps the pools of all other keys, and drops no pool from
  -- the table without closing it.
  pub reload_swap-lookup :
      (loads ended : K → Bool) (active : List K) (npr : Renderer K) (next : ℕ) (k : K)
      → ((j : K) → ended j ≡ false)
      → let npr' = reload_swap dec active (rebuild dec loads ended active [] next) npr in
        ((member dec k active && loads k) ≡ true → AtLeast next (lookup dec k npr'.pools))
        × ((member dec k active && not (loads k)) ≡ true → lookup dec k npr'.pools ≡ none)
        × (member dec k active ≡ false → lookup dec k npr'.pools ≡ lookup dec k npr.pools)
        × ((p : ℕ)
            → lookup dec k npr.pools ≡ some p
            → (lookup dec k npr'.pools ≡ some p) ⊎ (is_in p npr'.closed ≡ true))
  unfolding lookup
  reload_swap-lookup loads ended active npr next k going =
      let r = rebuild dec loads ended active [] next in
      let (done, is_new, same) = rebuild-Made loads ended going k active [] next in
      let at_k = swapped k active r.0.0 npr.pools in
      rw (swap_done active r npr done, at_k)
        (
          λ h. first_of_new next _ _ (is_new h),
          λ h.
              let old : (member dec k active && loads k) ≡ false = ground (arith, h) in
              let here : member dec k active ≡ true = ground (arith, h) in rw (same old, here) refl,
          λ h.
              let old : (member dec k active && loads k) ≡ false = ground (arith, h) in
              rw (same old, h) refl,
          λ p h. elim (Bool-cases (member dec k active)) [
            | inl m ↦ inr (is_in-append p _ npr.closed (old_pools-is_in k active npr.pools p m h))
            | inr m ↦
                let old : (member dec k active && loads k) ≡ false = ground (arith, m) in
                inl (rw (same old, m) h)
          ],
        )

  got :
      (known loads : Bool) (key : K) (npr npr' : Renderer K) (p : ℕ)
      → get_or_create_pool dec known loads key npr ≡ have_pool p npr'
      → lookup dec key npr'.pools ≡ some p
  unfolding get_or_create_pool lookup
  got known loads key npr npr' p h = ground (arith, h)

  -- A pool that a request got is the one that the next request for its key gets, whatever happens
  -- on disk.
  pub get_or_create_pool-again :
      (known loads known' loads' : Bool) (key : K) (npr npr' : Renderer K) (p : ℕ)
      → get_or_create_pool dec known loads key npr ≡ have_pool p npr'
      → get_or_create_pool dec known' loads' key npr' ≡ have_pool p npr'
  unfolding get_or_create_pool
  get_or_create_pool-again known loads known' loads' key npr npr' p h =
      rw (got known loads key npr npr' p h, get_or_create_pool) refl

  -- After a close every pool of the table is closed, and a later request for a style that is there
  -- and can be prepared writes to a nil map.
  pub close-nil_map :
      (key : K) (npr : Renderer K)
      → ((k : K) (p : ℕ) → lookup dec k npr.pools ≡ some p → is_in p (close dec npr).closed ≡ true)
        × (get_or_create_pool dec true true key (close dec npr) ≡ nil_map)
  unfolding get_or_create_pool close lookup
  close-nil_map key npr = (λ k p h. is_in-append p _ npr.closed (ids-is_in k npr.pools p h), refl)
