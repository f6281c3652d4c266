-- ===== src/CompositeCache/Trim.antt =====
-- The loop of `trimLocked` ends, and keeps as many of the most recent entries as the limits allow.
use rampardos.Prelude.{
  ℕ, zero, suc, ◌≤◌, ◌<◌, ltb, ◌≡◌, inl, inr, refl, sym, ap, ◌∙◌, Bool, true, false, ◌&&◌, ◌||◌,
  some, List, [], ◌∷◌, length, take, take_of_length-le, Bool-cases, Option-cases, dec_lt, arith, ℤ,
  pos, negsuc, exceeds,
}
use mathlib.Core.Path.{subst₃}
use rampardos.Lru.{back}
use rampardos.Lru.View.{view, drop_last, length-items, length-drop_last}
use rampardos.Lru.Evict.{take-drop_last}
use rampardos.CompositeCache.{
  CompositeImageEntry, CompositeImageCache, evict_locked, over_limits, trim_locked,
}
use rampardos.CompositeCache.Account.{total, Accounted, evict-Accounted}

-- `n <= z`
abbrev pub AtMost : ℕ → ℤ → Type 0
AtMost n (pos m) = n ≤ m
AtMost n (negsuc m) = ⊥

-- What the limits allow: nothing, or entries within both limits.
abbrev pub Within : {K : Type 0} → ℤ → ℤ → List (CompositeImageEntry K) → Type 0
Within me mb [] = Unit
Within me mb (e ∷ l) = AtMost (length (e ∷ l)) me × AtMost (total (e ∷ l)) mb

exceeds-AtMost : (n : ℕ) (z : ℤ) → exceeds n z ≡ false → AtMost n z
exceeds-AtMost n (pos m) h = ground arith
exceeds-AtMost n (negsuc m) h = absurd (cc)

not-AtMost : (n : ℕ) (z : ℤ) → exceeds n z ≡ true → ¬ AtMost n z
not-AtMost n (pos m) h = ground arith
not-AtMost n (negsuc m) h = λ b. b

module _ {K : Type 0} (me mb : ℤ) where
  abbrev over : List (CompositeImageEntry K) → Bool
  over l = ltb 0 (length l) && (exceeds (length l) me || exceeds (total l) mb)

  over-Within : (l : List (CompositeImageEntry K)) → over l ≡ false → Within me mb l
  over-Within [] h = tt
  over-Within (e ∷ l) h = (
    exceeds-AtMost (length (e ∷ l)) me (ground arith),
    exceeds-AtMost (total (e ∷ l)) mb (ground arith),
  )

  not-Within : (l : List (CompositeImageEntry K)) → over l ≡ true → ¬ Within me mb l
  not-Within [] h = absurd (ground arith)
  not-Within (e ∷ l) h = λ w. elim (Bool-cases (exceeds (length (e ∷ l)) me)) [
    | inl p ↦ not-AtMost (length (e ∷ l)) me p w.0
    | inr p ↦ not-AtMost (total (e ∷ l)) mb (ground arith) w.1
  ]

take-take-suc :
    {E : Type 0} (j : ℕ) (l : List E)
    → j < length (drop_last l)
    → take (suc j) (drop_last l) ≡ take (suc j) l
take-take-suc j l h = take-drop_last (suc j) l (omega (arith, length-drop_last l))

take-drop_last_of_le :
    {E : Type 0} (j : ℕ) (l : List E)
    → 0 < length l
    → j ≤ length (drop_last l)
    → take j (drop_last l) ≡ take j l
take-drop_last_of_le j l p h = take-drop_last j l (omega (arith, length-drop_last l))

lt_of_over : {K : Type 0} (c : CompositeImageCache K) → over_limits c ≡ true → 0 < length c.core.lru
lt_of_over c h = ground arith

module _ {K : Type 0} (dec : Discrete K) where
  -- The cache holds the longest prefix of the list that the limits allow, and has the limits.
  pub record Trimmed (me mb : ℤ) (l : List (CompositeImageEntry K)) (c : CompositeImageCache K)
      : Type 0 where
    pub accounted : Accounted dec c
    pub within : Within me mb (view c.core)
    pub kept : ℕ
    pub kept-le : kept ≤ length l
    pub prefix : view c.core ≡ take kept l
    pub longest : kept < length l → ¬ Within me mb (take (suc kept) l)
    pub same_entries : c.max_entries ≡ me
    pub same_bytes : c.max_bytes ≡ mb

  evict-limits :
      (c : CompositeImageCache K)
      → ((evict_locked dec c).max_entries ≡ c.max_entries)
        × ((evict_locked dec c).max_bytes ≡ c.max_bytes)
  unfolding evict_locked rampardos.CompositeCache.remove_locked
  evict-limits c = elim (Option-cases (back c.core.lru)) [
    | inl h ↦ rw (h, evict_locked) (refl, refl)
    | inr (x, h) ↦ rw (h, evict_locked) (refl, refl)
  ]

  over-same :
      (c : CompositeImageCache K)
      → Accounted dec c
      → over_limits c ≡ over c.max_entries c.max_bytes (view c.core)
  over-same c a = rw (length-items c.core.lru, ← a.summed) refl

  Trimmed-drop_last :
      (me mb : ℤ) (l : List (CompositeImageEntry K)) (c : CompositeImageCache K)
      → over me mb l ≡ true
      → Trimmed me mb (drop_last l) c
      → Trimmed me mb l c
  Trimmed-drop_last me mb l c h t =
      let some_left : 0 < length l = ground arith in
      let fewer : t.kept ≤ length (drop_last l) = t.kept-le in
      let n = length-drop_last l in
      record {
        accounted = t.accounted;
        within = t.within;
        kept = t.kept;
        kept-le = omega arith;
        prefix = t.prefix ∙ take-drop_last_of_le t.kept l some_left fewer;
        longest = λ _. elim (dec_lt t.kept (length (drop_last l))) [
          | yes p ↦ rw (← take-take-suc t.kept l p) (t.longest p)
          | no p ↦
              let whole : take (suc t.kept) l ≡ l =
                take_of_length-le (suc t.kept) l (omega arith) in
              rw whole (not-Within me mb l h)
        ];
        same_entries = t.same_entries;
        same_bytes = t.same_bytes;
      }

  pub trim-Trimmed :
      (fuel : ℕ) (c : CompositeImageCache K)
      → Accounted dec c
      → length c.core.lru < fuel
      → (c' : CompositeImageCache K) × (trim_locked dec fuel c ≡ some c')
        × Trimmed c.max_entries c.max_bytes (view c.core) c'
  unfolding trim_locked
  trim-Trimmed zero c a f = absurd (omega arith)
  trim-Trimmed (suc fuel) c a f = elim (Bool-cases (over_limits c)) [
    | inl more ↦
        let (b, v) = evict-Accounted dec c a in
        let (le, lb) = evict-limits c in
        let shorter : length (evict_locked dec c).core.lru < fuel = omega (
          arith,
          length-items (evict_locked dec c).core.lru,
          length-items c.core.lru,
          length-drop_last (view c.core),
          ap length v,
          lt_of_over c more,
        ) in
        let (c', r, t) = trim-Trimmed fuel (evict_locked dec c) b shorter in
        (
          c',
          rw more r,
          Trimmed-drop_last c.max_entries c.max_bytes (view c.core) c' (sym (over-same c a) ∙ more)
              (subst₃ (λ e b l. Trimmed e b l c') le lb v t),
        )
    | inr done ↦ (
      c,
      rw done,
      record {
        accounted = a;
        within = over-Within c.max_entries c.max_bytes (view c.core) (sym (over-same c a) ∙ done);
        kept = length (view c.core);
        kept-le = omega arith;
        prefix = sym (take_of_length-le (length (view c.core)) (view c.core) (omega arith));
        longest = λ h. absurd (omega arith);
        same_entries = refl;
        same_bytes = refl;
      },
    )
  ]
