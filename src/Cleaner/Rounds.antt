-- ===== src/Cleaner/Rounds.antt =====
-- What one round of a cleaner removes.
use rampardos.Prelude.{
  ◌*◌, ◌≤◌, ◌%◌, ◌^◌, ℕ, ◌+◌, ◌<◌, if◌then◌else◌, ◌≡◌, ◌⊎◌, ◌↔◌, inl, inr, refl, ap, Bool, true,
  false, some, List, [], ◌∷◌, length, Bool-cases, arith, reaches,
}
use rampardos.Cleaner.{
  FileInfo, Entry, CacheCleaner, selected, count_to_remove, remove_files, run_once, should_remove,
  minute, minutes_before, drop_cutoff_of, is_drop_pending,
}

abbrev pub Stale : CacheCleaner → ℕ → FileInfo → Type 0
Stale c now info =
    (info.mod_time + c.max_age_minutes * minute < now)
    ⊎ ((0 < c.drop_after_minutes)
        × (0 < info.creation_time)
        × (info.creation_time + c.drop_after_minutes * minute < now))

-- The greatest number of minutes that an int64 of nanoseconds has room for.
abbrev pub greatest_minutes : ℕ
greatest_minutes = 153722867

no_wrap : (minutes : ℕ) → minutes ≤ greatest_minutes → minutes * minute % 2 ^ 64 ≡ minutes * minute
no_wrap minutes h = omega arith

old_iff :
    (time now minutes : ℕ)
    → minutes ≤ greatest_minutes
    → (reaches time (minutes_before now minutes) ≡ false) ↔ (time + minutes * minute < now)
unfolding minutes_before
old_iff time now minutes h = rw (no_wrap minutes h) (ground arith)

remove_iff :
    (c : CacheCleaner) (now : ℕ) (info : FileInfo)
    → c.max_age_minutes ≤ greatest_minutes
    → c.drop_after_minutes ≤ greatest_minutes
    → (should_remove info (minutes_before now c.max_age_minutes) (drop_cutoff_of now c) ≡ true)
      ↔ Stale c now info
unfolding should_remove drop_cutoff_of
remove_iff c now info h k =
    let a = old_iff info.mod_time now c.max_age_minutes h in
    let b = old_iff info.creation_time now c.drop_after_minutes k in ground (arith, a, b)

-- A product that wraps puts the cutoff behind the present.
wrapped :
    (time now minutes : ℕ)
    → greatest_minutes < minutes
    → minutes ≤ 307445734
    → time ≤ now
    → reaches time (minutes_before now minutes) ≡ false
unfolding minutes_before
wrapped time now minutes h k past = ground arith

module _ {N : Type 0} where
  -- The names that a test takes, in order.
  abbrev pub names_where : (Entry N → Bool) → List (Entry N) → List N
  names_where test [] = []
  names_where test (e ∷ entries) =
      if test e then e.name ∷ names_where test entries else names_where test entries

  abbrev pub filter : (N → Bool) → List N → List N
  filter test [] = []
  filter test (n ∷ names) = if test n then n ∷ filter test names else filter test names

  remove_files-filter :
      (removes : N → Bool) (cc : CacheCleaner) (now : ℕ) (entries : List (Entry N))
      → let tried = names_where (selected cc now) entries in
        remove_files removes cc now entries ≡ (tried, filter removes tried)
  unfolding remove_files
  remove_files-filter removes cc now [] = refl
  remove_files-filter removes cc now (e ∷ entries) =
      let ih = remove_files-filter removes cc now entries in
      elim (Bool-cases (selected cc now e)) [ inl s ↦ rw (s, ih) refl | inr s ↦ rw (s, ih) refl ]

  count-names :
      (cc : CacheCleaner) (now : ℕ) (entries : List (Entry N))
      → count_to_remove cc now entries ≡ length (names_where (selected cc now) entries)
  unfolding count_to_remove
  count-names cc now [] = refl
  count-names cc now (e ∷ entries) = ground (arith, count-names cc now entries)

  -- A round on a folder that can be read tries to remove each selected entry once and in order,
  -- reports their number, gives up exactly those that it could remove, and afterwards has a drop
  -- pending only if there was none before and one was scheduled meanwhile.
  pub run_once-removes :
      (removes : N → Bool) (now : ℕ) (scheduled : Bool) (entries : List (Entry N))
      (cc : CacheCleaner)
      → let r = run_once removes now scheduled (some entries) cc in
        let names = names_where (selected cc now) entries in
        (r.tried ≡ names)
        × (r.removed ≡ filter removes names)
        × (r.queue_size ≡ some (length names))
        × (is_drop_pending r.cleaner ≡ (if cc.drop_all then false else scheduled))
  unfolding run_once is_drop_pending
  run_once-removes removes now scheduled entries cc =
      let f = remove_files-filter removes cc now entries in
      (ap (λ x. x.0) f, ap (λ x. x.1) f, ap some (count-names cc now entries), refl)

  -- With ages of at most 153722867 minutes, an entry whose information can be read is selected
  -- exactly when it is no folder and a drop is pending, its age is over the maximal age, or a
  -- forced refresh is set and its known creation is longer ago than that.
  pub selected-Stale :
      (cc : CacheCleaner) (now : ℕ) (e : Entry N) (info : FileInfo)
      → cc.max_age_minutes ≤ greatest_minutes
      → cc.drop_after_minutes ≤ greatest_minutes
      → e.info ≡ some info
      → ((selected cc now e ≡ true)
          ↔ ((e.is_dir ≡ false) × ((is_drop_pending cc ≡ true) ⊎ Stale cc now info)))
  unfolding selected is_drop_pending
  selected-Stale cc now e info m d h = let r = remove_iff cc now info m d in ground (arith, h, r)

  -- With an age over the limit and up to twice as much every file that is not from the future is
  -- selected.
  selected-wraps :
      (cc : CacheCleaner) (now : ℕ) (e : Entry N) (info : FileInfo)
      → greatest_minutes < cc.max_age_minutes
      → cc.max_age_minutes ≤ 307445734
      → e.info ≡ some info
      → e.is_dir ≡ false
      → info.mod_time ≤ now
      → selected cc now e ≡ true
  unfolding selected should_remove
  selected-wraps cc now e info m d h file past =
      let r = wrapped info.mod_time now cc.max_age_minutes m d past in ground (arith, h, file, r)
