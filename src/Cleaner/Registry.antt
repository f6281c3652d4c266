-- ===== src/Cleaner/Registry.antt =====
-- rampardos/internal/services/cache_cleaner.go: the registry of cleaners by the base name of their
-- folder, and the size of a folder that is reported after a round.
use rampardos.Prelude.{
  ℕ, ◌+◌, ◌%◌, ◌^◌, if◌then◌else◌, ◌≡◌, ◌≢◌, refl, ap, ◌∙◌, Option, some, none, List, [], ◌∷◌, put,
  put_self, put_ne,
}
use rampardos.Cleaner.{
  Entry, CacheCleaner, new_cache_cleaner, is_drop_pending, schedule_drop_all, or_zero,
}

-- The sum over the files whose information can be read, in a 64-bit integer.
unfoldable pub update_cache_size : {N : Type 0} → List (Entry N) → ℕ → ℕ
update_cache_size [] total = total
update_cache_size (e ∷ entries) total =
    let skipped = update_cache_size entries total in
    let counted : ℕ = elim (e.info) [
      | none ↦ skipped
      | some info ↦ update_cache_size entries ((total + info.size) % 2 ^ 64)
    ] in
    if e.is_dir then skipped else counted

module _ {N : Type 0} (dec : Discrete N) where
  -- `NewCacheCleaner` in a registry, for the base name of its folder.
  unfoldable pub register_new :
      N → Option ℕ → Option ℕ → Option ℕ → (N → Option CacheCleaner) → N → Option CacheCleaner
  unfolding new_cache_cleaner
  register_new folder_name max_age clear_delay drop_after registry =
      put dec folder_name (new_cache_cleaner max_age clear_delay drop_after) registry

  unfoldable pub get_cache_cleaner : N → (N → Option CacheCleaner) → Option CacheCleaner
  get_cache_cleaner folder_name registry = registry folder_name

  unfoldable pub get_cache_cleaner_delay : N → (N → Option CacheCleaner) → ℕ
  get_cache_cleaner_delay folder_name registry = elim (registry folder_name) [
    | none ↦ 0
    | some c ↦ c.clear_delay_seconds
  ]

  -- `ScheduleDropAll` of the cleaner under a name.
  unfoldable pub schedule_drop_of : N → (N → Option CacheCleaner) → N → Option CacheCleaner
  unfolding schedule_drop_all
  schedule_drop_of folder_name registry = elim (registry folder_name) [
    | none ↦ registry
    | some c ↦ put dec folder_name (schedule_drop_all c) registry
  ]

  -- `GetPendingDrops`, for the names of the registry in the order that the map gives them.
  unfoldable pub get_pending_drops : List N → (N → Option CacheCleaner) → List N
  unfolding is_drop_pending
  get_pending_drops [] registry = []
  get_pending_drops (n ∷ names) registry =
      let rest = get_pending_drops names registry in
      elim (registry n) [ none ↦ rest | some c ↦ if is_drop_pending c then n ∷ rest else rest ]

  -- A new cleaner takes the place of an earlier one of its name with the delay that was given and
  -- no drop pending, a drop that is then scheduled is listed, and the cleaners of other names stay.
  pub register_new-delay :
      (n j : N) (max_age clear_delay drop_after : Option ℕ) (registry : N → Option CacheCleaner)
      → let registry' = register_new n max_age clear_delay drop_after registry in
        (get_cache_cleaner_delay n registry' ≡ or_zero clear_delay)
        × (get_pending_drops (n ∷ []) registry' ≡ [])
        × (get_pending_drops (n ∷ []) (schedule_drop_of n registry') ≡ n ∷ [])
        × (j ≢ n
            → get_cache_cleaner j (schedule_drop_of n registry') ≡ get_cache_cleaner j registry)
  unfolding register_new get_cache_cleaner_delay get_pending_drops is_drop_pending schedule_drop_of
      schedule_drop_all get_cache_cleaner new_cache_cleaner
  register_new-delay n j max_age clear_delay drop_after registry =
      let c = new_cache_cleaner max_age clear_delay drop_after in
      let r = put dec n c registry in
      let h = put_self dec n c registry in
      let scheduled : schedule_drop_of n r ≡ put dec n (schedule_drop_all c) r =
        rw (h, schedule_drop_of) refl in
      (
        rw (h, get_cache_cleaner_delay) refl,
        rw (h, get_pending_drops) refl,
        rw (scheduled, get_pending_drops, put_self dec n (schedule_drop_all c) r) refl,
        λ ne.
            ap (λ f. f j) scheduled
            ∙ put_ne dec n (schedule_drop_all c) r j ne
            ∙ put_ne dec n c registry j ne,
      )
