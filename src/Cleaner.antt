-- ===== src/Cleaner.antt =====
-- rampardos/internal/services/cache_cleaner.go: one cleaner of a folder, and the registry. A round
-- has the results of the calls of the file system as arguments: the entries that `os.ReadDir` lists,
-- what `entry.Info` says of each, and which removals succeed. Times are numbers of
-- nanoseconds since Go's zero time. The clock is read once for a
-- round.
use rampardos.Prelude.{
  ◌+◌, ◌*◌, ◌%◌, ◌^◌, ℕ, suc, ◌-◌, ◌==◌, ltb, leb, if◌then◌else◌, Bool, true, false, not, ◌&&◌,
  ◌||◌, Option, some, none, List, [], ◌∷◌, ℤ, pos, negsuc, reaches,
}
pub mod Rounds
pub mod Registry

pub record FileInfo : Type 0 where
  pub mod_time : ℕ
  pub creation_time : ℕ
  pub size : ℕ

pub record Entry (N : Type 0) : Type 0 where
  pub name : N
  pub is_dir : Bool
  -- `entry.Info()`
  pub info : Option FileInfo

pub record CacheCleaner : Type 0 where
  pub max_age_minutes : ℕ
  pub clear_delay_seconds : ℕ
  pub drop_after_minutes : ℕ
  pub drop_all : Bool
  -- Whether `Start` has started the loop.
  pub looping : Bool

abbrev pub or_zero : Option ℕ → ℕ
or_zero none = 0
or_zero (some n) = n

-- `NewCacheCleaner` puts this cleaner in the registry, under the folder's base name.
unfoldable pub new_cache_cleaner : Option ℕ → Option ℕ → Option ℕ → CacheCleaner
new_cache_cleaner max_age clear_delay drop_after = record {
  max_age_minutes = or_zero max_age;
  clear_delay_seconds = or_zero clear_delay;
  drop_after_minutes = or_zero drop_after;
  drop_all = false;
  looping = false;
}

unfoldable pub start : CacheCleaner → CacheCleaner
start cc =
    if (cc.max_age_minutes == 0) || (cc.clear_delay_seconds == 0)
    then cc
    else record cc { looping = true }

unfoldable pub schedule_drop_all : CacheCleaner → CacheCleaner
schedule_drop_all cc = record cc { drop_all = true }

unfoldable pub is_drop_pending : CacheCleaner → Bool
is_drop_pending cc = cc.drop_all

-- The second test is for a cutoff that is set and a creation time that is known.
unfoldable pub should_remove : FileInfo → ℤ → Option ℤ → Bool
should_remove info cutoff drop_cutoff = not (reaches info.mod_time cutoff) || elim drop_cutoff [
  | none ↦ false
  | some c ↦ not (info.creation_time == 0) && not (reaches info.creation_time c)
]

abbrev pub minute : ℕ
minute = 60000000000

-- `now.Add(-time.Duration(minutes) * time.Minute)`: the product is an int64, which wraps around.
pub minutes_before : ℕ → ℕ → ℤ
minutes_before now minutes =
    let product = minutes * minute % 2 ^ 64 in
    if ltb (2 ^ 63) product
    then pos (now + (2 ^ 64 - product))
    else if leb product now
    then pos (now - product)
    else negsuc (product - now - 1)

pub drop_cutoff_of : ℕ → CacheCleaner → Option ℤ
unfolding minutes_before
drop_cutoff_of now cc =
    if ltb 0 cc.drop_after_minutes then some (minutes_before now cc.drop_after_minutes) else none

pub record Round (N : Type 0) : Type 0 where
  pub cleaner : CacheCleaner
  pub queue_size : Option ℕ
  pub tried : List N
  pub removed : List N

module _ {N : Type 0} where
  -- Whether a pass of a round takes an entry.
  unfoldable pub selected : CacheCleaner → ℕ → Entry N → Bool
  unfolding should_remove minutes_before drop_cutoff_of
  selected cc now entry =
      if entry.is_dir then false else if cc.drop_all then true else elim (entry.info) [
        | none ↦ false
        | some info ↦
            should_remove info (minutes_before now cc.max_age_minutes) (drop_cutoff_of now cc)
      ]

  -- The first pass.
  unfoldable pub count_to_remove : CacheCleaner → ℕ → List (Entry N) → ℕ
  unfolding selected
  count_to_remove cc now [] = 0
  count_to_remove cc now (e ∷ entries) =
      let rest = count_to_remove cc now entries in if selected cc now e then suc rest else rest

  -- The second pass: the removals that are tried, and those that succeed, whose paths are given up
  -- by `Unown`.
  unfoldable pub remove_files : (N → Bool) → CacheCleaner → ℕ → List (Entry N) → List N × List N
  unfolding selected
  remove_files removes cc now [] = ([], [])
  remove_files removes cc now (e ∷ entries) =
      let (tried, removed) = remove_files removes cc now entries in
      if selected cc now e
      then (e.name ∷ tried, if removes e.name then e.name ∷ removed else removed)
      else (tried, removed)

  -- `runOnce`, for the result of `os.ReadDir` and whether `ScheduleDropAll` is called between its
  -- two locked parts. The two passes see the same entries.
  unfoldable pub run_once : (N → Bool) → ℕ → Bool → Option (List (Entry N)) → CacheCleaner → Round N
  unfolding count_to_remove remove_files
  run_once removes now scheduled none cc = record {
    cleaner = record cc { drop_all = cc.drop_all || scheduled };
    queue_size = none;
    tried = [];
    removed = [];
  }
  run_once removes now scheduled (some entries) cc =
      let (tried, removed) = remove_files removes cc now entries in
      record {
        cleaner = record cc { drop_all = if cc.drop_all then false else scheduled };
        queue_size = some (count_to_remove cc now entries);
        tried = tried;
        removed = removed;
      }
