-- ===== src/NodePool.antt =====
-- rampardos/internal/services/renderer/nodepool.go: the table of style pools and its keys. A pool is
-- a number, given out when it is made; style ids are lists of bytes. Each function on the table is
-- what the code does under one lock. Encoding images and preparing styles on disk are left out.
use rampardos.Prelude.{
  ℕ, zero, suc, ◌+◌, ◌-◌, ◌*◌, ◌/◌, ◌%◌, ◌^◌, ◌==◌, ltb, leb, if◌then◌else◌, ite, Bool, true, false,
  not, ◌&&◌, Option, some, none, List, [], ◌∷◌, ◌++◌, ℤ, pos, negsuc, not_positive,
}
pub mod Keys
pub mod Table

abbrev pub at : ℕ
at = b'@'

-- `strconv.FormatUint` of a byte.
unfoldable pub format_uint : ℕ → List ℕ
format_uint n =
    if ltb n 10
    then (48 + n) ∷ []
    else if ltb n 100
    then (48 + n / 10) ∷ (48 + n % 10) ∷ []
    else (48 + n / 100) ∷ (48 + n / 10 % 10) ∷ (48 + n % 10) ∷ []

unfoldable pub pool_key : List ℕ → ℕ → List ℕ
unfolding format_uint
pool_key style_id scale = if leb scale 1 then style_id else style_id ++ at ∷ format_uint scale

-- The parts of a key around its last `@`, `strings.LastIndex`.
unfoldable pub split_last : List ℕ → Option (List ℕ × List ℕ)
split_last [] = none
split_last (x ∷ l) = elim (split_last l) [
  | none ↦ if x == at then some ([], l) else none
  | some (before, after) ↦ some (x ∷ before, after)
]

-- `strconv.Atoi`: digits after the number read so far. A number that is not below
-- the limit is no number: an int has 64 bits.
unfoldable pub read_digits : ℕ → ℕ → List ℕ → Option ℕ
read_digits limit n [] = if ltb n limit then some n else none
read_digits limit n (d ∷ ds) =
    let rest = read_digits limit (n * 10 + (d - 48)) ds in
    if leb 48 d && leb d 57 then rest else none

abbrev pub negated : Option ℕ → Option ℤ
negated none = none
negated (some zero) = some (pos zero)
negated (some (suc n)) = some (negsuc n)

abbrev pub positive : Option ℕ → Option ℤ
positive none = none
positive (some n) = some (pos n)

unfoldable pub atoi : List ℕ → Option ℤ
unfolding read_digits
atoi [] = none
atoi (x ∷ []) = positive (read_digits (2 ^ 63) 0 (x ∷ []))
atoi (x ∷ y ∷ l) =
    if x == b'-'
    then negated (read_digits (2 ^ 63 + 1) 0 (y ∷ l))
    else if x == b'+'
    then positive (read_digits (2 ^ 63) 0 (y ∷ l))
    else positive (read_digits (2 ^ 63) 0 (x ∷ y ∷ l))

unfoldable pub parse_pool_key : List ℕ → List ℕ × ℤ
unfolding split_last atoi
parse_pool_key key = elim (split_last key) [
  | none ↦ (key, pos 1)
  | some (before, after) ↦ elim (atoi after) [ none ↦ (key, pos 1) | some r ↦ (before, r) ]
]

-- The table; `gone` is the nil map that `Close` leaves.
pub record Renderer (K : Type 0) : Type 0 where
  pub pools : List (K × ℕ)
  pub gone : Bool
  pub closed : List ℕ
  pub next : ℕ

pub data CreateResult (S : Type 0) : Type 0 where
  have_pool : ℕ → S → CreateResult S
  unknown_style load_failed nil_map : CreateResult S

module _ {K : Type 0} (dec : Discrete K) where
  unfoldable pub lookup : K → List (K × ℕ) → Option ℕ
  lookup k [] = none
  lookup k ((j, p) ∷ pools) = ite (dec k j) (some p) (lookup k pools)

  unfoldable pub member : K → List K → Bool
  member k [] = false
  member k (j ∷ ks) = ite (dec k j) true (member k ks)

  -- `getOrCreatePool` in its singleflight, for whether the style is there and its pool can be made.
  unfoldable pub get_or_create_pool : Bool → Bool → K → Renderer K → CreateResult (Renderer K)
  unfolding lookup
  get_or_create_pool known loads key npr = elim (lookup key npr.pools) [
    | some p ↦ have_pool p npr
    | none ↦
        if not known
        then unknown_style
        else if not loads
        then load_failed
        else if npr.gone
        then nil_map
        else have_pool npr.next
            (record npr { pools = (key, npr.next) ∷ npr.pools; next = suc npr.next })
  ]

  -- The loop of `ReloadStyles` over the keys of the snapshot: the new pools, and whether the context
  -- did not end. `loads` is whether the pool of a key can be made, `ended` whether the context has
  -- ended before its turn.
  unfoldable pub rebuild :
      (K → Bool) → (K → Bool) → List K → List (K × ℕ) → ℕ → (List (K × ℕ) × ℕ) × Bool
  rebuild loads ended [] made next = ((made, next), true)
  rebuild loads ended (k ∷ ks) made next =
      let skipped = rebuild loads ended ks made next in
      let built = rebuild loads ended ks ((k, next) ∷ made) (suc next) in
      if ended k then ((made, next), false) else if loads k then built else skipped

  -- The swap: the pools of the snapshot's keys go, those of other keys stay beside the new ones.
  unfoldable pub kept_pools : List K → List (K × ℕ) → List (K × ℕ)
  unfolding member
  kept_pools active [] = []
  kept_pools active ((k, p) ∷ pools) =
      let rest = kept_pools active pools in if member k active then rest else (k, p) ∷ rest

  unfoldable pub old_pools : List K → List (K × ℕ) → List ℕ
  unfolding member
  old_pools active [] = []
  old_pools active ((k, p) ∷ pools) =
      let rest = old_pools active pools in if member k active then p ∷ rest else rest

  abbrev pub ids : List (K × ℕ) → List ℕ
  ids [] = []
  ids ((k, p) ∷ pools) = p ∷ ids pools

  -- The end of `ReloadStyles`, for the keys of the snapshot and what the loop has made.
  unfoldable pub reload_swap : List K → (List (K × ℕ) × ℕ) × Bool → Renderer K → Renderer K
  unfolding kept_pools old_pools
  reload_swap active ((made, next), false) npr = record npr {
    closed = ids made ++ npr.closed;
    next = next;
  }
  reload_swap active ((made, next), true) npr = record npr {
    pools = made ++ kept_pools active npr.pools;
    gone = false;
    closed = old_pools active npr.pools ++ npr.closed;
    next = next;
  }

  -- `Close`
  unfoldable pub close : Renderer K → Renderer K
  close npr = record npr { pools = []; gone = true; closed = ids npr.pools ++ npr.closed }

-- The configuration, as far as `NewNodePoolRenderer` completes it; times are in seconds.
pub record Config : Type 0 where
  pub pool_size : ℤ
  pub style_pool_size : ℤ
  pub worker_lifetime : ℤ
  pub render_timeout : ℤ
  pub startup_timeout : ℤ

abbrev pub default : ℤ → ℤ → ℤ
default given otherwise = if not_positive given then otherwise else given

-- `NewNodePoolRenderer`, for the number of processors and whether the styles can be listed; the pool
-- sizes are completed one after the other.
unfoldable pub new_node_pool_renderer :
    {K : Type 0} → ℕ → Bool → Config → Option (Config × Renderer K)
new_node_pool_renderer processors styles_listed cfg =
    let pool_size = default cfg.pool_size (pos processors) in
    if styles_listed
    then some (
      record {
        pool_size = pool_size;
        style_pool_size = default cfg.style_pool_size pool_size;
        worker_lifetime = default cfg.worker_lifetime (pos 500);
        render_timeout = default cfg.render_timeout (pos 15);
        startup_timeout = default cfg.startup_timeout (pos 10);
      },
      record { pools = []; gone = false; closed = []; next = 0 },
    )
    else none
