-- ===== src/Settings.antt =====
-- rampardos/internal/services/runtime_settings.go: the debug flag and the log level, and
-- rampardos/internal/models/hit_ratio.go: the counters of a cache.
use rampardos.Prelude.{
  ◌⊎◌, Option, some, none, suc, sym, ap, ◌∙◌, All, length, take, ℕ, ◌+◌, ◌%◌, ◌^◌, ◌≤◌, ◌<◌,
  if◌then◌else◌, ◌≡◌, inl, inr, refl, Bool, true, false, not, List, [], ◌∷◌, Bool-cases, arith,
}
use mathlib.Core.Path.{subst}

pub record RuntimeSettings : Type 0 where
  pub debug_enabled : Bool
  -- Whether the level of the log is the debug level.
  pub log_debug : Bool

unfoldable pub init_runtime_settings : Bool → RuntimeSettings
init_runtime_settings initial = record { debug_enabled = initial; log_debug = initial }

unfoldable pub store_debug : Bool → RuntimeSettings → RuntimeSettings
store_debug enabled rs = record rs { debug_enabled = enabled }

unfoldable pub update_log_level : Bool → RuntimeSettings → RuntimeSettings
update_log_level debug rs = record rs { log_debug = debug }

-- A step of another goroutine: a store or a swap of the flag, or a new log level.
pub data Act : Type 0 where
  stores : Bool → Act
  levels : Bool → Act

unfoldable pub others : List Act → RuntimeSettings → RuntimeSettings
unfolding store_debug update_log_level
others [] rs = rs
others (stores b ∷ acts) rs = others acts (store_debug b rs)
others (levels b ∷ acts) rs = others acts (update_log_level b rs)

-- The steps are those that other goroutines take between the store and the new level.
unfoldable pub set_debug_enabled : List Act → Bool → RuntimeSettings → RuntimeSettings
unfolding store_debug update_log_level others
set_debug_enabled between enabled rs =
    update_log_level enabled (others between (store_debug enabled rs))

abbrev pub equal : Bool → Bool → Bool
equal true b = b
equal false b = not b

-- The loop of `ToggleDebug`, with the steps that other goroutines take between the load and the
-- compare-and-swap of each round, and between the swap and the new level. It is none when it has
-- gone through the rounds without a swap.
unfoldable pub toggle_debug :
    List (List Act) → List Act → RuntimeSettings → Option (RuntimeSettings × Bool)
unfolding store_debug update_log_level others
toggle_debug [] after rs = none
toggle_debug (between ∷ rounds) after rs =
    let current : Bool = rs.debug_enabled in
    let met = others between rs in
    let again = toggle_debug rounds after met in
    if equal met.debug_enabled current
    then some
        (update_log_level (not current) (others after (store_debug (not current) met)), not current)
    else again

-- The flag after steps, and whether one of them stores it.
abbrev pub last_stored : List Act → Bool → Bool
last_stored [] b = b
last_stored (stores c ∷ acts) b = last_stored acts c
last_stored (levels c ∷ acts) b = last_stored acts b

abbrev pub flag_after : List (List Act) → Bool → Bool
flag_after [] b = b
flag_after (acts ∷ rounds) b = flag_after rounds (last_stored acts b)

abbrev pub has_store : List Act → Bool
has_store [] = false
has_store (stores c ∷ acts) = true
has_store (levels c ∷ acts) = has_store acts

abbrev pub Stored : List (List Act) → Type 0
Stored = All (λ acts. has_store acts ≡ true)

-- Without an end every round saw a store. An end comes in a round after such rounds.
abbrev pub Outcome : List (List Act) → List Act → Bool → Option (RuntimeSettings × Bool) → Type 0
Outcome rounds after flag o =
    ((o ≡ none) × Stored rounds)
    ⊎ ((r : RuntimeSettings × Bool) × (k : ℕ) × (o ≡ some r)
        × (k < length rounds)
        × Stored (take k rounds)
        × (r.1 ≡ not (flag_after (take (suc k) rounds) flag))
        × (r.0.debug_enabled ≡ last_stored after r.1)
        × (r.0.log_debug ≡ r.1))

others-flag :
    (acts : List Act) (rs : RuntimeSettings)
    → (others acts rs).debug_enabled ≡ last_stored acts rs.debug_enabled
unfolding others store_debug update_log_level
others-flag [] rs = refl
others-flag (stores b ∷ acts) rs = others-flag acts (record rs { debug_enabled = b })
others-flag (levels b ∷ acts) rs = others-flag acts (record rs { log_debug = b })

no_store : (acts : List Act) (b : Bool) → has_store acts ≡ false → last_stored acts b ≡ b
no_store [] b h = refl
no_store (stores c ∷ acts) b h = absurd (cc)
no_store (levels c ∷ acts) b h = no_store acts b h

equal_eq : (a b : Bool) → equal a b ≡ true → a ≡ b
equal_eq true b h = sym h
equal_eq false true h = absurd (cc)
equal_eq false false h = refl

equal_refl : (a : Bool) → equal a a ≡ true
equal_refl true = refl
equal_refl false = refl

changed :
    (acts : List Act) (b : Bool) → equal (last_stored acts b) b ≡ false → has_store acts ≡ true
changed acts b h = elim (Bool-cases (has_store acts)) [
  | inl y ↦ y
  | inr n ↦ absurd (cc (h, no_store acts b n, equal_refl b))
]

later :
    (acts after : List Act) (rounds : List (List Act)) (b : Bool)
    (o : Option (RuntimeSettings × Bool))
    → has_store acts ≡ true
    → Outcome rounds after (last_stored acts b) o
    → Outcome (acts ∷ rounds) after b o
later acts after rounds b o h w = elim w [
  | inl (e, s) ↦ inl (e, (h, s))
  | inr (r, k, e, small, s, f, x, y) ↦ inr (r, suc k, e, omega arith, (h, s), f, x, y)
]

-- Whatever steps other goroutines take between those of a toggle, it swaps in the first round in
-- which the flag is back at the value that it loaded, and each round without a swap saw a store by
-- another goroutine; it returns the opposite of the flag at the swap, sets the log level to what it
-- returns, and leaves in the flag the last value that others stored after the swap, or else what it
-- returns.
pub toggle_debug-Outcome :
    (rounds : List (List Act)) (after : List Act) (rs : RuntimeSettings)
    → Outcome rounds after rs.debug_enabled (toggle_debug rounds after rs)
unfolding toggle_debug store_debug update_log_level
toggle_debug-Outcome [] after rs = inl (refl, tt)
toggle_debug-Outcome (acts ∷ rounds) after rs =
    let flag = others-flag acts rs in
    elim (Bool-cases (equal (others acts rs).debug_enabled rs.debug_enabled)) [
      | inl y ↦
          let same = equal_eq (others acts rs).debug_enabled rs.debug_enabled y in
          rw y (
            inr (
              (
                update_log_level (not rs.debug_enabled)
                    (others after (store_debug (not rs.debug_enabled) (others acts rs))),
                not rs.debug_enabled,
              ),
              0,
              refl,
              omega arith,
              tt,
              ap not (sym same ∙ flag),
              others-flag after (record (others acts rs) { debug_enabled = not rs.debug_enabled }),
              refl,
            ))
      | inr n ↦
          let more : Outcome rounds after (last_stored acts rs.debug_enabled)
              (toggle_debug rounds after (others acts rs)) =
            subst (λ b. Outcome rounds after b (toggle_debug rounds after (others acts rs))) flag
              (toggle_debug-Outcome rounds after (others acts rs)) in
          rw n (
            later acts after rounds rs.debug_enabled (toggle_debug rounds after (others acts rs))
              (changed acts rs.debug_enabled (ap (λ b. equal b rs.debug_enabled) (sym flag) ∙ n))
              more)
    ]

-- `AtomicHitRatio`, two counters of 64 bits.
pub record HitRatio : Type 0 where
  pub cached : ℕ
  pub total : ℕ

-- `Served`; `fresh` is its argument `new`.
unfoldable pub served : Bool → HitRatio → HitRatio
served fresh h = record {
  cached = if fresh then h.cached else (h.cached + 1) % 2 ^ 64;
  total = (h.total + 1) % 2 ^ 64;
}

-- Where no counter overflows, there are never more hits than requests.
pub served-bounded :
    (fresh : Bool) (h : HitRatio)
    → h.total + 1 < 2 ^ 64
    → h.cached ≤ h.total
    → (served fresh h).cached ≤ (served fresh h).total
unfolding served
served-bounded true h small b = omega (arith, small, b)
served-bounded false h small b = omega (arith, small, b)
