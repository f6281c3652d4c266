-- ===== src/Environment.antt =====
-- rampardos/internal/config/config.go: how a variable of the environment is read, and
-- rampardos/internal/middleware/auth.go: who may use the administration. A variable that is not set
-- is the empty list.
use rampardos.Prelude.{
  ℕ, ◌+◌, ◌^◌, ◌<◌, leb, if◌then◌else◌, ◌≡◌, refl, Bool, true, false, ◌&&◌, ◌||◌, Option, some,
  none, List, [], ◌∷◌, map, arith, ℤ, pos,
}
use rampardos.Names.{same}
use rampardos.NodePool.{read_digits, atoi, format_uint}
use rampardos.NodePool.Keys.{atoi-format_uint}
use rampardos.Etag.{trim_space}

unfoldable pub get_env : List ℕ → List ℕ → List ℕ
unfolding same
get_env value default_value = if same value [] then default_value else value

-- `strings.ToLower` of a byte.
abbrev pub to_lower : ℕ → ℕ
to_lower b = if leb 65 b && leb b 90 then b + 32 else b

unfoldable pub is_true : List ℕ → Bool
unfolding same
is_true w =
    same w (b't' ∷ b'r' ∷ b'u' ∷ b'e' ∷ [])
    || same w (b'1' ∷ [])
    || same w (b'y' ∷ b'e' ∷ b's' ∷ [])
    || same w (b'o' ∷ b'n' ∷ [])

unfoldable pub is_false : List ℕ → Bool
unfolding same
is_false w =
    same w (b'f' ∷ b'a' ∷ b'l' ∷ b's' ∷ b'e' ∷ [])
    || same w (b'0' ∷ [])
    || same w (b'n' ∷ b'o' ∷ [])
    || same w (b'o' ∷ b'f' ∷ b'f' ∷ [])

unfoldable pub get_env_bool : List ℕ → Bool → Bool
unfolding same is_true is_false
get_env_bool value default_value =
    let w = map to_lower value in
    if same value []
    then default_value
    else if is_true w
    then true
    else if is_false w
    then false
    else default_value

unfoldable pub get_env_int : List ℕ → ℤ → ℤ
unfolding same atoi
get_env_int value default_value =
    let parsed : ℤ = elim (atoi value) [ none ↦ default_value | some i ↦ i ] in
    if same value [] then default_value else parsed

-- A value that is no number of 32 bits gives nil, not the default.
unfoldable pub get_env_uint32 : List ℕ → Option ℕ → Option ℕ
unfolding same read_digits
get_env_uint32 value default_value =
    if same value [] then default_value else read_digits (2 ^ 32) 0 value

not_empty : (n : ℕ) → same (format_uint n) [] ≡ false
unfolding same format_uint
not_empty n = ground arith

-- A number in decimal digits is read as itself, whatever the default.
pub get_env_int-format_uint :
    (n : ℕ) (default_value : ℤ) → n < 256 → get_env_int (format_uint n) default_value ≡ pos n
unfolding get_env_int
get_env_int-format_uint n default_value h = rw (not_empty n, atoi-format_uint n h, get_env_int) refl

pub data Access : Type 0 where
  dashboard_disabled login_required invalid_login served_next : Access

-- `AdminAuth` for the two variables and the credentials of a request, as `BasicAuth` reads them; a
-- comparison in constant time compares.
unfoldable pub admin_auth : List ℕ → List ℕ → Option (List ℕ × List ℕ) → Access
unfolding same
admin_auth username password none =
    if same (trim_space username) [] || same (trim_space password) []
    then dashboard_disabled
    else login_required
admin_auth username password (some (user, pass)) =
    if same (trim_space username) [] || same (trim_space password) []
    then dashboard_disabled
    else if same user (trim_space username) && same pass (trim_space password)
    then served_next
    else invalid_login

-- A request is served only with both variables set, and with credentials that are equal to them
-- without the space around them.
pub admin_auth-next :
    (username password : List ℕ) (request : Option (List ℕ × List ℕ))
    → admin_auth username password request ≡ served_next
    → (same (trim_space username) [] ≡ false)
      × (same (trim_space password) [] ≡ false)
      × ((user : List ℕ) × (pass : List ℕ) × (request ≡ some (user, pass))
          × (same user (trim_space username) ≡ true)
          × (same pass (trim_space password) ≡ true))
unfolding admin_auth
admin_auth-next username password none h = absurd (ground (arith, h))
admin_auth-next username password (some (user, pass)) h =
    (ground (arith, h), ground (arith, h), (user, pass, refl, ground (arith, h), ground (arith, h)))
