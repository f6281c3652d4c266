-- ===== src/Frame/Words.antt =====
-- Four bytes hold a length below 2 ^ 32.
use rampardos.Prelude.{ℕ, ◌/◌, ◌%◌, ◌^◌, ◌<◌, ◌≡◌, arith}
use rampardos.Frame.{uint32}

-- Reading the four bytes of a number gives the number back.
pub uint32-put_uint32 :
    (n : ℕ)
    → n < 2 ^ 32
    → uint32 (n / 2 ^ 24 % 256) (n / 2 ^ 16 % 256) (n / 2 ^ 8 % 256) (n % 256) ≡ n
uint32-put_uint32 n h = omega arith
