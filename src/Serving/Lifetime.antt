-- ===== src/Serving/Lifetime.antt =====
-- How long a file that a request writes is kept.
use rampardos.Prelude.{
  ℕ, zero, suc, ◌-◌, ◌*◌, ◌≤◌, leb, if◌then◌else◌, ◌≡◌, ◌↔◌, refl, true, arith, ℤ, pos, negsuc,
}
use rampardos.ExpiryQueue.{is_owned_ttl}
use rampardos.Serving.{to_int64, effective_ttl}

exact_or_wrapped : ℕ → ℤ
exact_or_wrapped n =
    if leb n 9223372036
    then pos (n * 1000000000)
    else negsuc (18446744073709551615 - n * 1000000000)

wraps : (n : ℕ) → n ≤ 18446744073 → to_int64 (n * 1000000000) ≡ exact_or_wrapped n
unfolding to_int64 exact_or_wrapped
wraps n u = ground arith

owned_exactly :
    (n : ℕ) → (is_owned_ttl (exact_or_wrapped n) ≡ true) ↔ ((86400 ≤ n) × (n ≤ 9223372036))
unfolding exact_or_wrapped
owned_exactly n = ground arith

-- A time to live from 1 to 18446744073 seconds is exact up to 9223372036 seconds and read as a
-- negative one from there on; the file is left to the cache cleaner exactly from a day on to that
-- limit.
pub effective_ttl-wraps :
    (n : ℕ)
    → 1 ≤ n
    → n ≤ 18446744073
    → (effective_ttl (pos n) ≡ (
        if leb n 9223372036
        then pos (n * 1000000000)
        else negsuc (18446744073709551615 - n * 1000000000)))
      × ((is_owned_ttl (effective_ttl (pos n)) ≡ true) ↔ ((86400 ≤ n) × (n ≤ 9223372036)))
unfolding effective_ttl exact_or_wrapped
effective_ttl-wraps zero l u = absurd (omega arith)
effective_ttl-wraps (suc n) l u = rw (wraps (suc n) u) (refl, owned_exactly (suc n))

-- Without a time to live, or with a negative one, it is left to the cleaner.
pub effective_ttl-none :
    (n : ℕ)
    → (is_owned_ttl (effective_ttl (pos 0)) ≡ true)
      × (is_owned_ttl (effective_ttl (negsuc n)) ≡ true)
unfolding effective_ttl
effective_ttl-none n = (refl, refl)
