-- ===== src/Time.antt =====
-- Times and durations of the `chrono` crate: nanoseconds, as integers. A configured interval is taken
-- below the range of `i64` nanoseconds, where `chrono` neither overflows nor panics.
use joplin_mcp_rust.Prelude.{ℕ, ◌*◌, ◌/◌, suc, zero}
use joplin_mcp_rust.Prelude.Int.{ℤ, pos, negsuc, ◌-ℤ◌}

abbrev pub DateTime : Type 0
DateTime = ℤ

abbrev pub nanos : ℕ
nanos = 1_000_000_000

-- minus a number
abbrev pub neg : ℕ → ℤ
neg zero = pos 0
neg (suc n) = negsuc n

-- `Duration::num_seconds`, rounded towards zero.
unfoldable pub num_seconds : ℤ → ℤ
num_seconds (pos n) = pos (n / nanos)
num_seconds (negsuc n) = neg (suc n / nanos)

-- `now.signed_duration_since(past)`
unfoldable pub since : DateTime → DateTime → ℤ
unfolding ◌-ℤ◌
since now past = now -ℤ past

abbrev pub seconds : ℕ → ℤ
seconds n = pos (n * nanos)

abbrev pub hours : ℕ → ℤ
hours n = pos (n * 3600 * nanos)
