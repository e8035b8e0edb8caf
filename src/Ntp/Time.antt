-- ===== src/Ntp/Time.antt =====
-- The time that a timestamp stands for.
use rs_smarthome_nodes.Base.{ℕ, ◌+◌, ◌*◌, ◌/◌, ◌%◌, ◌^◌, ◌<◌, ◌≡◌, arith}
use rs_smarthome_nodes.Ntp.{unix_millis, ntp_to_unix}

-- The NTP timestamp of a time in milliseconds: whole seconds, wrapped at 2 ^ 32, and the fraction
-- rounded up.
unfoldable pub ntp_seconds_of : ℕ → ℕ
ntp_seconds_of millis = (millis / 1_000 + ntp_to_unix) % 2 ^ 32

unfoldable pub ntp_fraction_of : ℕ → ℕ
ntp_fraction_of millis = (millis % 1_000 * 2 ^ 32 + 999) / 1_000

-- Every time from 1970 to 2106 is read back to the millisecond from its NTP timestamp, across the
-- wrap of the era in 2036.
pub unix_millis_roundtrip :
    (millis : ℕ)
    → millis < 2 ^ 32 * 1_000
    → unix_millis (ntp_seconds_of millis) (ntp_fraction_of millis) ≡ millis
unfolding unix_millis ntp_seconds_of ntp_fraction_of
unix_millis_roundtrip millis h = ground arith

-- Every timestamp stands for a time below 2 ^ 32 seconds since 1970.
pub unix_millis-lt : (s f : ℕ) → s < 2 ^ 32 → f < 2 ^ 32 → unix_millis s f < 2 ^ 32 * 1_000
unfolding unix_millis
unix_millis-lt s f hs hf = ground arith
