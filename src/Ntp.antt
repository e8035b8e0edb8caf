-- ===== src/Ntp.antt =====
-- src/ntp.rs and src/clock.rs: the SNTP packets, the time they carry, and which times are believed.
pub mod Packet
pub mod Time
mod Tests
use rs_smarthome_nodes.Base.{
  ℕ, ◌+◌, ◌-◌, ◌*◌, ◌/◌, ◌^◌, Bool, ◌&&◌, ◌||◌, not, length, replicate, set, bit_and, ltb, leb,
  ◌==◌, if◌then◌else◌,
}
use rs_smarthome_nodes.Base.Bytes.{Bytes, byte_at, be_at}

abbrev pub ntp_to_unix : ℕ
ntp_to_unix = 2_208_988_800

abbrev pub packet_len : ℕ
packet_len = 48

-- 0b00_100_011
abbrev pub client_header : ℕ
client_header = 35

abbrev pub mode_server : ℕ
mode_server = 4

pub data Rejected : Type 0 where
  too_short not_a_server unsynchronised no_time : Rejected

pub data Response : Type 0 where
  ok : ℕ → Response
  err : Rejected → Response

unfoldable pub request : Bytes
request = set (replicate packet_len 0) 0 client_header

-- The seconds are a `u32` of one of two eras, told apart by whether they reach 1970.
unfoldable pub unix_millis : ℕ → ℕ → ℕ
unix_millis ntp_seconds ntp_fraction =
    let seconds =
      if leb ntp_to_unix ntp_seconds
      then ntp_seconds - ntp_to_unix
      else ntp_seconds + 2 ^ 32 - ntp_to_unix in
    let millis = ntp_fraction * 1_000 / 2 ^ 32 in seconds * 1_000 + millis

unfoldable pub parse_response : Bytes → Response
parse_response packet =
    let leap = byte_at packet 0 / 2 ^ 6 in
    let stratum = byte_at packet 1 in
    let seconds = be_at packet 40 in
    let fraction = be_at packet 44 in
    if ltb (length packet) packet_len
    then err too_short
    else if not (bit_and (byte_at packet 0) 7 == mode_server)
    then err not_a_server
    else if leap == 3 || (stratum == 0 || leb 16 stratum)
    then err unsynchronised
    else if seconds == 0
    then err no_time
    else ok (unix_millis seconds fraction)

abbrev pub sane_from_ms : ℕ
sane_from_ms = 1_735_689_600_000

abbrev pub sane_until_ms : ℕ
sane_until_ms = 4_102_444_800_000

-- clock.rs
unfoldable pub is_plausible : ℕ → Bool
is_plausible millis = leb sane_from_ms millis && ltb millis sane_until_ms

-- `saturating_sub`
unfoldable pub stamp : ℕ → ℕ → ℕ
stamp now_ms age_ms = now_ms - age_ms
