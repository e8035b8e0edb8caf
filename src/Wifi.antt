-- ===== src/Wifi.antt =====
-- The network's credentials at boot, the retries and the console's session (src/wifi.rs).
pub mod Backoff
pub mod Boot
pub mod Console
mod Tests
use rs_smarthome_nodes.Base.{
  ℕ, zero, suc, ◌-◌, ◌*◌, ◌^◌, min, Bool, true, false, not, ◌||◌, Option, none, some, [], ◌∷◌,
  ◌>>=◌, length, ltb, leb, if◌then◌else◌,
}
use rs_smarthome_nodes.Base.Bytes.{Bytes}
use rs_smarthome_nodes.Base.Text.{codes, bytes_eq}
use rs_smarthome_nodes.Config.Credentials.{ssid_max, psk_max, load_credentials}
use rs_smarthome_nodes.Flash.{Storage}

abbrev pub placeholder_ssid : Bytes
placeholder_ssid = codes "your-ssid"

abbrev pub radio_backoff_first_ms : ℕ
radio_backoff_first_ms = 500

abbrev pub radio_backoff_max_ms : ℕ
radio_backoff_max_ms = 30_000

abbrev pub join_backoff_first_ms : ℕ
join_backoff_first_ms = 500

abbrev pub join_backoff_max_ms : ℕ
join_backoff_max_ms = 30_000

-- The loop, with its early return; `saturating_mul` on `u64`.
unfoldable pub backoff_loop : ℕ → ℕ → ℕ → ℕ
backoff_loop zero ms max_ms = min ms max_ms
backoff_loop (suc turns) ms max_ms =
    let doubled = min (ms * 2) (2 ^ 64 - 1) in
    let rest = backoff_loop turns doubled max_ms in if leb max_ms doubled then max_ms else rest

unfoldable pub backoff_ms : ℕ → ℕ → ℕ → ℕ
backoff_ms failures first_ms max_ms = backoff_loop (min failures 64 - 1) first_ms max_ms

unfoldable pub radio_backoff_ms : ℕ → ℕ
radio_backoff_ms failures = backoff_ms failures radio_backoff_first_ms radio_backoff_max_ms

unfoldable pub join_backoff_ms : ℕ → ℕ
join_backoff_ms attempts = backoff_ms attempts join_backoff_first_ms join_backoff_max_ms

pub record Credentials : Type 0 where
  pub ssid : Bytes
  pub psk : Bytes

abbrev pub is_empty : Bytes → Bool
is_empty [] = true
is_empty (x ∷ xs) = false

-- `String::try_from` of `heapless`: a text that does not fit is an error.
abbrev pub try_from : ℕ → Bytes → Option Bytes
try_from capacity s = if ltb capacity (length s) then none else some s

unfoldable pub credentials_new : Bytes → Bytes → Option Credentials
credentials_new ssid psk =
    if is_empty ssid
    then none
    else do s ← try_from ssid_max ssid; p ← try_from psk_max psk; some record { ssid = s; psk = p }

unfoldable pub is_placeholder : Credentials → Bool
is_placeholder c = is_empty c.ssid || bytes_eq c.ssid placeholder_ssid

pub data Source : Type 0 where
  stored built_in : Source

unfoldable pub resolve : Option Credentials → Credentials → Credentials × Source
resolve (some c) built = if not (is_placeholder c) then (c, stored) else (built, built_in)
resolve none built = (built, built_in)

module _ (flash : Storage) where
  open flash use {Chip}

  -- The credentials in force and their source; `BUILT_IN` is the argument.
  unfoldable pub init : Chip → Credentials → Credentials × Source
  init chip built =
      resolve (do found ← load_credentials flash chip; credentials_new (found.0) (found.1)) built
