-- ===== src/Config/Keys.antt =====
-- The keys and the words that `Config::apply` of src/config.rs reads.
use rs_smarthome_nodes.Base.{
  ℕ, ◌+◌, ◌*◌, ◌<◌, ◌≡◌, arith, Bool, true, false, ◌&&◌, ◌||◌, List, [], ◌∷◌, Option, none, some,
  ltb, if◌then◌else◌, ◌>>=◌,
}
use rs_smarthome_nodes.Base.Bytes.{Bytes}
use rs_smarthome_nodes.Base.Text.{codes, bytes_eq, trim, split_once}
use rs_smarthome_nodes.Base.Text.Decimal.{parse_u32}

unfoldable pub parse_hh_mm : Bytes → Option ℕ
parse_hh_mm value = do
  (h_text, m_text) ← split_once b':' (trim value)
  h ← parse_u32 h_text
  m ← parse_u32 m_text
  if ltb h 24 && ltb m 60 then some (h * 60 + m) else none

-- The arms of the `match key` of `apply`; any other key is `unknown_key`.
pub data Key : Type 0 where
  offset scale_factor threshold idle_interval active_interval heartbeat_interval : Key
  scd41_temp_offset sds011_kappa temp_coeff enabled brightness lamp_start lamp_off : Key
  night_interval night_margin deep_sleep unknown_key : Key

abbrev pub key_names : List (Bytes × Key)
key_names =
    (codes "offset", Key.offset)
    ∷ (codes "scale_factor", Key.scale_factor)
    ∷ (codes "threshold", Key.threshold)
    ∷ (codes "idle_interval", Key.idle_interval)
    ∷ (codes "active_interval", Key.active_interval)
    ∷ (codes "heartbeat_interval", Key.heartbeat_interval)
    ∷ (codes "scd41_temp_offset", Key.scd41_temp_offset)
    ∷ (codes "sds011_kappa", Key.sds011_kappa)
    ∷ (codes "temp_coeff", Key.temp_coeff)
    ∷ (codes "enabled", Key.enabled)
    ∷ (codes "brightness", Key.brightness)
    ∷ (codes "lamp_start", Key.lamp_start)
    ∷ (codes "lamp_off", Key.lamp_off)
    ∷ (codes "night_interval", Key.night_interval)
    ∷ (codes "night_margin", Key.night_margin)
    ∷ (codes "deep_sleep", Key.deep_sleep)
    ∷ []

find_key : Bytes → List (Bytes × Key) → Key
find_key key [] = Key.unknown_key
find_key key ((name, k) ∷ rest) = if bytes_eq key name then k else find_key key rest

unfoldable pub key_of : Bytes → Key
unfolding find_key
key_of key = find_key key key_names

is_any : Bytes → List Bytes → Bool
is_any value [] = false
is_any value (word ∷ rest) = bytes_eq value word || is_any value rest

-- The two lists of words of the switches `enabled` and `deep_sleep`.
unfoldable pub switch : Bytes → Option Bool
unfolding is_any
switch value =
    if is_any value (codes "ON" ∷ codes "on" ∷ codes "true" ∷ codes "1" ∷ [])
    then some true
    else if is_any value (codes "OFF" ∷ codes "off" ∷ codes "false" ∷ codes "0" ∷ [])
    then some false
    else none

-- A time of day that is read is a minute of the day.
pub parse_hh_mm-lt : (value : Bytes) {m : ℕ} → parse_hh_mm value ≡ some m → m < 1440
unfolding parse_hh_mm
parse_hh_mm-lt value e = ground arith
