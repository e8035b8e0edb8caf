-- ===== src/Wifi/Boot.antt =====
-- What is stored from the console is in force at the next boot.
use rs_smarthome_nodes.Base.{◌≤◌, ◌<◌, ◌≡◌, true, false, some, [], ◌∷◌, length, arith}
use rs_smarthome_nodes.Base.Bytes.{Bytes}
use rs_smarthome_nodes.Base.Text.{is_utf8}
use rs_smarthome_nodes.Config.Credentials.{store_credentials}
use rs_smarthome_nodes.Config.Credentials.RoundTrip.{load-store_credentials}
use rs_smarthome_nodes.Flash.{Storage}
use rs_smarthome_nodes.Wifi.{Credentials, credentials_new, is_placeholder, resolve, init, stored}

pub credentials_new_lem :
    (ssid psk : Bytes)
    → 0 < length ssid
    → length ssid ≤ 32
    → length psk ≤ 64
    → credentials_new ssid psk ≡ some record { ssid = ssid; psk = psk }
unfolding credentials_new
credentials_new_lem [] psk h0 h k = absurd (omega arith)
credentials_new_lem (x ∷ ssid) psk h0 h k = ground arith

module _ (flash : Storage) where
  open flash use {Chip}

  -- A network's name of 1 to 32 bytes other than the placeholder and a passphrase of up to 64, both UTF-8,
  -- are, once stored without an error, in force at the next boot, whatever the image was built with.
  pub init-store_credentials :
      (ssid psk : Bytes) (chip : Chip) (built : Credentials)
      → 0 < length ssid
      → length ssid ≤ 32
      → length psk ≤ 64
      → is_utf8 ssid ≡ true
      → is_utf8 psk ≡ true
      → is_placeholder record { ssid = ssid; psk = psk } ≡ false
      → (store_credentials flash ssid psk chip).1 ≡ true
      → init flash (store_credentials flash ssid psk chip).0 built
        ≡ (record { ssid = ssid; psk = psk }, stored)
  unfolding init resolve
  init-store_credentials ssid psk chip built h0 h k u v real done = simp (
    load-store_credentials flash ssid psk chip h0 h k u v done,
    credentials_new_lem ssid psk h0 h k,
    real,
  )
