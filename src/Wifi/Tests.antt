-- ===== src/Wifi/Tests.antt =====
-- The theorems at concrete credentials.
use rs_smarthome_nodes.Base.{refl, [], ◌∷◌}
use rs_smarthome_nodes.Base.Text.{codes}
use rs_smarthome_nodes.Wifi.Console.{
  ssid_line, psk_line, save_line, session, new_session, session-Storable, apply_command, Storable,
}
use rs_smarthome_nodes.Wifi.{Credentials, credentials_new}

abbrev garden : Credentials
garden = record { ssid = codes "garten"; psk = codes "geheim" }

session-Storable_example : Storable garden
unfolding session apply_command credentials_new
session-Storable_example =
    session-Storable new_session
      (ssid_line (codes "garten") ∷ psk_line (codes "geheim") ∷ save_line ∷ []) {c = garden} refl
