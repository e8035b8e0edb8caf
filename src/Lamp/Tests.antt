-- ===== src/Lamp/Tests.antt =====
-- Runs of the lamp on one evening.
use rs_smarthome_nodes.Base.{◌≡◌, refl, false, true}
use rs_smarthome_nodes.Battery.{percent}
use rs_smarthome_nodes.Lamp.Breath.{breath}
use rs_smarthome_nodes.Lamp.{
  duty, default_schedule, shaped, gate_permille, twilight_permille, slopes, window, charge_permille,
}
use rs_smarthome_nodes.Solar.{sun}

switched_off : duty 60 1200 15 3900 false 255 default_schedule ≡ 0
unfolding duty shaped gate_permille
switched_off = refl

evening_light : duty 60 1200 15 3900 true 255 default_schedule ≡ 312
unfolding duty shaped gate_permille twilight_permille slopes window sun charge_permille percent
    breath
evening_light = refl
