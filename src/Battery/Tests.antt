-- ===== src/Battery/Tests.antt =====
-- Runs of the charge curve.
use rs_smarthome_nodes.Base.{◌≡◌, refl}
use rs_smarthome_nodes.Battery.{percent}

storage_charge : percent 3700 ≡ 13
unfolding percent
storage_charge = refl
