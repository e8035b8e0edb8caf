-- ===== src/Solar/Tests.antt =====
-- Runs of the sun table.
use rs_smarthome_nodes.Base.{◌≡◌, refl}
use rs_smarthome_nodes.Solar.{sun}

midsummer : sun 180 ≡ (200, 1176)
unfolding sun
midsummer = refl
