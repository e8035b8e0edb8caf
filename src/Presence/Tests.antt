-- ===== src/Presence/Tests.antt =====
-- The presence theorems at concrete readings.
use rs_smarthome_nodes.Base.{arith, List, [], ◌∷◌}
use rs_smarthome_nodes.Base.Int.{ℤ, pos, negsuc}
use rs_smarthome_nodes.Presence.Median.{IsMedian, median-push_all}
use rs_smarthome_nodes.Presence.Window.{latest, push_all}
use rs_smarthome_nodes.Presence.{new, median}

abbrev three : List ℤ
three = pos 7 ∷ negsuc 2 ∷ pos 9 ∷ []

median-push_all_example : IsMedian (latest three) (median (push_all new three))
median-push_all_example =
    median-push_all three
      ((omega arith, omega arith), ((omega arith, omega arith), ((omega arith, omega arith), tt)))
