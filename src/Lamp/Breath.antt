-- ===== src/Lamp/Breath.antt =====
-- The breathing curve of src/lamp.rs.
use rs_smarthome_nodes.Base.{ℕ, List, [], ◌∷◌}

-- `BREATH`: one breath in 256 steps, out of 4095.
unfoldable pub breath : List ℕ
breath =
    0 ∷ 0 ∷ 0 ∷ 0 ∷ 0 ∷ 0 ∷ 0 ∷ 0 ∷ 0 ∷ 0 ∷ 0 ∷ 1 ∷ 1 ∷ 1 ∷ 2 ∷ 2 ∷ 3 ∷ 4 ∷ 5 ∷ 6 ∷ 8 ∷ 10 ∷ 12 ∷ 15
    ∷ 18 ∷ 21 ∷ 25 ∷ 29 ∷ 34 ∷ 40 ∷ 46 ∷ 52 ∷ 60 ∷ 68 ∷ 77 ∷ 87 ∷ 97 ∷ 109 ∷ 122 ∷ 135 ∷ 150 ∷ 165
    ∷ 182 ∷ 200 ∷ 219 ∷ 240 ∷ 261 ∷ 284 ∷ 308 ∷ 334 ∷ 361 ∷ 389 ∷ 419 ∷ 450 ∷ 483 ∷ 517 ∷ 553 ∷ 590
    ∷ 629 ∷ 669 ∷ 710 ∷ 753 ∷ 798 ∷ 844 ∷ 891 ∷ 940 ∷ 990 ∷ 1042 ∷ 1095 ∷ 1149 ∷ 1204 ∷ 1261 ∷ 1319
    ∷ 1378 ∷ 1438 ∷ 1499 ∷ 1561 ∷ 1624 ∷ 1688 ∷ 1753 ∷ 1818 ∷ 1884 ∷ 1950 ∷ 2017 ∷ 2084 ∷ 2152
    ∷ 2220 ∷ 2288 ∷ 2356 ∷ 2424 ∷ 2492 ∷ 2559 ∷ 2626 ∷ 2693 ∷ 2760 ∷ 2825 ∷ 2890 ∷ 2955 ∷ 3018
    ∷ 3080 ∷ 3142 ∷ 3202 ∷ 3261 ∷ 3318 ∷ 3374 ∷ 3428 ∷ 3481 ∷ 3533 ∷ 3582 ∷ 3629 ∷ 3675 ∷ 3718
    ∷ 3760 ∷ 3799 ∷ 3836 ∷ 3871 ∷ 3904 ∷ 3934 ∷ 3961 ∷ 3986 ∷ 4009 ∷ 4029 ∷ 4046 ∷ 4061 ∷ 4073
    ∷ 4083 ∷ 4090 ∷ 4094 ∷ 4095 ∷ 4094 ∷ 4090 ∷ 4083 ∷ 4073 ∷ 4061 ∷ 4046 ∷ 4029 ∷ 4009 ∷ 3986
    ∷ 3961 ∷ 3934 ∷ 3904 ∷ 3871 ∷ 3836 ∷ 3799 ∷ 3760 ∷ 3718 ∷ 3675 ∷ 3629 ∷ 3582 ∷ 3533 ∷ 3481
    ∷ 3428 ∷ 3374 ∷ 3318 ∷ 3261 ∷ 3202 ∷ 3142 ∷ 3080 ∷ 3018 ∷ 2955 ∷ 2890 ∷ 2825 ∷ 2760 ∷ 2693
    ∷ 2626 ∷ 2559 ∷ 2492 ∷ 2424 ∷ 2356 ∷ 2288 ∷ 2220 ∷ 2152 ∷ 2084 ∷ 2017 ∷ 1950 ∷ 1884 ∷ 1818
    ∷ 1753 ∷ 1688 ∷ 1624 ∷ 1561 ∷ 1499 ∷ 1438 ∷ 1378 ∷ 1319 ∷ 1261 ∷ 1204 ∷ 1149 ∷ 1095 ∷ 1042 ∷ 990
    ∷ 940 ∷ 891 ∷ 844 ∷ 798 ∷ 753 ∷ 710 ∷ 669 ∷ 629 ∷ 590 ∷ 553 ∷ 517 ∷ 483 ∷ 450 ∷ 419 ∷ 389 ∷ 361
    ∷ 334 ∷ 308 ∷ 284 ∷ 261 ∷ 240 ∷ 219 ∷ 200 ∷ 182 ∷ 165 ∷ 150 ∷ 135 ∷ 122 ∷ 109 ∷ 97 ∷ 87 ∷ 77
    ∷ 68 ∷ 60 ∷ 52 ∷ 46 ∷ 40 ∷ 34 ∷ 29 ∷ 25 ∷ 21 ∷ 18 ∷ 15 ∷ 12 ∷ 10 ∷ 8 ∷ 6 ∷ 5 ∷ 4 ∷ 3 ∷ 2 ∷ 2 ∷ 1
    ∷ 1 ∷ 1 ∷ 0 ∷ 0 ∷ 0 ∷ 0 ∷ 0 ∷ 0 ∷ 0 ∷ 0 ∷ 0 ∷ 0 ∷ []
