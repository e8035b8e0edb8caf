-- ===== src/State/Flags.antt =====
-- The flag word: each flag reads what was last written to it, and no write touches another flag.
use rs_smarthome_nodes.Base.{
  ℕ, ◌≡◌, ◌<◌, refl, Bool, true, false, not, ◌&&◌, ltb, arith, &&_parts, ltb→lt, if◌then◌else◌,
}
use rs_smarthome_nodes.Base.Range.{all_below, all_below_sound}
use rs_smarthome_nodes.State.{
  Rtc, flag_init, flag_present, flag_booted, flag_panicked, flag_parked, with_flag, has_flag,
  set_flag,
}

pub data Flag : Type 0 where
  init present booted panicked parked : Flag

abbrev pub bit_of : Flag → ℕ
bit_of init = flag_init
bit_of present = flag_present
bit_of booted = flag_booted
bit_of panicked = flag_panicked
bit_of parked = flag_parked

pub same : Flag → Flag → Bool
same init init = true
same present present = true
same booted booted = true
same panicked panicked = true
same parked parked = true
same _ _ = false

eq_bool : Bool → Bool → Bool
eq_bool true b = b
eq_bool false b = not b

eq_bool→eq : (a b : Bool) → eq_bool a b ≡ true → a ≡ b
unfolding eq_bool
eq_bool→eq a b h = ground arith

abbrev flag_row : Flag → Flag → Bool → ℕ → Bool
flag_row a b on f =
    ltb (with_flag f (bit_of a) on) 64
    && eq_bool (has_flag (with_flag f (bit_of a) on) (bit_of b))
        (if same a b then on else has_flag f (bit_of b))

all_flags : (Flag → Bool) → Bool
all_flags p = p init && p present && p booted && p panicked && p parked

all_flags_sound : (p : Flag → Bool) (a : Flag) → all_flags p ≡ true → p a ≡ true
unfolding all_flags
all_flags_sound p init h = ground arith
all_flags_sound p _ h = ground arith

abbrev both_rows : Flag → Flag → Bool
both_rows a b = all_below 64 (flag_row a b true) && all_below 64 (flag_row a b false)

flag_table : all_flags (λ a. all_flags (both_rows a)) ≡ true
unfolding all_flags all_below with_flag has_flag same eq_bool
flag_table = refl

flag_rows : (a b : Flag) (on : Bool) → all_below 64 (flag_row a b on) ≡ true
flag_rows a b on =
    pick on (
      all_flags_sound (both_rows a) b (all_flags_sound (λ c. all_flags (both_rows c)) a flag_table))
  where
    pick : (on' : Bool) → both_rows a b ≡ true → all_below 64 (flag_row a b on') ≡ true
    pick true h = (&&_parts _ _ h).0
    pick false h = (&&_parts _ _ h).1

-- With no bit set but the six lowest, which every write keeps, a flag reads what was written to it
-- and every other flag reads as before.
pub has_flag-set_flag :
    (a b : Flag) (on : Bool) (s : Rtc)
    → s.flags < 64
    → ((set_flag (bit_of a) on s).flags < 64)
      × (has_flag (set_flag (bit_of a) on s).flags (bit_of b)
          ≡ (if same a b then on else has_flag s.flags (bit_of b)))
unfolding set_flag
has_flag-set_flag a b on s h =
    let row = all_below_sound 64 (flag_row a b on) s.flags (flag_rows a b on) h in
    let (small, reads) = &&_parts _ _ row in (ltb→lt _ _ small, eq_bool→eq _ _ reads)
