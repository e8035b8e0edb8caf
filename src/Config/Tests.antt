-- ===== src/Config/Tests.antt =====
-- Runs of the settings, and the theorems about them at concrete values.
use rs_smarthome_nodes.Base.{ℕ, ◌≡◌, ◌<◌, refl, true, Option, none, some, if◌then◌else◌, arith}
use rs_smarthome_nodes.Base.Bytes.{Bytes}
use rs_smarthome_nodes.Base.Float.{Float32, is_at_least_one}
use rs_smarthome_nodes.Base.Int.{ℤ, pos, ◌≤ℤ◌}
use rs_smarthome_nodes.Base.Text.{codes, bytes_eq}
use rs_smarthome_nodes.Base.Words.{u32_mod, InI32}
use rs_smarthome_nodes.Config.Apply.{InRange, default_config-InRange, apply-InRange}
use rs_smarthome_nodes.Config.Blob.RoundTrip.{Fits, reloaded}
use rs_smarthome_nodes.Config.Blob.Stored.{load-store}
use rs_smarthome_nodes.Config.Blob.{load, store}
use rs_smarthome_nodes.Config.{default_config, apply}
use rs_smarthome_nodes.Flash.Memory.{memory, blank}

-- A stand-in for the floats that knows one number, 100.0.
toy_parse : Bytes → Option ℕ
toy_parse s = if bytes_eq s (codes "100") then some 0x42c8_0000 else none

toy_to_i32 : ℕ → ℤ
toy_to_i32 v = if is_at_least_one v then pos 100 else pos 0

toy_parse-lt : (s : Bytes) {v : ℕ} → toy_parse s ≡ some v → v < u32_mod
unfolding toy_parse
toy_parse-lt s e = ground arith

toy-InI32 : (v : ℕ) → InI32 (toy_to_i32 v)
unfolding toy_to_i32
toy-InI32 v = ground arith

toy_positive : (v : ℕ) → is_at_least_one v ≡ true → pos 1 ≤ℤ toy_to_i32 v
unfolding toy_to_i32
toy_positive v h = rw h (omega arith)

abbrev toy : Float32
toy = record {
  parse = toy_parse;
  mul = λ a b. a;
  add = λ a b. a;
  sub = λ a b. a;
  div = λ a b. a;
  of_i32 = λ z. 0x42c8_0000;
  to_i32 = toy_to_i32;
  to_u32 = λ v. 100;
  parse-lt = toy_parse-lt;
  to_i32-InI32 = toy-InI32;
  to_i32_positive = toy_positive;
}

default-Fits : Fits default_config
default-Fits = ground arith

apply-InRange_example : InRange (apply toy (codes "brightness") (codes "300") default_config).0
apply-InRange_example =
    apply-InRange toy (codes "brightness") (codes "300") default_config default_config-InRange

load-store_example : load memory (store memory default_config blank).0 ≡ reloaded default_config
unfolding store
load-store_example = load-store memory default_config blank default_config-InRange default-Fits refl
