-- ===== src/Ntp/Packet.antt =====
-- Which packets are taken for a reply.
use rs_smarthome_nodes.Base.{
  ℕ, ◌/◌, ◌%◌, ◌≤◌, ◌<◌, ◌≡◌, ◌≢◌, ◌↔◌, true, refl, length, arith, bit_and, ◌==◌,
}
use rs_smarthome_nodes.Base.Range.{all_below, all_below_sound}
use rs_smarthome_nodes.Base.Bytes.{Bytes, byte_at, be_at}
use rs_smarthome_nodes.Ntp.{unix_millis, packet_len, parse_response, ok}

mode_table : all_below 256 (λ x. bit_and x 7 == x % 8) ≡ true
unfolding all_below
mode_table = refl

mode_lem : (x : ℕ) → x < 256 → bit_and x 7 ≡ x % 8
mode_lem x h = ground (arith, all_below_sound 256 (λ k. bit_and k 7 == k % 8) x mode_table h)

-- A packet whose first item is a byte is accepted exactly if it is long enough, comes from a server
-- that says it is synchronised and carries a time; the time is then that of its transmit timestamp.
pub parse_response_iff :
    (packet : Bytes) (millis : ℕ)
    → byte_at packet 0 < 256
    → (parse_response packet ≡ ok millis) ↔ (
        (packet_len ≤ length packet)
        × (byte_at packet 0 % 8 ≡ 4)
        × (byte_at packet 0 / 64 ≢ 3)
        × (0 < byte_at packet 1)
        × (byte_at packet 1 < 16)
        × (0 < be_at packet 40)
        × (millis ≡ unix_millis (be_at packet 40) (be_at packet 44)))
unfolding parse_response
parse_response_iff packet millis h = ground (arith, mode_lem (byte_at packet 0) h)
