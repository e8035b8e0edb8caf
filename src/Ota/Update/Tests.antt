-- ===== src/Ota/Update/Tests.antt =====
-- An update on an erased board from a scripted server.
use rs_smarthome_nodes.Base.Text.{
  bytes_eq, is_utf8, from_utf8, trim_start, trim_end, trim, strip_prefix, split_once, rsplit_once,
  split,
}
use rs_smarthome_nodes.Base.Text.Decimal.{digits_from, parse_uint, show_onto, show}
use rs_smarthome_nodes.Http.{
  path_split, octets_from, parse_ipv4, parse_url, starts_with, find_from, find, onto_first,
  split_lines, eq_ignore_ascii_case, content_length_of, parse_head,
}
use rs_smarthome_nodes.Http.Fetch.{
  dotted, request_of, refusal, head_parsed, head_step, head_loop, body_sunk, body_step, body_loop,
  body_from, with_head, with_request, fetch,
}
use rs_smarthome_nodes.Ota.{
  entry_to_bytes, entry_from_bytes, slot_for_seq, active, next_seq, pending_to_bytes,
}
use rs_smarthome_nodes.Ota.Flashing.{
  pending_block, read_entry, read_otadata, store_pending, write_entry, activate,
}
use rs_smarthome_nodes.Ota.Offer.{
  until_separator, bare_value, field, is_for_node, checked_offer, parse_offer,
}
use rs_smarthome_nodes.Ota.Update.{start, write_chunk, switched, finished, downloaded, run_update}
use rs_smarthome_nodes.Ota.Writer.{
  slot_offset, slot_size, writer_new, writer_flush, staged, flush_if_full, fill, writer_write,
  writer_finish,
}
use rs_smarthome_nodes.Sha256.{
  rotate_right, block_words, next_word, extend, round, rounds, compress, settle, absorb, update,
  pad, digest, finish,
}
use rs_smarthome_nodes.Sha256.Hex.{nibble, hex_pairs, parse_hex_digest}
use rs_smarthome_nodes.Crc.{
  crc32_bit, crc32_bits, crc32_loop, crc32, entry_crc, crc8_sensirion_bits, crc8_sensirion_loop,
  crc8_sensirion, crc_word, crc8_dallas_bits, crc8_dallas_loop, crc8_dallas,
}
use rs_smarthome_nodes.Flash.Memory.{read_cells}
use rs_smarthome_nodes.Base.{ℕ, ◌≡◌, ◌≢◌, refl, arith, ◌++◌, [], ◌∷◌, replicate, Option, some}
use rs_smarthome_nodes.Base.Bytes.{Bytes}
use rs_smarthome_nodes.Base.Text.{codes}
use rs_smarthome_nodes.Base.Result.{Result, ok, err}
use rs_smarthome_nodes.Flash.Memory.{Cells, memory, blank}
use rs_smarthome_nodes.Http.Scripted.{scripted}
use rs_smarthome_nodes.Ota.Offer.{Offer}
use rs_smarthome_nodes.Ota.Offer.Accepted.{IsAcceptable, parse_offer-IsAcceptable}
use rs_smarthome_nodes.Ota.Tests.{erased, erased-AreInUse}
use rs_smarthome_nodes.Ota.Update.Harmless.{run_update-Untouched, run_update-running}
use rs_smarthome_nodes.Ota.Update.Installed.{Installed, run_update-Installed}
use rs_smarthome_nodes.Ota.Writer.Confined.{Untouched}
use rs_smarthome_nodes.Ota.Writer.{wrong_digest}
use rs_smarthome_nodes.Ota.{Active, target_slot}
use rs_smarthome_nodes.Ota.Update.{UpdateError, bad_image, not_activated}

abbrev offer_json : Bytes
offer_json =
    codes
      "{\"version\":\"n-2\",\"url\":\"http://1.2.3.4/a\",\"sha256\":\"2963fb0a6854370c509018b4b8aa885d27c3c28b5cf3a2a44d55c3a35c8dfd9e\",\"size\":3}"

abbrev image_digest : Bytes
image_digest =
    41 ∷ 99 ∷ 251 ∷ 10 ∷ 104 ∷ 84 ∷ 55 ∷ 12 ∷ 80 ∷ 144 ∷ 24 ∷ 180 ∷ 184 ∷ 170 ∷ 136 ∷ 93 ∷ 39 ∷ 195
    ∷ 194 ∷ 139 ∷ 92 ∷ 243 ∷ 162 ∷ 164 ∷ 77 ∷ 85 ∷ 195 ∷ 163 ∷ 92 ∷ 141 ∷ 253 ∷ 158 ∷ []

abbrev response : Bytes
response = codes "HTTP/1.1 200 OK" ++ 13 ∷ 10 ∷ 13 ∷ 10 ∷ 0xe9 ∷ 1 ∷ 2 ∷ []

-- Its last byte is another one.
abbrev damaged : Bytes
damaged = codes "HTTP/1.1 200 OK" ++ 13 ∷ 10 ∷ 13 ∷ 10 ∷ 0xe9 ∷ 1 ∷ 3 ∷ []

abbrev connect : Bytes → Bytes → ℕ → Option Bytes
connect sent ip port = some sent

abbrev ran : Bytes → Cells × Result UpdateError ℕ
ran sent =
    run_update memory scripted 2 (connect sent) (codes "n-1") (codes "n") (replicate 4096 0)
      offer_json blank

-- The first update of a board has the sequence number 2.
ran_ok : (ran response).1 ≡ ok 2
unfolding bytes_eq is_utf8 from_utf8 trim_start trim_end trim strip_prefix split_once rsplit_once
    split digits_from parse_uint show_onto show path_split octets_from parse_ipv4 parse_url
    starts_with find_from find onto_first split_lines eq_ignore_ascii_case content_length_of
    parse_head dotted request_of refusal head_parsed head_step head_loop body_sunk body_step
    body_loop body_from with_head with_request fetch entry_to_bytes entry_from_bytes slot_for_seq
    active next_seq pending_to_bytes pending_block read_entry read_otadata store_pending write_entry
    activate until_separator bare_value field is_for_node checked_offer parse_offer start
    write_chunk switched finished downloaded run_update slot_offset slot_size writer_new
    writer_flush staged flush_if_full fill writer_write writer_finish rotate_right block_words
    next_word extend round rounds compress settle absorb update pad digest finish nibble hex_pairs
    parse_hex_digest crc32_bit crc32_bits crc32_loop crc32 entry_crc crc8_sensirion_bits
    crc8_sensirion_loop crc8_sensirion crc_word crc8_dallas_bits crc8_dallas_loop crc8_dallas
    read_cells
ran_ok = refl

ran-damaged : (ran damaged).1 ≡ err (bad_image wrong_digest)
unfolding bytes_eq is_utf8 from_utf8 trim_start trim_end trim strip_prefix split_once rsplit_once
    split digits_from parse_uint show_onto show path_split octets_from parse_ipv4 parse_url
    starts_with find_from find onto_first split_lines eq_ignore_ascii_case content_length_of
    parse_head dotted request_of refusal head_parsed head_step head_loop body_sunk body_step
    body_loop body_from with_head with_request fetch entry_to_bytes entry_from_bytes slot_for_seq
    active next_seq pending_to_bytes pending_block read_entry read_otadata store_pending write_entry
    activate until_separator bare_value field is_for_node checked_offer parse_offer start
    write_chunk switched finished downloaded run_update slot_offset slot_size writer_new
    writer_flush staged flush_if_full fill writer_write writer_finish rotate_right block_words
    next_word extend round rounds compress settle absorb update pad digest finish nibble hex_pairs
    parse_hex_digest crc32_bit crc32_bits crc32_loop crc32 entry_crc crc8_sensirion_bits
    crc8_sensirion_loop crc8_sensirion crc_word crc8_dallas_bits crc8_dallas_loop crc8_dallas
    read_cells
ran-damaged = refl

run_update-Installed_example :
    (offer : Offer) × (image : Bytes) × (parse_offer offer_json (codes "n-1") (codes "n")
      ≡ ok offer)
    × Installed memory
        (target_slot (active (read_otadata memory blank)))
        offer
        2
        image
        (ran response).0
run_update-Installed_example =
    run_update-Installed memory scripted 2 (connect response) (codes "n-1") (codes "n")
      (replicate 4096 0) offer_json blank 2 erased-AreInUse ran_ok

another : bad_image wrong_digest ≢ not_activated
another h = cc

run_update-Untouched_example :
    Untouched memory (target_slot (active (read_otadata memory blank))) blank (ran damaged).0
run_update-Untouched_example =
    run_update-Untouched memory scripted 2 (connect damaged) (codes "n-1") (codes "n")
      (replicate 4096 0) offer_json blank (bad_image wrong_digest) ran-damaged another

first_runs : slot_offset (Active.slot (active (read_otadata memory blank))) ≡ 0x1_0000
unfolding slot_offset active
first_runs = rw erased refl

run_update-running_example :
    some (read_cells (ran response).0 0x1_0000 4) ≡ some (read_cells blank 0x1_0000 4)
unfolding slot_size
run_update-running_example =
    run_update-running memory scripted 2 (connect response) (codes "n-1") (codes "n")
      (replicate 4096 0) offer_json blank 0x1_0000 4 (omega (arith, first_runs))
      (omega (arith, first_runs))

parsed_ok :
    parse_offer offer_json (codes "n-1") (codes "n")
    ≡ ok record {
      version = codes "n-2";
      url = codes "http://1.2.3.4/a";
      sha256 = image_digest;
      size = 3;
    }
unfolding bytes_eq trim_start trim_end trim strip_prefix split_once digits_from parse_uint
    starts_with find_from find until_separator bare_value field is_for_node checked_offer
    parse_offer slot_size nibble hex_pairs parse_hex_digest
parsed_ok = refl

parse_offer-IsAcceptable_example : IsAcceptable (codes "n-1") (codes "n") record {
  version = codes "n-2";
  url = codes "http://1.2.3.4/a";
  sha256 = image_digest;
  size = 3;
}
parse_offer-IsAcceptable_example =
    parse_offer-IsAcceptable offer_json (codes "n-1") (codes "n") _ parsed_ok
