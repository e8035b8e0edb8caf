-- ===== src/Http/Tests.antt =====
-- The download's theorems on a scripted server.
use rs_smarthome_nodes.Base.{◌≡◌, ◌≢◌, refl, true, Bool, arith, ◌++◌, [], ◌∷◌}
use rs_smarthome_nodes.Base.Bytes.{Bytes}
use rs_smarthome_nodes.Base.Result.{ok, err}
use rs_smarthome_nodes.Base.Text.Decimal.{digits_from, parse_uint, show_onto, show}
use rs_smarthome_nodes.Base.Text.{
  codes, is_utf8, from_utf8, trim_start, trim_end, trim, strip_prefix, split_once, split,
}
use rs_smarthome_nodes.Http.{
  Url, starts_with, find_from, find, onto_first, split_lines, eq_ignore_ascii_case,
  content_length_of, parse_head,
}
use rs_smarthome_nodes.Http.Download.{Downloaded, response_to, fetch_delivers}
use rs_smarthome_nodes.Http.Ending.{fetch-ends}
use rs_smarthome_nodes.Http.Fetch.{
  dotted, request_of, refusal, head_parsed, head_step, head_loop, body_sunk, body_step, body_loop,
  body_from, with_head, with_request, fetch, out_of_fuel,
}
use rs_smarthome_nodes.Http.Scripted.{scripted}

abbrev response : Bytes
response = codes "HTTP/1.1 200 OK" ++ 13 ∷ 10 ∷ 13 ∷ 10 ∷ 7 ∷ 8 ∷ 9 ∷ []

abbrev collect : Bytes → Bytes → Bytes × Bool
collect so_far chunk = (so_far ++ chunk, true)

abbrev url : Url
url = record { ip = 192 ∷ 168 ∷ 1 ∷ 67 ∷ []; port = 80; path = codes "/fw/a.bin" }

fetched : (fetch scripted collect url 0 2 2 response []).2 ≡ ok 3
unfolding is_utf8 from_utf8 trim_start trim_end trim strip_prefix split_once split digits_from
    parse_uint show_onto show starts_with find_from find onto_first split_lines eq_ignore_ascii_case
    content_length_of parse_head dotted request_of refusal head_parsed head_step head_loop body_sunk
    body_step body_loop body_from with_head with_request fetch
fetched = refl

fetch_delivers_example :
    (request : Bytes) × (request_of url 0 ≡ ok request)
    × Downloaded scripted collect 2
        (omega arith)
        0
        (response_to scripted collect 2 (omega arith) response request)
        []
        (fetch scripted collect url 0 2 2 response []).1
        3
fetch_delivers_example =
    fetch_delivers scripted collect 2 (omega arith) url 0 2 response [] 3 fetched

fetch-ends_example : (fetch scripted collect url 0 2 30 response []).2 ≢ err out_of_fuel
fetch-ends_example = fetch-ends scripted collect 2 url 0 30 response [] (λ request. omega arith)
