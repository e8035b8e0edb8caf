-- ===== src/Ntp/Tests.antt =====
-- Runs of the parser.
use rs_smarthome_nodes.Base.{◌≡◌, refl}
use rs_smarthome_nodes.Ntp.{parse_response, request, err, not_a_server}

-- A client's own request is no reply.
request_refused : parse_response request ≡ err not_a_server
unfolding parse_response request
request_refused = refl
