-- ===== src/Tests/Helpers.antt =====
-- A concentratord that answers the request for the gateway id.
use chirpstack_udp_forwarder.Prelude.{◌≡◌, ◌↔◌, false, some, [], ◌∷◌, refl}
use chirpstack_udp_forwarder.Prelude.Outcome.{ok}
use chirpstack_udp_forwarder.Helpers.{get_gateway_id}
use chirpstack_udp_forwarder.Helpers.Laws.{Answers, get_gateway_id_iff}
use chirpstack_udp_forwarder.Tests.Instance.{Sock, scripted}
use chirpstack_udp_forwarder.Tests.Structs.{gateway}

abbrev sock : Sock
sock = (false, some gateway ∷ [])

get_gateway_id_iff_example :
    (get_gateway_id scripted sock ≡ ok gateway) ↔ Answers scripted sock gateway
get_gateway_id_iff_example = get_gateway_id_iff scripted sock gateway

gateway_id_read : get_gateway_id scripted sock ≡ ok gateway
unfolding get_gateway_id
gateway_id_read = refl
