-- ===== src/Transport/ResponseV3.antt =====
-- The V3 responses (transport/responsev3.go): a `DiscoveryResponse` with the request that it answers.
use xds_relay.Prelude.{String, List}
use xds_relay.Transport.Message.{DiscoveryRequest, DiscoveryResponse, AnyResource}

pub record ResponseV3 : Type 0 where
  pub req : DiscoveryRequest
  pub resp : DiscoveryResponse

abbrev pub new_response : DiscoveryRequest → DiscoveryResponse → ResponseV3
new_response req resp = record { req = req; resp = resp }

abbrev pub get_payload_version : ResponseV3 → String
get_payload_version r = r.resp.version_info

abbrev pub get_type_url : ResponseV3 → String
get_type_url r = r.resp.type_url

abbrev pub get_nonce : ResponseV3 → String
get_nonce r = r.resp.nonce

abbrev pub get_resources : ResponseV3 → List AnyResource
get_resources r = r.resp.resources
