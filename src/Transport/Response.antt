-- ===== src/Transport/Response.antt =====
-- The version-agnostic response (transport/response.go), and the envelope in which go-control-plane's
-- PassthroughResponse carries it to a client of either API version.
use xds_relay.Prelude.{String, Option, none, some, List}
use xds_relay.Transport.Message.{DiscoveryRequest, DiscoveryResponse, AnyResource}
use xds_relay.Transport.ResponseV2
use xds_relay.Transport.ResponseV2.{ResponseV2}
use xds_relay.Transport.ResponseV3
use xds_relay.Transport.ResponseV3.{ResponseV3}

pub data Response : Type 0 where
  response_v2 : ResponseV2 → Response
  response_v3 : ResponseV3 → Response

abbrev pub get_payload_version : Response → String
get_payload_version (response_v2 r) = ResponseV2.get_payload_version r
get_payload_version (response_v3 r) = ResponseV3.get_payload_version r

abbrev pub get_nonce : Response → String
get_nonce (response_v2 r) = ResponseV2.get_nonce r
get_nonce (response_v3 r) = ResponseV3.get_nonce r

abbrev pub get_type_url : Response → String
get_type_url (response_v2 r) = ResponseV2.get_type_url r
get_type_url (response_v3 r) = ResponseV3.get_type_url r

abbrev pub get_resources : Response → List AnyResource
get_resources (response_v2 r) = ResponseV2.get_resources r
get_resources (response_v3 r) = ResponseV3.get_resources r

-- `Get` and `GetRequest` fill the field of the response's own version and leave the other nil.
pub record ResponseVersion : Type 0 where
  pub v2 : Option DiscoveryResponse
  pub v3 : Option DiscoveryResponse

pub record RequestVersion : Type 0 where
  pub v2 : Option DiscoveryRequest
  pub v3 : Option DiscoveryRequest

abbrev pub get : Response → ResponseVersion
get (response_v2 r) = record { v2 = some r.resp; v3 = none }
get (response_v3 r) = record { v2 = none; v3 = some r.resp }

abbrev pub get_request : Response → RequestVersion
get_request (response_v2 r) = record { v2 = some r.req; v3 = none }
get_request (response_v3 r) = record { v2 = none; v3 = some r.req }

pub record Passthrough : Type 0 where
  pub response : Option DiscoveryResponse
  pub request : Option DiscoveryRequest

abbrev pub passthrough_v2 : Response → Passthrough
passthrough_v2 s = record { response = (get s).v2; request = (get_request s).v2 }

abbrev pub passthrough_v3 : Response → Passthrough
passthrough_v3 s = record { response = (get s).v3; request = (get_request s).v3 }
