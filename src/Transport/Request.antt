-- ===== src/Transport/Request.antt =====
-- The version-agnostic request (transport/request.go): the interface's two implementations, and
-- its methods by dynamic dispatch.
use xds_relay.Prelude.{String, Option, List}
use xds_relay.Transport.Metadata.{Fields}
use xds_relay.Transport.Message.{Locality, DiscoveryRequest}
use xds_relay.Transport.RequestV2
use xds_relay.Transport.RequestV2.{RequestV2}
use xds_relay.Transport.RequestV3
use xds_relay.Transport.RequestV3.{RequestV3}

pub data Request : Type 0 where
  request_v2 : RequestV2 → Request
  request_v3 : RequestV3 → Request

abbrev pub get_resource_names : Request → List String
get_resource_names (request_v2 r) = RequestV2.get_resource_names r
get_resource_names (request_v3 r) = RequestV3.get_resource_names r

abbrev pub get_type_url : Request → String
get_type_url (request_v2 r) = RequestV2.get_type_url r
get_type_url (request_v3 r) = RequestV3.get_type_url r

abbrev pub get_version_info : Request → String
get_version_info (request_v2 r) = RequestV2.get_version_info r
get_version_info (request_v3 r) = RequestV3.get_version_info r

abbrev pub get_node_id : Request → String
get_node_id (request_v2 r) = RequestV2.get_node_id r
get_node_id (request_v3 r) = RequestV3.get_node_id r

abbrev pub get_node_metadata : Request → Option Fields
get_node_metadata (request_v2 r) = RequestV2.get_node_metadata r
get_node_metadata (request_v3 r) = RequestV3.get_node_metadata r

abbrev pub get_cluster : Request → String
get_cluster (request_v2 r) = RequestV2.get_cluster r
get_cluster (request_v3 r) = RequestV3.get_cluster r

abbrev pub get_error : Request → Option String
get_error (request_v2 r) = RequestV2.get_error r
get_error (request_v3 r) = RequestV3.get_error r

abbrev pub get_locality : Request → Option Locality
get_locality (request_v2 r) = RequestV2.get_locality r
get_locality (request_v3 r) = RequestV3.get_locality r

abbrev pub get_response_nonce : Request → String
get_response_nonce (request_v2 r) = RequestV2.get_response_nonce r
get_response_nonce (request_v3 r) = RequestV3.get_response_nonce r

-- The wrapped message, of whichever version (`GetRaw`).
abbrev pub get_raw : Request → DiscoveryRequest
get_raw (request_v2 req) = req.r
get_raw (request_v3 req) = req.r
