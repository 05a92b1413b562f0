-- ===== src/Transport/RequestV3.antt =====
-- The V3 requests (transport/requestv3.go): a wrapper round a `DiscoveryRequest`.
use xds_relay.Prelude.{String, Option, none, some, List}
use xds_relay.Transport.Metadata.{Fields}
use xds_relay.Transport.Message.{
  Locality, DiscoveryRequest, Node, node_id, node_cluster, node_locality, get_region, get_zone,
  get_sub_zone,
}

pub record RequestV3 : Type 0 where
  pub r : DiscoveryRequest

abbrev pub new_request : DiscoveryRequest → RequestV3
new_request r = record { r = r }

abbrev pub get_resource_names : RequestV3 → List String
get_resource_names req = req.r.resource_names

abbrev pub get_version_info : RequestV3 → String
get_version_info req = req.r.version_info

abbrev pub get_node_id : RequestV3 → String
get_node_id req = node_id req.r.node

abbrev metadata_of : Option Node → Option Fields
metadata_of none = none
metadata_of (some n) = n.metadata

abbrev pub get_node_metadata : RequestV3 → Option Fields
get_node_metadata req = metadata_of req.r.node

abbrev pub get_cluster : RequestV3 → String
get_cluster req = node_cluster req.r.node

abbrev pub get_error : RequestV3 → Option String
get_error req = req.r.error_detail

abbrev pub get_type_url : RequestV3 → String
get_type_url req = req.r.type_url

-- A fresh, non-nil locality is built from whatever is there.
abbrev pub get_locality : RequestV3 → Option Locality
get_locality req =
    let locality = node_locality req.r.node in
    some (record {
      region = get_region locality;
      zone = get_zone locality;
      sub_zone = get_sub_zone locality;
    })

abbrev pub get_response_nonce : RequestV3 → String
get_response_nonce req = req.r.response_nonce
