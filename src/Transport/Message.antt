-- ===== src/Transport/Message.antt =====
-- The xDS messages of go-control-plane, as far as the program reads them. Both API versions have
-- these fields; `transport.Locality` (transport/request.go) is the version-agnostic locality.
use xds_relay.Prelude.{String, Bool, Option, none, some, List}
use xds_relay.Transport.Metadata.{Fields}

pub record Locality : Type 0 where
  pub region : String
  pub zone : String
  pub sub_zone : String

pub record Node : Type 0 where
  pub id : String
  pub cluster : String
  pub metadata : Option Fields
  pub locality : Option Locality

pub record DiscoveryRequest : Type 0 where
  pub version_info : String
  pub node : Option Node
  pub resource_names : List String
  pub type_url : String
  pub response_nonce : String
  pub error_detail : Option String

-- A resource packed by its type URL (`any.Any`).
pub record AnyResource : Type 0 where
  pub type_url : String
  pub value : String

-- The server that sent a response (`core.ControlPlane`).
pub record ControlPlane : Type 0 where
  pub identifier : String

pub record DiscoveryResponse : Type 0 where
  pub version_info : String
  pub resources : List AnyResource
  pub canary : Bool
  pub type_url : String
  pub nonce : String
  pub control_plane : Option ControlPlane

-- The generated getters of a node that may be nil.
abbrev pub node_id : Option Node → String
node_id none = ""
node_id (some n) = n.id

abbrev pub node_cluster : Option Node → String
node_cluster none = ""
node_cluster (some n) = n.cluster

abbrev pub node_locality : Option Node → Option Locality
node_locality none = none
node_locality (some n) = n.locality

abbrev pub get_region : Option Locality → String
get_region none = ""
get_region (some l) = l.region

abbrev pub get_zone : Option Locality → String
get_zone none = ""
get_zone (some l) = l.zone

abbrev pub get_sub_zone : Option Locality → String
get_sub_zone none = ""
get_sub_zone (some l) = l.sub_zone
