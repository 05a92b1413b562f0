-- ===== src/Transport/StreamV2.antt =====
-- The V2 streams to the origin server (transport/streamv2.go). The message that is sent is the initial
-- request itself, changed in place, so `send_msg` returns the request as it is left.
use xds_relay.Prelude.{String, not, Option, none, some, str_eq, if◌then◌else◌}
use xds_relay.Outcome.{Outcome, ok, panic, map_ok}
use xds_relay.Transport.Metadata.{string_value, no_fields, set_field, is_nil_map}
use xds_relay.Transport.Message.{Node, DiscoveryRequest, DiscoveryResponse}
use xds_relay.Transport.ResponseV2.{ResponseV2, new_response}

abbrev pub metadata_key : String
metadata_key = "xdsrelay_node_metadata"

-- Writing the extra metadata: a nil node, and metadata whose map decoding left nil, panic.
unfoldable pub add_metadata : String → Option Node → Outcome (Option Node)
unfolding set_field is_nil_map
add_metadata metadata none = panic
add_metadata metadata (some node) = elim node.metadata [
  | none ↦ ok (
      some (record node {
        metadata = some (set_field metadata_key (string_value metadata) no_fields);
      }))
  | some fields ↦
      if is_nil_map fields
      then panic
      else ok (
          some (record node {
            metadata = some (set_field metadata_key (string_value metadata) fields);
          }))
]

-- The version and the nonce are those given, and no error is reported.
unfoldable pub send_msg : String → String → String → DiscoveryRequest → Outcome DiscoveryRequest
unfolding add_metadata
send_msg version nonce metadata msg =
    let ack = record msg { version_info = version; response_nonce = nonce; error_detail = none } in
    if not (str_eq metadata "")
    then map_ok (λ node. record ack { node = node }) (add_metadata metadata ack.node)
    else ok ack

-- A message that arrives answers the initial request.
unfoldable pub recv_msg : DiscoveryRequest → Outcome DiscoveryResponse → Outcome ResponseV2
recv_msg initial received = map_ok (new_response initial) received
