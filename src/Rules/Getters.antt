-- ===== src/Rules/Getters.antt =====
-- The generated getters: nil, or the zero value, where the oneof holds another member.
use xds_relay.Prelude.{String, Bool, false, Option, none, some, List}
use xds_relay.Rules.Data.{
  StringMatch, BoolMatch, LocalityMatch, StructValueMatch, NodeMetadataMatch, RequestNodeMatch,
  MatchPredicate, MatchSet, ResultAction, LocalityResultAction, NodeMetadataAction,
  RequestNodeFragment, ResourceNamesFragment, ResultPredicate, ResultSet,
}

abbrev pub get_exact_match : StringMatch → String
get_exact_match (StringMatch.exact_match s) = s
get_exact_match _ = ""

abbrev pub get_regex_match : StringMatch → String
get_regex_match (StringMatch.regex_match s) = s
get_regex_match _ = ""

abbrev pub get_string_match : StructValueMatch → Option StringMatch
get_string_match (StructValueMatch.string_match m) = some m
get_string_match _ = none

abbrev pub get_bool_match : StructValueMatch → Option BoolMatch
get_bool_match (StructValueMatch.bool_match m) = some m
get_bool_match _ = none

abbrev pub get_id_match : RequestNodeMatch → Option StringMatch
get_id_match (RequestNodeMatch.id_match m) = some m
get_id_match _ = none

abbrev pub get_cluster_match : RequestNodeMatch → Option StringMatch
get_cluster_match (RequestNodeMatch.cluster_match m) = some m
get_cluster_match _ = none

abbrev pub get_locality_match : RequestNodeMatch → Option LocalityMatch
get_locality_match (RequestNodeMatch.locality_match m) = some m
get_locality_match _ = none

abbrev pub get_node_metadata_match : RequestNodeMatch → Option NodeMetadataMatch
get_node_metadata_match (RequestNodeMatch.node_metadata_match m) = some m
get_node_metadata_match _ = none

abbrev pub get_and_match : MatchPredicate → Option MatchSet
get_and_match (MatchPredicate.and_match s) = some s
get_and_match _ = none

abbrev pub get_or_match : MatchPredicate → Option MatchSet
get_or_match (MatchPredicate.or_match s) = some s
get_or_match _ = none

abbrev pub get_not_match : MatchPredicate → Option MatchPredicate
get_not_match (MatchPredicate.not_match p) = some p
get_not_match _ = none

abbrev pub get_any_match : MatchPredicate → Bool
get_any_match (MatchPredicate.any_match b) = b
get_any_match _ = false

abbrev pub get_request_type_match : MatchPredicate → Option (List String)
get_request_type_match (MatchPredicate.request_type_match ts) = some ts
get_request_type_match _ = none

abbrev pub get_request_node_match : MatchPredicate → Option RequestNodeMatch
get_request_node_match (MatchPredicate.request_node_match m) = some m
get_request_node_match _ = none

abbrev pub get_exact : ResultAction → Bool
get_exact (ResultAction.exact b) = b
get_exact _ = false

abbrev pub get_pattern : ResultAction → String
get_pattern (ResultAction.regex_action p r) = p
get_pattern _ = ""

abbrev pub get_replace : ResultAction → String
get_replace (ResultAction.regex_action p r) = r
get_replace _ = ""

abbrev pub get_id_action : RequestNodeFragment → Option ResultAction
get_id_action (RequestNodeFragment.id_action a) = some a
get_id_action _ = none

abbrev pub get_cluster_action : RequestNodeFragment → Option ResultAction
get_cluster_action (RequestNodeFragment.cluster_action a) = some a
get_cluster_action _ = none

abbrev pub get_locality_action : RequestNodeFragment → Option LocalityResultAction
get_locality_action (RequestNodeFragment.locality_action a) = some a
get_locality_action _ = none

abbrev pub get_node_metadata_action : RequestNodeFragment → Option NodeMetadataAction
get_node_metadata_action (RequestNodeFragment.node_metadata_action a) = some a
get_node_metadata_action _ = none

abbrev pub get_and_result : ResultPredicate → Option ResultSet
get_and_result (ResultPredicate.and_result rs) = some rs
get_and_result _ = none

abbrev pub get_request_node_fragment : ResultPredicate → Option RequestNodeFragment
get_request_node_fragment (ResultPredicate.request_node_fragment f) = some f
get_request_node_fragment _ = none

abbrev pub get_resource_names_fragment : ResultPredicate → Option ResourceNamesFragment
get_resource_names_fragment (ResultPredicate.resource_names_fragment f) = some f
get_resource_names_fragment _ = none

abbrev pub get_string_fragment : Option ResultPredicate → String
get_string_fragment (some (ResultPredicate.string_fragment s)) = s
get_string_fragment _ = ""
