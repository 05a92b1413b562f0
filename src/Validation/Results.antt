-- ===== src/Validation/Results.antt =====
-- Validate of the messages of a result (aggregation.pb.validate.go).
use xds_relay.Prelude.{ℕ, suc, ◌+◌, String, not, Option, none, some, ltb, str_eq}
use xds_relay.Prelude.Int.{is_negative}
use xds_relay.Rules.{
  ResultAction, LocalityResultAction, NodeMetadataAction, RequestNodeFragment,
  ResourceNamesFragment, ResultPredicate, ResultSet, no_results, result_cons,
}
use xds_relay.Validation.Violation.{
  Violation, field, item, required, too_few_items, too_short, not_true, negative, inside, reject_if,
  ◌then◌, embedded, of_message,
}
use xds_relay.Validation.Matches.{validate_path}

-- That the replacement has fewer than 0 runes is never so.
unfoldable pub validate_regex_action : String → String → Option Violation
validate_regex_action pattern replace =
    reject_if (str_eq pattern "") (inside (field "Pattern") (too_short 1))

unfoldable pub validate_result_action : ResultAction → Option Violation
unfolding validate_regex_action
validate_result_action (ResultAction.exact b) = reject_if (not b) (inside (field "Exact") not_true)
validate_result_action (ResultAction.regex_action pattern replace) =
    embedded (field "RegexAction") (validate_regex_action pattern replace)
validate_result_action ResultAction.unset = some required

unfoldable pub validate_locality_result_action : LocalityResultAction → Option Violation
unfolding validate_result_action
validate_locality_result_action m =
    embedded (field "RegionAction") (of_message validate_result_action m.region_action)
    then embedded (field "ZoneAction") (of_message validate_result_action m.zone_action)
    then embedded (field "SubzoneAction") (of_message validate_result_action m.subzone_action)

unfoldable pub validate_node_metadata_action : NodeMetadataAction → Option Violation
unfolding validate_path validate_result_action
validate_node_metadata_action m =
    validate_path m.path then embedded (field "Action") (validate_result_action m.action)

unfoldable pub validate_request_node_fragment : RequestNodeFragment → Option Violation
unfolding validate_result_action validate_locality_result_action validate_node_metadata_action
validate_request_node_fragment (RequestNodeFragment.id_action a) =
    embedded (field "IdAction") (validate_result_action a)
validate_request_node_fragment (RequestNodeFragment.cluster_action a) =
    embedded (field "ClusterAction") (validate_result_action a)
validate_request_node_fragment (RequestNodeFragment.locality_action a) =
    embedded (field "LocalityAction") (validate_locality_result_action a)
validate_request_node_fragment (RequestNodeFragment.node_metadata_action a) =
    embedded (field "NodeMetadataAction") (validate_node_metadata_action a)
validate_request_node_fragment RequestNodeFragment.unset = some required

unfoldable pub validate_resource_names_fragment : ResourceNamesFragment → Option Violation
unfolding validate_result_action
validate_resource_names_fragment m =
    reject_if (is_negative m.element) (inside (field "Element") negative)
    then embedded (field "Action") (validate_result_action m.action)

abbrev pub count : ResultSet → ℕ
count no_results = 0
count (result_cons p results) = suc (count results)

-- Validate of an and-result, from what the loop over its results returns.
abbrev pub check_and_result : ResultSet → Option Violation → Option Violation
check_and_result results in_loop =
    reject_if (ltb (count results) 2) (inside (field "ResultPredicates") (too_few_items 2))
    then in_loop

unfoldable mutual
  unfolding validate_request_node_fragment validate_resource_names_fragment

  pub validate_result_predicate : ResultPredicate → Option Violation
  validate_result_predicate (ResultPredicate.and_result results) =
      embedded (field "AndResult") (check_and_result results (validate_results 0 results))
  validate_result_predicate (ResultPredicate.request_node_fragment m) =
      embedded (field "RequestNodeFragment") (validate_request_node_fragment m)
  validate_result_predicate (ResultPredicate.resource_names_fragment m) =
      embedded (field "ResourceNamesFragment") (validate_resource_names_fragment m)
  validate_result_predicate (ResultPredicate.string_fragment s) = none
  validate_result_predicate ResultPredicate.unset = some required

  -- The loop over the results, from an index on.
  pub validate_results : ℕ → ResultSet → Option Violation
  validate_results i no_results = none
  validate_results i (result_cons p results) =
      embedded (item "ResultPredicates" i) (validate_result_predicate p)
      then validate_results (i + 1) results
