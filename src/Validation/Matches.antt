-- ===== src/Validation/Matches.antt =====
-- Validate of the messages of a match (aggregation.pb.validate.go).
use xds_relay.Prelude.{ℕ, suc, ◌+◌, String, not, Option, none, some, List, length, ltb, str_eq}
use xds_relay.Rules.{
  StringMatch, BoolMatch, LocalityMatch, StructValueMatch, NodeMetadataMatch, RequestNodeMatch,
  MatchPredicate, MatchSet, no_rules, rule_cons,
}
use xds_relay.Validation.Violation.{
  Violation, field, item, required, too_few_items, too_short, not_true, inside, reject_if, ◌then◌,
  embedded, of_message, validate_items,
}

unfoldable pub validate_string_match : StringMatch → Option Violation
validate_string_match (StringMatch.exact_match s) = none
validate_string_match (StringMatch.regex_match s) = none
validate_string_match StringMatch.unset = some required

unfoldable pub validate_bool_match : BoolMatch → Option Violation
validate_bool_match m = none

unfoldable pub validate_locality_match : LocalityMatch → Option Violation
unfolding validate_string_match
validate_locality_match m =
    embedded (field "Region") (of_message validate_string_match m.region)
    then embedded (field "Zone") (of_message validate_string_match m.zone)
    then embedded (field "SubZone") (of_message validate_string_match m.sub_zone)

-- A segment is its key.
unfoldable pub validate_path_segment : String → Option Violation
validate_path_segment key = reject_if (str_eq key "") (inside (field "Key") (too_short 1))

unfoldable pub validate_path : List String → Option Violation
unfolding validate_path_segment validate_items
validate_path path =
    reject_if (ltb (length path) 1) (inside (field "Path") (too_few_items 1))
    then validate_items validate_path_segment "Path" 0 path

unfoldable pub validate_struct_value_match : StructValueMatch → Option Violation
unfolding validate_string_match validate_bool_match
validate_struct_value_match (StructValueMatch.string_match m) =
    embedded (field "StringMatch") (validate_string_match m)
validate_struct_value_match (StructValueMatch.bool_match m) =
    embedded (field "BoolMatch") (validate_bool_match m)
validate_struct_value_match StructValueMatch.unset = some required

unfoldable pub validate_node_metadata_match : NodeMetadataMatch → Option Violation
unfolding validate_path validate_struct_value_match
validate_node_metadata_match m =
    validate_path m.path then embedded (field "Match") (validate_struct_value_match m.value)

unfoldable pub validate_request_type_match : List String → Option Violation
validate_request_type_match types =
    reject_if (ltb (length types) 1) (inside (field "Types") (too_few_items 1))

unfoldable pub validate_request_node_match : RequestNodeMatch → Option Violation
unfolding validate_string_match validate_locality_match validate_node_metadata_match
validate_request_node_match (RequestNodeMatch.id_match m) =
    embedded (field "IdMatch") (validate_string_match m)
validate_request_node_match (RequestNodeMatch.cluster_match m) =
    embedded (field "ClusterMatch") (validate_string_match m)
validate_request_node_match (RequestNodeMatch.locality_match m) =
    embedded (field "LocalityMatch") (validate_locality_match m)
validate_request_node_match (RequestNodeMatch.node_metadata_match m) =
    embedded (field "NodeMetadataMatch") (validate_node_metadata_match m)
validate_request_node_match RequestNodeMatch.unset = some required

abbrev pub size : MatchSet → ℕ
size no_rules = 0
size (rule_cons p rules) = suc (size rules)

-- Validate of a match set, from what the loop over its rules returns.
abbrev pub check_match_set : MatchSet → Option Violation → Option Violation
check_match_set rules in_loop =
    reject_if (ltb (size rules) 2) (inside (field "Rules") (too_few_items 2)) then in_loop

unfoldable mutual
  unfolding validate_request_type_match validate_request_node_match

  pub validate_match_predicate : MatchPredicate → Option Violation
  validate_match_predicate (MatchPredicate.and_match rules) =
      embedded (field "AndMatch") (check_match_set rules (validate_rules 0 rules))
  validate_match_predicate (MatchPredicate.or_match rules) =
      embedded (field "OrMatch") (check_match_set rules (validate_rules 0 rules))
  validate_match_predicate (MatchPredicate.not_match p) =
      embedded (field "NotMatch") (validate_match_predicate p)
  validate_match_predicate (MatchPredicate.any_match b) =
      reject_if (not b) (inside (field "AnyMatch") not_true)
  validate_match_predicate (MatchPredicate.request_type_match types) =
      embedded (field "RequestTypeMatch") (validate_request_type_match types)
  validate_match_predicate (MatchPredicate.request_node_match m) =
      embedded (field "RequestNodeMatch") (validate_request_node_match m)
  validate_match_predicate MatchPredicate.unset = some required

  -- The loop over the rules, from an index on.
  pub validate_rules : ℕ → MatchSet → Option Violation
  validate_rules i no_rules = none
  validate_rules i (rule_cons p rules) =
      embedded (item "Rules" i) (validate_match_predicate p) then validate_rules (i + 1) rules
