-- ===== src/Validation/Sound.antt =====
-- Validate (aggregation.pb.validate.go) against the rules that aggregation.proto states.
use xds_relay.Prelude.{ℕ, ◌+◌, String, ◌≡◌, ◌↔◌, refl, Option, none, some, List, length}
use xds_relay.Prelude.Int.{is_negative}
use xds_relay.Rules.{
  StringMatch, LocalityMatch, StructValueMatch, NodeMetadataMatch, RequestNodeMatch, MatchPredicate,
  MatchSet, no_rules, rule_cons, ResultAction, LocalityResultAction, NodeMetadataAction,
  RequestNodeFragment, ResourceNamesFragment, ResultPredicate, ResultSet, no_results, result_cons,
  Rule, Fragment, KeyerConfiguration,
}
use xds_relay.Validation.Decides.{
  Decides, both, within, always, never, at_least, must, must_not, nonempty, if_set, each,
}
use xds_relay.Validation.Matches.{
  validate_string_match, validate_locality_match, validate_path_segment, validate_path,
  validate_struct_value_match, validate_node_metadata_match, validate_request_node_match,
  validate_match_predicate, validate_rules, size, validate_bool_match, validate_request_type_match,
}
use xds_relay.Validation.Results.{
  validate_result_action, validate_locality_result_action, validate_node_metadata_action,
  validate_request_node_fragment, validate_resource_names_fragment, validate_result_predicate,
  validate_results, count, validate_regex_action,
}
use xds_relay.Validation.Configuration.{
  validate_result, validate_rule, validate_fragment, validate_configuration,
}
use xds_relay.Validation.Validity.{
  IsStringMatch, IsLocalityMatch, IsPath, IsStructValueMatch, IsNodeMetadataMatch,
  IsRequestNodeMatch, IsMatchPredicate, AreMatchPredicates, IsResultAction, IsLocalityResultAction,
  IsNodeMetadataAction, IsRequestNodeFragment, IsResourceNamesFragment, IsResultPredicate,
  AreResultPredicates, IsResult, IsRule, IsFragment, IsConfiguration,
}

string_match : (m : StringMatch) → Decides (validate_string_match m) (IsStringMatch m)
unfolding validate_string_match
string_match (StringMatch.exact_match s) = (λ e q. cc, λ h. refl)
string_match (StringMatch.regex_match s) = (λ e q. cc, λ h. refl)
string_match StringMatch.unset = (λ e. cc, λ h. absurd (h refl))

locality_match : (m : LocalityMatch) → Decides (validate_locality_match m) (IsLocalityMatch m)
unfolding validate_locality_match
locality_match m =
    both (both (within _ (if_set string_match m.region)) (within _ (if_set string_match m.zone)))
      (within _ (if_set string_match m.sub_zone))

path : (p : List String) → Decides (validate_path p) (IsPath p)
unfolding validate_path validate_path_segment
path p = both (at_least (length p) 1 _) (each (λ key. nonempty key _) "Path" 0 p)

struct_value_match :
    (m : StructValueMatch) → Decides (validate_struct_value_match m) (IsStructValueMatch m)
unfolding validate_struct_value_match validate_bool_match
struct_value_match (StructValueMatch.string_match m) = within _ (string_match m)
struct_value_match (StructValueMatch.bool_match m) = always
struct_value_match StructValueMatch.unset = never _

node_metadata_match :
    (m : NodeMetadataMatch) → Decides (validate_node_metadata_match m) (IsNodeMetadataMatch m)
unfolding validate_node_metadata_match
node_metadata_match m = both (path m.path) (within _ (struct_value_match m.value))

request_node_match :
    (m : RequestNodeMatch) → Decides (validate_request_node_match m) (IsRequestNodeMatch m)
unfolding validate_request_node_match
request_node_match (RequestNodeMatch.id_match m) = within _ (string_match m)
request_node_match (RequestNodeMatch.cluster_match m) = within _ (string_match m)
request_node_match (RequestNodeMatch.locality_match m) = within _ (locality_match m)
request_node_match (RequestNodeMatch.node_metadata_match m) = within _ (node_metadata_match m)
request_node_match RequestNodeMatch.unset = never _

mutual
  unfolding validate_match_predicate validate_rules IsMatchPredicate AreMatchPredicates
      validate_request_type_match

  match_predicate : (p : MatchPredicate) → Decides (validate_match_predicate p) (IsMatchPredicate p)
  match_predicate (MatchPredicate.and_match rules) =
      within _ (both (at_least (size rules) 2 _) (match_rules 0 rules))
  match_predicate (MatchPredicate.or_match rules) =
      within _ (both (at_least (size rules) 2 _) (match_rules 0 rules))
  match_predicate (MatchPredicate.not_match p) = within _ (match_predicate p)
  match_predicate (MatchPredicate.any_match b) = must b _
  match_predicate (MatchPredicate.request_type_match types) = within _ (at_least (length types) 1 _)
  match_predicate (MatchPredicate.request_node_match m) = within _ (request_node_match m)
  match_predicate MatchPredicate.unset = never _

  match_rules :
      (i : ℕ) (rules : MatchSet) → Decides (validate_rules i rules) (AreMatchPredicates rules)
  match_rules i no_rules = always
  match_rules i (rule_cons p rules) =
      both (within _ (match_predicate p)) (match_rules (i + 1) rules)

result_action : (a : ResultAction) → Decides (validate_result_action a) (IsResultAction a)
unfolding validate_result_action validate_regex_action
result_action (ResultAction.exact b) = must b _
result_action (ResultAction.regex_action pattern replace) = within _ (nonempty pattern _)
result_action ResultAction.unset = never _

locality_result_action :
    (m : LocalityResultAction)
    → Decides (validate_locality_result_action m) (IsLocalityResultAction m)
unfolding validate_locality_result_action
locality_result_action m =
    both
      (both (within _ (if_set result_action m.region_action))
        (within _ (if_set result_action m.zone_action)))
      (within _ (if_set result_action m.subzone_action))

node_metadata_action :
    (m : NodeMetadataAction) → Decides (validate_node_metadata_action m) (IsNodeMetadataAction m)
unfolding validate_node_metadata_action
node_metadata_action m = both (path m.path) (within _ (result_action m.action))

request_node_fragment :
    (m : RequestNodeFragment) → Decides (validate_request_node_fragment m) (IsRequestNodeFragment m)
unfolding validate_request_node_fragment
request_node_fragment (RequestNodeFragment.id_action a) = within _ (result_action a)
request_node_fragment (RequestNodeFragment.cluster_action a) = within _ (result_action a)
request_node_fragment (RequestNodeFragment.locality_action a) = within _ (locality_result_action a)
request_node_fragment (RequestNodeFragment.node_metadata_action a) =
    within _ (node_metadata_action a)
request_node_fragment RequestNodeFragment.unset = never _

resource_names_fragment :
    (m : ResourceNamesFragment)
    → Decides (validate_resource_names_fragment m) (IsResourceNamesFragment m)
unfolding validate_resource_names_fragment
resource_names_fragment m =
    both (must_not (is_negative m.element) _) (within _ (result_action m.action))

mutual
  unfolding validate_result_predicate validate_results IsResultPredicate AreResultPredicates

  result_predicate :
      (p : ResultPredicate) → Decides (validate_result_predicate p) (IsResultPredicate p)
  result_predicate (ResultPredicate.and_result results) =
      within _ (both (at_least (count results) 2 _) (results_of 0 results))
  result_predicate (ResultPredicate.request_node_fragment m) = within _ (request_node_fragment m)
  result_predicate (ResultPredicate.resource_names_fragment m) =
      within _ (resource_names_fragment m)
  result_predicate (ResultPredicate.string_fragment s) = always
  result_predicate ResultPredicate.unset = never _

  results_of :
      (i : ℕ) (results : ResultSet)
      → Decides (validate_results i results) (AreResultPredicates results)
  results_of i no_results = always
  results_of i (result_cons p results) =
      both (within _ (result_predicate p)) (results_of (i + 1) results)

result : (o : Option ResultPredicate) → Decides (validate_result o) (IsResult o)
result none = never _
result (some p) = within _ (result_predicate p)

rule : (r : Rule) → Decides (validate_rule r) (IsRule r)
unfolding validate_rule
rule r = both (within _ (match_predicate r.predicate)) (result r.result)

fragment : (f : Fragment) → Decides (validate_fragment f) (IsFragment f)
unfolding validate_fragment
fragment f = both (at_least (length f.rules) 1 _) (each rule "Rules" 0 f.rules)

-- Validate of a configuration returns no error exactly if the configuration obeys the rules of
-- aggregation.proto at every depth.
pub validate_configuration_lem :
    (config : KeyerConfiguration) → (validate_configuration config ≡ none) ↔ IsConfiguration config
unfolding validate_configuration
validate_configuration_lem config =
    both (at_least (length config.fragments) 1 _) (each fragment "Fragments" 0 config.fragments)
