-- ===== src/Validation/Validity.antt =====
-- The rules that aggregation.proto states for its messages, as a predicate on configurations that
-- names no order and no error.
use xds_relay.Prelude.{All, ◌≤◌, String, ◌≡◌, ◌≢◌, true, false, Option, none, some, List, length}
use xds_relay.Prelude.Int.{is_negative}
use xds_relay.Rules.{
  StringMatch, LocalityMatch, StructValueMatch, NodeMetadataMatch, RequestNodeMatch, MatchPredicate,
  MatchSet, no_rules, rule_cons, ResultAction, LocalityResultAction, NodeMetadataAction,
  RequestNodeFragment, ResourceNamesFragment, ResultPredicate, ResultSet, no_results, result_cons,
  Rule, Fragment, KeyerConfiguration,
}
use xds_relay.Validation.Matches.{size}
use xds_relay.Validation.Results.{count}

-- A predicate on a message if it is there.
abbrev pub IfSet {ℓ} : {A : Type ℓ} → (A → Type 0) → Option A → Type 0
IfSet P none = Unit
IfSet P (some a) = P a

abbrev pub IsStringMatch : StringMatch → Type 0
IsStringMatch m = m ≢ StringMatch.unset

abbrev pub IsLocalityMatch : LocalityMatch → Type 0
IsLocalityMatch m =
    (IfSet IsStringMatch m.region × IfSet IsStringMatch m.zone) × IfSet IsStringMatch m.sub_zone

abbrev pub IsPath : List String → Type 0
IsPath path = (1 ≤ length path) × All (λ key. key ≢ "") path

abbrev pub IsStructValueMatch : StructValueMatch → Type 0
IsStructValueMatch (StructValueMatch.string_match m) = IsStringMatch m
IsStructValueMatch (StructValueMatch.bool_match m) = Unit
IsStructValueMatch StructValueMatch.unset = ⊥

abbrev pub IsNodeMetadataMatch : NodeMetadataMatch → Type 0
IsNodeMetadataMatch m = IsPath m.path × IsStructValueMatch m.value

abbrev pub IsRequestNodeMatch : RequestNodeMatch → Type 0
IsRequestNodeMatch (RequestNodeMatch.id_match m) = IsStringMatch m
IsRequestNodeMatch (RequestNodeMatch.cluster_match m) = IsStringMatch m
IsRequestNodeMatch (RequestNodeMatch.locality_match m) = IsLocalityMatch m
IsRequestNodeMatch (RequestNodeMatch.node_metadata_match m) = IsNodeMetadataMatch m
IsRequestNodeMatch RequestNodeMatch.unset = ⊥

unfoldable mutual
  pub IsMatchPredicate : MatchPredicate → Type 0
  IsMatchPredicate (MatchPredicate.and_match rules) = (2 ≤ size rules) × AreMatchPredicates rules
  IsMatchPredicate (MatchPredicate.or_match rules) = (2 ≤ size rules) × AreMatchPredicates rules
  IsMatchPredicate (MatchPredicate.not_match p) = IsMatchPredicate p
  IsMatchPredicate (MatchPredicate.any_match b) = b ≡ true
  IsMatchPredicate (MatchPredicate.request_type_match types) = 1 ≤ length types
  IsMatchPredicate (MatchPredicate.request_node_match m) = IsRequestNodeMatch m
  IsMatchPredicate MatchPredicate.unset = ⊥

  pub AreMatchPredicates : MatchSet → Type 0
  AreMatchPredicates no_rules = Unit
  AreMatchPredicates (rule_cons p rules) = IsMatchPredicate p × AreMatchPredicates rules

abbrev pub IsResultAction : ResultAction → Type 0
IsResultAction (ResultAction.exact b) = b ≡ true
IsResultAction (ResultAction.regex_action pattern replace) = pattern ≢ ""
IsResultAction ResultAction.unset = ⊥

abbrev pub IsLocalityResultAction : LocalityResultAction → Type 0
IsLocalityResultAction m =
    (IfSet IsResultAction m.region_action × IfSet IsResultAction m.zone_action)
    × IfSet IsResultAction m.subzone_action

abbrev pub IsNodeMetadataAction : NodeMetadataAction → Type 0
IsNodeMetadataAction m = IsPath m.path × IsResultAction m.action

abbrev pub IsRequestNodeFragment : RequestNodeFragment → Type 0
IsRequestNodeFragment (RequestNodeFragment.id_action a) = IsResultAction a
IsRequestNodeFragment (RequestNodeFragment.cluster_action a) = IsResultAction a
IsRequestNodeFragment (RequestNodeFragment.locality_action a) = IsLocalityResultAction a
IsRequestNodeFragment (RequestNodeFragment.node_metadata_action a) = IsNodeMetadataAction a
IsRequestNodeFragment RequestNodeFragment.unset = ⊥

abbrev pub IsResourceNamesFragment : ResourceNamesFragment → Type 0
IsResourceNamesFragment m = (is_negative m.element ≡ false) × IsResultAction m.action

unfoldable mutual
  pub IsResultPredicate : ResultPredicate → Type 0
  IsResultPredicate (ResultPredicate.and_result results) =
      (2 ≤ count results) × AreResultPredicates results
  IsResultPredicate (ResultPredicate.request_node_fragment m) = IsRequestNodeFragment m
  IsResultPredicate (ResultPredicate.resource_names_fragment m) = IsResourceNamesFragment m
  IsResultPredicate (ResultPredicate.string_fragment s) = Unit
  IsResultPredicate ResultPredicate.unset = ⊥

  pub AreResultPredicates : ResultSet → Type 0
  AreResultPredicates no_results = Unit
  AreResultPredicates (result_cons p results) = IsResultPredicate p × AreResultPredicates results

abbrev pub IsResult : Option ResultPredicate → Type 0
IsResult none = ⊥
IsResult (some p) = IsResultPredicate p

abbrev pub IsRule : Rule → Type 0
IsRule rule = IsMatchPredicate rule.predicate × IsResult rule.result

abbrev pub IsFragment : Fragment → Type 0
IsFragment fragment = (1 ≤ length fragment.rules) × All IsRule fragment.rules

abbrev pub IsConfiguration : KeyerConfiguration → Type 0
IsConfiguration config = (1 ≤ length config.fragments) × All IsFragment config.fragments
