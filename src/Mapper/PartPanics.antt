-- ===== src/Mapper/PartPanics.antt =====
-- Matching a request and reading a fragment from its node never panic: no nil locality is
-- dereferenced.
use xds_relay.Prelude.{
  String, ◌≢◌, Option, none, some, List, [], ◌∷◌, arith, Option-cases, inl, inr,
}
use xds_relay.Outcome.{panic, >>=-ne-panic}
use xds_relay.Rules.{
  StringMatch, LocalityMatch, StructValueMatch, NodeMetadataMatch, RequestNodeMatch, MatchPredicate,
  MatchSet, no_rules, rule_cons, ResultAction, LocalityResultAction, RequestNodeFragment,
}
use xds_relay.Transport.Metadata.{Fields, Value, get_fields, get_struct_value, lookup_field}
use xds_relay.Transport.Message.{Locality}
use xds_relay.Transport.Request.{Request, request_v2, request_v3}
use xds_relay.Mapper.Regexp.{Regexp, match_string, replace_all_string}
use xds_relay.Mapper.Match.{
  compare_string, compare_part, compare_locality, compare_value, find_value, compare_node_metadata,
  is_node_match,
}
use xds_relay.Mapper.Semantics.{meaning, meaning_all, meaning_any}
use xds_relay.Mapper.Action.{
  get_result_fragment_from_action, append_part, join_parts, get_fragment_from_locality_action,
  walk_path, get_fragment_from_node_metadata_action,
}
use xds_relay.Mapper.Result.{node_fragment}

walk_path_safe :
    (path : List String) (v : Option Value) (md : Option Fields) → walk_path path v md ≢ panic
unfolding walk_path
walk_path_safe [] v md = λ p. cc
walk_path_safe (k ∷ path) v md = elim (Option-cases (lookup_field k (get_fields md))) [
  | inl missing ↦ rw (missing, walk_path) (λ p. cc)
  | inr (w, found) ↦
      rw (found, walk_path) (walk_path_safe path (some w) (get_struct_value (some w)))
]

module _ (re : Regexp) where
  compare_string_safe : (m : StringMatch) (v : String) → compare_string re m v ≢ panic
  unfolding compare_string match_string
  compare_string_safe m v = ground arith

  compare_part_safe : (m : Option StringMatch) (v : String) → compare_part re m v ≢ panic
  unfolding compare_part
  compare_part_safe none v = λ p. cc
  compare_part_safe (some m) v = compare_string_safe m v

  compare_locality_safe :
      (m : LocalityMatch) (l : Option Locality) → compare_locality re m l ≢ panic
  unfolding compare_locality
  compare_locality_safe m none = λ p. cc
  compare_locality_safe m (some l) = ground (
    arith,
    compare_part_safe m.region l.region,
    compare_part_safe m.zone l.zone,
    compare_part_safe m.sub_zone l.sub_zone,
  )

  compare_value_safe :
      (m : StructValueMatch) (value : Option Value) → compare_value re m value ≢ panic
  unfolding compare_value
  compare_value_safe (StructValueMatch.string_match m) value = compare_string_safe m _
  compare_value_safe (StructValueMatch.bool_match m) value = λ p. cc
  compare_value_safe StructValueMatch.unset value = λ p. cc

  compare_node_metadata_safe :
      (m : NodeMetadataMatch) (md : Option Fields) → compare_node_metadata re m md ≢ panic
  unfolding compare_node_metadata
  compare_node_metadata_safe m none = λ p. cc
  compare_node_metadata_safe m (some md) = elim (Option-cases (find_value m.path none (some md))) [
    | inl not_found ↦ rw (not_found, compare_node_metadata) (λ p. cc)
    | inr (value, found) ↦ rw (found, compare_node_metadata) (compare_value_safe m.value value)
  ]

  module _ (type_url : String) (req : Request) where
    is_node_match_safe :
        (m : RequestNodeMatch)
        → is_node_match re type_url req (MatchPredicate.request_node_match m) ≢ panic
    unfolding is_node_match
    is_node_match_safe (RequestNodeMatch.id_match m) = compare_string_safe m _
    is_node_match_safe (RequestNodeMatch.cluster_match m) = compare_string_safe m _
    is_node_match_safe (RequestNodeMatch.locality_match m) = compare_locality_safe m _
    is_node_match_safe (RequestNodeMatch.node_metadata_match m) = compare_node_metadata_safe m _
    is_node_match_safe RequestNodeMatch.unset = λ p. cc

    mutual
      unfolding meaning

      pub meaning_safe : (p : MatchPredicate) → meaning re type_url req p ≢ panic
      meaning_safe (MatchPredicate.and_match rules) = meaning_all_safe rules
      meaning_safe (MatchPredicate.or_match rules) = meaning_any_safe rules
      meaning_safe (MatchPredicate.not_match p) = ground (arith, meaning_safe p)
      meaning_safe (MatchPredicate.any_match b) = λ e. cc
      meaning_safe (MatchPredicate.request_type_match ts) = λ e. cc
      meaning_safe (MatchPredicate.request_node_match m) = is_node_match_safe m
      meaning_safe MatchPredicate.unset = λ e. cc

      meaning_all_safe : (rules : MatchSet) → meaning_all re type_url req rules ≢ panic
      meaning_all_safe no_rules = λ e. cc
      meaning_all_safe (rule_cons p rules) = ground (arith, meaning_safe p, meaning_all_safe rules)

      meaning_any_safe : (rules : MatchSet) → meaning_any re type_url req rules ≢ panic
      meaning_any_safe no_rules = λ e. cc
      meaning_any_safe (rule_cons p rules) = ground (arith, meaning_safe p, meaning_any_safe rules)

  pub action_safe : (v : String) (a : ResultAction) → get_result_fragment_from_action re v a ≢ panic
  unfolding get_result_fragment_from_action replace_all_string
  action_safe v a = ground arith

  append_part_safe :
      (parts : List String) (v : String) (a : Option ResultAction)
      → append_part re parts v a ≢ panic
  unfolding append_part
  append_part_safe parts v none = λ p. cc
  append_part_safe parts v (some a) = ground (arith, action_safe v a)

  locality_action_safe :
      (l : Locality) (a : LocalityResultAction)
      → get_fragment_from_locality_action re (some l) a ≢ panic
  unfolding get_fragment_from_locality_action
  locality_action_safe l a = >>=-ne-panic _ _ (append_part_safe [] l.region a.region_action) λ x _.
      >>=-ne-panic _ _ (append_part_safe x l.zone a.zone_action) λ y _.
        >>=-ne-panic _ _ (append_part_safe y l.sub_zone a.subzone_action) λ z _. join_parts_safe z
    where
      join_parts_safe : (parts : List String) → join_parts parts ≢ panic
      join_parts_safe [] = λ p. cc
      join_parts_safe (x ∷ l) = λ p. cc

  pub node_fragment_safe :
      (req : Request) (f : RequestNodeFragment) → node_fragment re req f ≢ panic
  unfolding node_fragment get_fragment_from_node_metadata_action
  node_fragment_safe req (RequestNodeFragment.id_action a) = action_safe _ a
  node_fragment_safe req (RequestNodeFragment.cluster_action a) = action_safe _ a
  node_fragment_safe (request_v2 r) (RequestNodeFragment.locality_action a) =
      locality_action_safe _ a
  node_fragment_safe (request_v3 r) (RequestNodeFragment.locality_action a) =
      locality_action_safe _ a
  node_fragment_safe req (RequestNodeFragment.node_metadata_action a) =
      >>=-ne-panic _ _ (walk_path_safe a.path none _) λ v _. action_safe _ a.action
  node_fragment_safe req RequestNodeFragment.unset = λ p. cc
