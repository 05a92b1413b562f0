-- ===== src/Rules/Data.antt =====
-- The messages.
use xds_relay.Prelude.{String, Bool, Option, List}
use xds_relay.Prelude.Int.{ℤ}

pub data StringMatch : Type 0 where
  exact_match : String → StringMatch
  regex_match : String → StringMatch
  unset : StringMatch

pub record BoolMatch : Type 0 where
  pub value_match : Bool

pub record LocalityMatch : Type 0 where
  pub region : Option StringMatch
  pub zone : Option StringMatch
  pub sub_zone : Option StringMatch

pub data StructValueMatch : Type 0 where
  string_match : StringMatch → StructValueMatch
  bool_match : BoolMatch → StructValueMatch
  unset : StructValueMatch

-- A path is the list of its segments' keys.
pub record NodeMetadataMatch : Type 0 where
  pub path : List String
  pub value : StructValueMatch

pub data RequestNodeMatch : Type 0 where
  id_match : StringMatch → RequestNodeMatch
  cluster_match : StringMatch → RequestNodeMatch
  locality_match : LocalityMatch → RequestNodeMatch
  node_metadata_match : NodeMetadataMatch → RequestNodeMatch
  unset : RequestNodeMatch

mutual
  pub data MatchPredicate : Type 0 where
    and_match : MatchSet → MatchPredicate
    or_match : MatchSet → MatchPredicate
    not_match : MatchPredicate → MatchPredicate
    any_match : Bool → MatchPredicate
    request_type_match : List String → MatchPredicate
    request_node_match : RequestNodeMatch → MatchPredicate
    unset : MatchPredicate

  pub data MatchSet : Type 0 where
    no_rules : MatchSet
    rule_cons : MatchPredicate → MatchSet → MatchSet

pub data ResultAction : Type 0 where
  exact : Bool → ResultAction
  regex_action : String → String → ResultAction
  unset : ResultAction

pub record LocalityResultAction : Type 0 where
  pub region_action : Option ResultAction
  pub zone_action : Option ResultAction
  pub subzone_action : Option ResultAction

pub record NodeMetadataAction : Type 0 where
  pub path : List String
  pub action : ResultAction

pub data RequestNodeFragment : Type 0 where
  id_action : ResultAction → RequestNodeFragment
  cluster_action : ResultAction → RequestNodeFragment
  locality_action : LocalityResultAction → RequestNodeFragment
  node_metadata_action : NodeMetadataAction → RequestNodeFragment
  unset : RequestNodeFragment

-- `element` is an int32.
pub record ResourceNamesFragment : Type 0 where
  pub element : ℤ
  pub action : ResultAction

mutual
  pub data ResultPredicate : Type 0 where
    and_result : ResultSet → ResultPredicate
    request_node_fragment : RequestNodeFragment → ResultPredicate
    resource_names_fragment : ResourceNamesFragment → ResultPredicate
    string_fragment : String → ResultPredicate
    unset : ResultPredicate

  pub data ResultSet : Type 0 where
    no_results : ResultSet
    result_cons : ResultPredicate → ResultSet → ResultSet

-- A nil `match` answers every getter as `MatchPredicate.unset` does.
pub record Rule : Type 0 where
  pub predicate : MatchPredicate
  pub result : Option ResultPredicate

pub record Fragment : Type 0 where
  pub rules : List Rule

pub record KeyerConfiguration : Type 0 where
  pub fragments : List Fragment
