-- ===== src/Mapper/Match.antt =====
-- Matching a request against a predicate (mapper.go: isMatch and what it calls, compareString,
-- compareBool, compareLocality, compareNodeMetadata).
use xds_relay.Prelude.{
  ℕ, zero, suc, max, String, Bool, true, false, not, ◌&&◌, ◌||◌, Option, none, some, List, [], ◌∷◌,
  str_eq, if◌then◌else◌,
}
use xds_relay.Outcome.{Outcome, ok, err, panic, ◌>>=◌, map_ok}
use xds_relay.Rules.{
  StringMatch, BoolMatch, LocalityMatch, StructValueMatch, NodeMetadataMatch, MatchPredicate,
  MatchSet, no_rules, rule_cons, get_exact_match, get_regex_match, get_string_match, get_bool_match,
  get_id_match, get_cluster_match, get_locality_match, get_node_metadata_match, get_and_match,
  get_or_match, get_not_match, get_any_match, get_request_type_match, get_request_node_match,
}
use xds_relay.Transport.Metadata.{
  Value, Fields, get_struct_value, get_string_value, get_bool_value, get_fields, lookup_field,
}
use xds_relay.Transport.Message.{Locality}
use xds_relay.Transport.Request.{Request, get_node_id, get_cluster, get_locality, get_node_metadata}
use xds_relay.Mapper.Regexp.{Regexp, match_string}

-- `if err != nil { return false, err }; if matched { return true, nil }`, and then the rest.
abbrev pub or_else : Outcome Bool → Outcome Bool → Outcome Bool
or_else m rest = m >>= λ matched. if matched then ok true else rest

-- The struct that the next segment is looked up in: from the second iteration on it is the one
-- that the last segment led to, and `none` where that is no struct.
unfoldable pub enter : Option Value → Option Fields → Option (Option Fields)
enter none metadata = some metadata
enter (some v) metadata = elim (get_struct_value (some v)) [
  | none ↦ none
  | some fs ↦ some (some fs)
]

-- The loop over the path. `none` is the early `return false, nil`.
unfoldable pub find_value : List String → Option Value → Option Fields → Option (Option Value)
unfolding enter lookup_field
find_value [] value metadata = some value
find_value (segment ∷ path) value metadata = elim (enter value metadata) [
  | none ↦ none
  | some struct ↦ elim (lookup_field segment (get_fields struct)) [
    | none ↦ none
    | some v ↦ find_value path (some v) struct
  ]
]

abbrev pub compare_bool : BoolMatch → Bool → Bool
compare_bool m true = m.value_match
compare_bool m false = not m.value_match

unfoldable pub has_type : String → List String → Bool
has_type type_url [] = false
has_type type_url (t ∷ ts) = str_eq t type_url || has_type type_url ts

module _ (re : Regexp) where
  unfoldable pub compare_string : StringMatch → String → Outcome Bool
  unfolding match_string
  compare_string m node_value =
      if not (str_eq (get_exact_match m) "")
      then ok (str_eq node_value (get_exact_match m))
      else if not (str_eq (get_regex_match m) "")
      then match_string re (get_regex_match m) node_value
      else ok false

  -- A part of the locality that the rule leaves nil is not compared.
  unfoldable pub compare_part : Option StringMatch → String → Outcome Bool
  unfolding compare_string
  compare_part none node_value = ok true
  compare_part (some m) node_value = compare_string m node_value

  unfoldable pub compare_locality : LocalityMatch → Option Locality → Outcome Bool
  unfolding compare_part
  compare_locality m none = err "Locality Node field cannot be empty"
  compare_locality m (some l) = do
    region_match ← compare_part m.region l.region
    zone_match ← compare_part m.zone l.zone
    sub_zone_match ← compare_part m.sub_zone l.sub_zone
    ok (region_match && zone_match && sub_zone_match)

  -- The kinds of value match that are implemented, in the order in which they are tried.
  unfoldable pub compare_value : StructValueMatch → Option Value → Outcome Bool
  unfolding compare_string
  compare_value m value = elim (get_string_match m) [
    | some s ↦ compare_string s (get_string_value value)
    | none ↦ elim (get_bool_match m) [
      | some b ↦ ok (compare_bool b (get_bool_value value))
      | none ↦ err "Invalid NodeMetadata Match"
    ]
  ]

  unfoldable pub compare_node_metadata : NodeMetadataMatch → Option Fields → Outcome Bool
  unfolding find_value compare_value
  compare_node_metadata m none = err "Metadata Node field cannot be empty"
  compare_node_metadata m (some metadata) = elim (find_value m.path none (some metadata)) [
    | none ↦ ok false
    | some value ↦ compare_value m.value value
  ]

  module _ (type_url : String) (req : Request) where
    -- The members of the oneof, checked one by one.
    unfoldable pub is_node_match : MatchPredicate → Outcome Bool
    unfolding compare_string compare_locality compare_node_metadata
    is_node_match p = elim (get_request_node_match p) [
      | none ↦ ok false
      | some predicate ↦ elim (get_id_match predicate) [
        | some m ↦ compare_string m (get_node_id req)
        | none ↦ elim (get_cluster_match predicate) [
          | some m ↦ compare_string m (get_cluster req)
          | none ↦ elim (get_locality_match predicate) [
            | some m ↦ compare_locality m (get_locality req)
            | none ↦ elim (get_node_metadata_match predicate) [
              | some m ↦ compare_node_metadata m (get_node_metadata req)
              | none ↦ err "RequestNodeMatch is invalid"
            ]
          ]
        ]
      ]
    ]

    unfoldable pub is_request_type_match : MatchPredicate → Bool
    unfolding has_type
    is_request_type_match p = elim (get_request_type_match p) [
      | none ↦ false
      | some types ↦ has_type type_url types
    ]

    -- The loops over a match set, and the tests of the members, given the recursive `isMatch`.
    module _ (recur : MatchPredicate → Outcome Bool) where
      unfoldable pub all_match : MatchSet → Outcome Bool
      all_match no_rules = ok true
      all_match (rule_cons rule rules) = do
        matched ← recur rule
        if not matched then ok false else all_match rules

      unfoldable pub any_matches : MatchSet → Outcome Bool
      any_matches no_rules = ok false
      any_matches (rule_cons rule rules) = do
        matched ← recur rule
        if matched then ok true else any_matches rules

      unfoldable pub is_and_match : MatchPredicate → Outcome Bool
      unfolding all_match
      is_and_match p = elim (get_and_match p) [ none ↦ ok false | some rules ↦ all_match rules ]

      unfoldable pub is_or_match : MatchPredicate → Outcome Bool
      unfolding any_matches
      is_or_match p = elim (get_or_match p) [ none ↦ ok false | some rules ↦ any_matches rules ]

      unfoldable pub is_not_match : MatchPredicate → Outcome Bool
      is_not_match p = elim (get_not_match p) [
        | none ↦ ok false
        | some predicate ↦ map_ok not (recur predicate)
      ]

      -- One call of `isMatch`: the members in turn, stopping at an error and at a match.
      unfoldable pub is_match_step : MatchPredicate → Outcome Bool
      unfolding is_node_match is_and_match is_or_match is_not_match is_request_type_match
      is_match_step p = or_else (is_node_match p) (
          or_else (is_and_match p) (
            or_else (is_or_match p)
              (or_else (is_not_match p) (ok (is_request_type_match p || get_any_match p)))))

    -- The recursion, on the depth of the call stack; a stack that overflows is a panic.
    unfoldable pub is_match : ℕ → MatchPredicate → Outcome Bool
    unfolding is_match_step
    is_match zero p = panic
    is_match (suc depth) p = is_match_step (is_match depth) p

-- How deep the calls of `isMatch` nest on a predicate.
unfoldable mutual
  pub depth : MatchPredicate → ℕ
  depth (MatchPredicate.and_match rules) = suc (depth_set rules)
  depth (MatchPredicate.or_match rules) = suc (depth_set rules)
  depth (MatchPredicate.not_match p) = suc (depth p)
  depth (MatchPredicate.any_match b) = 1
  depth (MatchPredicate.request_type_match ts) = 1
  depth (MatchPredicate.request_node_match m) = 1
  depth MatchPredicate.unset = 1

  pub depth_set : MatchSet → ℕ
  depth_set no_rules = 0
  depth_set (rule_cons p rules) = max (depth p) (depth_set rules)
