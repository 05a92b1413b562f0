-- ===== src/Mapper/Action.antt =====
-- Fragments from a rule's actions (mapper.go: getResultFragmentFromAction,
-- getFragmentFromLocalityAction, getFragmentFromNodeMetadataAction).
use xds_relay.Prelude.{String, Option, none, some, List, [], ◌∷◌, ◌++◌, str_eq, if◌then◌else◌, join}
use xds_relay.Outcome.{Outcome, ok, err, panic, ◌>>=◌}
use xds_relay.Rules.{
  ResultAction, LocalityResultAction, NodeMetadataAction, get_exact, get_pattern, get_replace,
}
use xds_relay.Transport.Metadata.{
  Value, Fields, get_struct_value, get_string_value, get_fields, lookup_field,
}
use xds_relay.Transport.Message.{Locality}
use xds_relay.Mapper.Regexp.{Regexp, replace_all_string}

unfoldable pub join_parts : List String → Outcome String
join_parts [] = err "RequestNodeFragment match resulted in an empty fragment"
join_parts (part ∷ parts) = ok (join (part ∷ parts) "|")

-- The loop over the path: the value at its end.
unfoldable pub walk_path : List String → Option Value → Option Fields → Outcome (Option Value)
unfolding lookup_field
walk_path [] value metadata = ok value
walk_path (segment ∷ path) value metadata = elim (lookup_field segment (get_fields metadata)) [
  | none ↦ err "Path to key is inexistent"
  | some v ↦ walk_path path (some v) (get_struct_value (some v))
]

module _ (re : Regexp) where
  unfoldable pub get_result_fragment_from_action : String → ResultAction → Outcome String
  get_result_fragment_from_action node_value action =
      if get_exact action
      then (if str_eq node_value ""
          then err "RequestNodeFragment exact match resulted in an empty fragment"
          else ok node_value)
      else (replace_all_string re (get_pattern action) node_value (get_replace action)
          >>= λ replaced.
              if str_eq replaced ""
              then err "RequestNodeFragment regex match resulted in an empty fragment"
              else ok replaced)

  -- One of the three blocks: an action that is set appends a fragment to `matches`.
  unfoldable pub append_part : List String → String → Option ResultAction → Outcome (List String)
  unfolding get_result_fragment_from_action
  append_part parts node_value none = ok parts
  append_part parts node_value (some action) = do
    fragment ← get_result_fragment_from_action node_value action
    ok (parts ++ fragment ∷ [])

  -- A nil locality is dereferenced only under an action that is set.
  unfoldable pub get_fragment_from_locality_action :
      Option Locality → LocalityResultAction → Outcome String
  unfolding append_part join_parts
  get_fragment_from_locality_action none action = elim action.region_action [
    | some _ ↦ panic
    | none ↦ elim action.zone_action [
      | some _ ↦ panic
      | none ↦ elim action.subzone_action [ some _ ↦ panic | none ↦ join_parts [] ]
    ]
  ]
  get_fragment_from_locality_action (some l) action = do
    region ← append_part [] l.region action.region_action
    zone ← append_part region l.zone action.zone_action
    subzone ← append_part zone l.sub_zone action.subzone_action
    join_parts subzone

  unfoldable pub get_fragment_from_node_metadata_action :
      Option Fields → NodeMetadataAction → Outcome String
  unfolding walk_path get_result_fragment_from_action
  get_fragment_from_node_metadata_action metadata a = do
    value ← walk_path a.path none metadata
    get_result_fragment_from_action (get_string_value value) a.action
