-- ===== src/Mapper/Result.antt =====
-- The fragment that a rule yields (mapper.go: getResult and what it calls).
use xds_relay.Prelude.{
  String, ◌||◌, Option, none, some, List, append, length, get_elem?, if◌then◌else◌,
}
use xds_relay.Prelude.Int.{ℤ, pos, negsuc, is_negative, leb_ℤ, to_int32}
use xds_relay.Outcome.{Outcome, ok, err, panic, ◌>>=◌, map_ok}
use xds_relay.Rules.{
  RequestNodeFragment, ResourceNamesFragment, ResultPredicate, and_result, ResultSet, no_results,
  result_cons, Rule, get_id_action, get_cluster_action, get_locality_action,
  get_node_metadata_action, get_request_node_fragment, get_resource_names_fragment,
  get_string_fragment,
}
use xds_relay.Transport.Request.{Request, get_node_id, get_cluster, get_locality, get_node_metadata}
use xds_relay.Mapper.Regexp.{Regexp}
use xds_relay.Mapper.Action.{
  get_result_fragment_from_action, get_fragment_from_locality_action,
  get_fragment_from_node_metadata_action,
}

-- `resourceNames[index]`: out of range is a run-time panic.
unfoldable pub index_names : List String → ℤ → Outcome String
index_names names (negsuc n) = panic
index_names names (pos n) = elim (get_elem? names n) [ none ↦ panic | some name ↦ ok name ]

-- `if found { builder.WriteString(fragment) }`; `none` is a result that is not found.
abbrev pub write_found : String → Option String → String
write_found builder none = builder
write_found builder (some fragment) = append builder fragment

module _ (re : Regexp) (req : Request) where
  -- A node fragment with no action set is found, and empty.
  unfoldable pub node_fragment : RequestNodeFragment → Outcome String
  node_fragment f = elim (get_id_action f) [
    | some action ↦ get_result_fragment_from_action re (get_node_id req) action
    | none ↦ elim (get_cluster_action f) [
      | some action ↦ get_result_fragment_from_action re (get_cluster req) action
      | none ↦ elim (get_locality_action f) [
        | some action ↦ get_fragment_from_locality_action re (get_locality req) action
        | none ↦ elim (get_node_metadata_action f) [
          | some action ↦ get_fragment_from_node_metadata_action re (get_node_metadata req) action
          | none ↦ ok ""
        ]
      ]
    ]
  ]

  -- `(found, result, err)` is an outcome of an option.
  unfoldable pub get_result_from_request_node_predicate : ResultPredicate → Outcome (Option String)
  unfolding node_fragment
  get_result_from_request_node_predicate p = elim (get_request_node_fragment p) [
    | none ↦ ok none
    | some f ↦ map_ok some (node_fragment f)
  ]

module _ (re : Regexp) (resource_names : List String) where
  unfoldable pub resource_fragment : ResourceNamesFragment → Outcome String
  unfolding index_names
  resource_fragment f =
      if is_negative f.element || leb_ℤ (to_int32 (length resource_names)) f.element
      then err "ResourceNamesFragment.Element cannot be negative or larger than length"
      else (index_names resource_names f.element >>= λ resource.
          get_result_fragment_from_action re resource f.action)

  unfoldable pub get_result_from_resource_names_predicate :
      ResultPredicate → Outcome (Option String)
  unfolding resource_fragment
  get_result_from_resource_names_predicate p = elim (get_resource_names_fragment p) [
    | none ↦ ok none
    | some f ↦ map_ok some (resource_fragment f)
  ]

module _ (re : Regexp) (req : Request) (resource_names : List String) where
  -- `getResultFromAndResultPredicate` and its loop over the results.
  unfoldable mutual
    unfolding get_result_from_request_node_predicate get_result_from_resource_names_predicate

    pub get_result_from_and_result_predicate : ResultPredicate → Outcome (Option String)
    get_result_from_and_result_predicate (and_result results) =
        map_ok some (append_results results "")
    get_result_from_and_result_predicate _ = ok none

    pub append_results : ResultSet → String → Outcome String
    append_results no_results builder = ok builder
    append_results (result_cons result results) builder =
        let with_text = append builder (get_string_fragment (some result)) in
        let nested = get_result_from_and_result_predicate result in
        (do
          node ← get_result_from_request_node_predicate re req result
          name ← get_result_from_resource_names_predicate re resource_names result
          inner ← nested
          append_results results
              (write_found (write_found (write_found with_text node) name) inner))

  -- The three kinds of result in turn, and a string fragment last.
  unfoldable pub get_result_of : ResultPredicate → Outcome String
  unfolding get_result_from_request_node_predicate get_result_from_and_result_predicate
      get_result_from_resource_names_predicate
  get_result_of p = get_result_from_request_node_predicate re req p >>= λ node. elim node [
    | some result ↦ ok result
    | none ↦ get_result_from_and_result_predicate p >>= λ combined. elim combined [
      | some result ↦ ok result
      | none ↦ get_result_from_resource_names_predicate re resource_names p >>= λ name. elim name [
        | some result ↦ ok result
        | none ↦ ok (get_string_fragment (some p))
      ]
    ]
  ]

  -- A rule with no result finds nothing, and yields the empty string fragment.
  unfoldable pub get_result : Rule → Outcome String
  unfolding get_result_of
  get_result rule = elim rule.result [ none ↦ ok "" | some p ↦ get_result_of p ]
