-- ===== src/Mapper/Invariance.antt =====
-- What a key does not depend on: the version of the API, and the request's version, nonce and error.
use xds_relay.Prelude.{
  String, true, false, ◌≡◌, refl, ap, some, List, [], ◌∷◌, arith, if◌then◌else◌, ap₂, not,
  Option-cases, inl, inr, append, ◌∙◌, sym,
}
use xds_relay.Outcome.{ok, ◌>>=◌, map_ok}
use xds_relay.Rules.{
  MatchPredicate, MatchSet, no_rules, rule_cons, RequestNodeMatch, RequestNodeFragment,
  ResultPredicate, and_result, ResultSet, no_results, result_cons, Rule, KeyerConfiguration,
  get_string_fragment,
}
use xds_relay.Transport.ResourceTypes.{ResourceTypes}
use xds_relay.Transport.Request.{
  Request, get_type_url, get_resource_names, get_node_id, get_cluster, get_locality,
  get_node_metadata,
}
use xds_relay.Mapper.Regexp.{Regexp}
use xds_relay.Mapper.Match.{
  has_type, is_node_match, compare_string, compare_locality, compare_node_metadata,
}
use xds_relay.Mapper.Semantics.{meaning, meaning_all, meaning_any}
use xds_relay.Mapper.Action.{
  get_result_fragment_from_action, get_fragment_from_locality_action,
  get_fragment_from_node_metadata_action,
}
use xds_relay.Mapper.Result.{
  node_fragment, get_result_from_request_node_predicate, get_result_from_resource_names_predicate,
  get_result_from_and_result_predicate, append_results, get_result_of, get_result, write_found,
}
use xds_relay.Mapper.Key.{Counters, get_key, is_eds}
use xds_relay.Mapper.Plain.{rule_result, rules_result, fragments_result, key_result, get_key_lem}
use xds_relay.Mapper.Fragments.{all_rules, fragments_result-all_rules, rule_result-meaning}

-- Two requests that agree on the type URL, the resource names and the node.
pub record SameSubject (r s : Request) : Type 0 where
  pub type_url : get_type_url r ≡ get_type_url s
  pub resource_names : get_resource_names r ≡ get_resource_names s
  pub node_id : get_node_id r ≡ get_node_id s
  pub cluster : get_cluster r ≡ get_cluster s
  pub locality : get_locality r ≡ get_locality s
  pub metadata : get_node_metadata r ≡ get_node_metadata s

module _ (re : Regexp) {r s : Request} (same : SameSubject r s) where
  node_match_same :
      (m : RequestNodeMatch)
      → is_node_match re (get_type_url r) r (MatchPredicate.request_node_match m)
        ≡ is_node_match re (get_type_url s) s (MatchPredicate.request_node_match m)
  unfolding is_node_match
  node_match_same (RequestNodeMatch.id_match m) = ap (compare_string re m) same.node_id
  node_match_same (RequestNodeMatch.cluster_match m) = ap (compare_string re m) same.cluster
  node_match_same (RequestNodeMatch.locality_match m) = ap (compare_locality re m) same.locality
  node_match_same (RequestNodeMatch.node_metadata_match m) =
      ap (compare_node_metadata re m) same.metadata
  node_match_same RequestNodeMatch.unset = refl

  mutual
    unfolding meaning

    meaning_same :
        (p : MatchPredicate) → meaning re (get_type_url r) r p ≡ meaning re (get_type_url s) s p
    meaning_same (MatchPredicate.and_match rules) = meaning_all_same rules
    meaning_same (MatchPredicate.or_match rules) = meaning_any_same rules
    meaning_same (MatchPredicate.not_match p) = ap (map_ok not) (meaning_same p)
    meaning_same (MatchPredicate.any_match b) = refl
    meaning_same (MatchPredicate.request_type_match ts) = ap (λ u. ok (has_type u ts)) same.type_url
    meaning_same (MatchPredicate.request_node_match m) = node_match_same m
    meaning_same MatchPredicate.unset = refl

    meaning_all_same :
        (rules : MatchSet)
        → meaning_all re (get_type_url r) r rules ≡ meaning_all re (get_type_url s) s rules
    meaning_all_same no_rules = refl
    meaning_all_same (rule_cons p rules) =
        ap₂ (λ m rest. m >>= λ b. if b then rest else ok false) (meaning_same p)
          (meaning_all_same rules)

    meaning_any_same :
        (rules : MatchSet)
        → meaning_any re (get_type_url r) r rules ≡ meaning_any re (get_type_url s) s rules
    meaning_any_same no_rules = refl
    meaning_any_same (rule_cons p rules) =
        ap₂ (λ m rest. m >>= λ b. if b then ok true else rest) (meaning_same p)
          (meaning_any_same rules)

  fragment_same : (f : RequestNodeFragment) → node_fragment re r f ≡ node_fragment re s f
  unfolding node_fragment
  fragment_same (RequestNodeFragment.id_action a) =
      ap (λ v. get_result_fragment_from_action re v a) same.node_id
  fragment_same (RequestNodeFragment.cluster_action a) =
      ap (λ v. get_result_fragment_from_action re v a) same.cluster
  fragment_same (RequestNodeFragment.locality_action a) =
      ap (λ v. get_fragment_from_locality_action re v a) same.locality
  fragment_same (RequestNodeFragment.node_metadata_action a) =
      ap (λ v. get_fragment_from_node_metadata_action re v a) same.metadata
  fragment_same RequestNodeFragment.unset = refl

  node_predicate_same :
      (p : ResultPredicate)
      → get_result_from_request_node_predicate re r p
        ≡ get_result_from_request_node_predicate re s p
  unfolding get_result_from_request_node_predicate
  node_predicate_same (ResultPredicate.request_node_fragment f) = ap (map_ok some) (fragment_same f)
  node_predicate_same (ResultPredicate.and_result rs) = refl
  node_predicate_same _ = refl

  names_same :
      (p : ResultPredicate)
      → get_result_from_resource_names_predicate re (get_resource_names r) p
        ≡ get_result_from_resource_names_predicate re (get_resource_names s) p
  names_same p =
      ap (λ names. get_result_from_resource_names_predicate re names p) same.resource_names

  mutual
    unfolding get_result_from_and_result_predicate

    and_same :
        (p : ResultPredicate)
        → get_result_from_and_result_predicate re r (get_resource_names r) p
          ≡ get_result_from_and_result_predicate re s (get_resource_names s) p
    and_same (and_result results) = ap (map_ok some) (append_same results "")
    and_same (ResultPredicate.request_node_fragment f) = refl
    and_same (ResultPredicate.resource_names_fragment f) = refl
    and_same (ResultPredicate.string_fragment f) = refl
    and_same ResultPredicate.unset = refl

    append_same :
        (results : ResultSet) (builder : String)
        → append_results re r (get_resource_names r) results builder
          ≡ append_results re s (get_resource_names s) results builder
    append_same no_results builder = refl
    append_same (result_cons p results) builder = λ i. node_predicate_same p i >>= λ node.
        names_same p i >>= λ name. and_same p i >>= λ inner.
        append_same results
          (write_found
            (write_found (write_found (append builder (get_string_fragment (some p))) node) name)
            inner)
          i

  result_of_same :
      (p : ResultPredicate)
      → get_result_of re r (get_resource_names r) p ≡ get_result_of re s (get_resource_names s) p
  unfolding get_result_of
  result_of_same p = ground (arith, node_predicate_same p, and_same p, names_same p)

  result_same :
      (rule : Rule)
      → get_result re r (get_resource_names r) rule ≡ get_result re s (get_resource_names s) rule
  unfolding get_result
  result_same rule = elim (Option-cases rule.result) [
    | inl absent ↦ rw (absent, get_result)
    | inr (p, present) ↦ rw (present, get_result) (result_of_same p)
  ]

  rule_same :
      (rule : Rule) (acc : List String) → rule_result re r rule acc ≡ rule_result re s rule acc
  rule_same rule acc = rw (
    rule_result-meaning re r rule acc,
    rule_result-meaning re s rule acc,
    meaning_same rule.predicate,
    result_same rule,
  )

  rules_same :
      (rules : List Rule) (acc : List String)
      → rules_result re r rules acc ≡ rules_result re s rules acc
  unfolding rules_result
  rules_same [] acc = refl
  rules_same (rule ∷ rules) acc = λ i. rule_same rule acc i >>= λ acc'. rules_same rules acc' i

-- Requests that agree on the type URL, the resource names and the node get the same key or error,
-- and count alike, whatever their versions, nonces and error details and whichever API version they
-- speak.
pub get_key_same :
    (types : ResourceTypes) (re : Regexp) (config : KeyerConfiguration) (c : Counters)
    (r s : Request)
    → SameSubject r s
    → get_key types re config c r ≡ get_key types re config c s
unfolding key_result is_eds
get_key_same types re config c r s same =
    let found : fragments_result re r config.fragments []
        ≡ fragments_result re s config.fragments [] =
      fragments_result-all_rules re r config.fragments []
      ∙ rules_same re same (all_rules config.fragments) []
      ∙ sym (fragments_result-all_rules re s config.fragments []) in
    get_key_lem types re config c r
    ∙ rw (same.type_url, same.resource_names, found) refl
    ∙ sym (get_key_lem types re config c s)
