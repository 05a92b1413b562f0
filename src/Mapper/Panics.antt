-- ===== src/Mapper/Panics.antt =====
-- GetKey never panics: no index is out of range, and no part of it panics.
use xds_relay.Prelude.{
  ℕ, ◌<◌, String, Bool, false, ◌≡◌, ◌≢◌, some, List, [], ◌∷◌, length, get_elem?, get_elem?_hit,
  arith, ◌||◌, Bool-cases, Option-cases, inl, inr,
}
use xds_relay.Prelude.Int.{ℤ, pos, negsuc, is_negative, leb_ℤ, to_int32}
use xds_relay.Outcome.{ok, err, panic, >>=-ne-panic}
use xds_relay.Rules.{
  ResourceNamesFragment, ResultPredicate, and_result, ResultSet, no_results, result_cons, Rule,
  KeyerConfiguration,
}
use xds_relay.Transport.ResourceTypes.{ResourceTypes}
use xds_relay.Transport.Request.{Request, get_type_url, get_resource_names}
use xds_relay.Mapper.Regexp.{Regexp}
use xds_relay.Mapper.Result.{
  index_names, resource_fragment, get_result_from_request_node_predicate,
  get_result_from_resource_names_predicate, get_result_from_and_result_predicate, append_results,
  get_result_of, get_result,
}
use xds_relay.Mapper.Key.{Counters, get_key}
use xds_relay.Mapper.Plain.{rule_result, rules_result, joined_result, key_result, get_key_lem}
use xds_relay.Mapper.Fragments.{all_rules, fragments_result-all_rules, rule_result-meaning}
use xds_relay.Mapper.PartPanics.{action_safe, node_fragment_safe, meaning_safe}

-- int32(n) is at most n.
below_length : (n i : ℕ) → leb_ℤ (to_int32 n) (pos i) ≡ false → i < n
unfolding to_int32
below_length n i h = ground arith

-- An index that passes the two tests is in range.
index_names_safe :
    (names : List String) (i : ℤ)
    → is_negative i ≡ false
    → leb_ℤ (to_int32 (length names)) i ≡ false
    → index_names names i ≢ panic
unfolding index_names
index_names_safe names (negsuc i) h k = cc
index_names_safe names (pos i) h k =
    let hit : (a : String) × (get_elem? names i ≡ some a) =
      get_elem?_hit names i (below_length (length names) i k) in
    rw (hit.1, index_names) (λ (p : ok hit.0 ≡ panic). cc)

or_false : (a b : Bool) → (a || b) ≡ false → (a ≡ false) × (b ≡ false)
or_false a b h = ground arith

module _ (re : Regexp) (names : List String) where
  resource_fragment_safe : (f : ResourceNamesFragment) → resource_fragment re names f ≢ panic
  unfolding resource_fragment
  resource_fragment_safe f =
      elim (Bool-cases (is_negative f.element || leb_ℤ (to_int32 (length names)) f.element)) [
        | inl outside ↦ rw (outside, resource_fragment) (λ (p : err _ ≡ panic). cc)
        | inr inside ↦
            rw (inside, resource_fragment)
              (>>=-ne-panic _ _
                (index_names_safe names f.element (or_false _ _ inside).0 (or_false _ _ inside).1)
                λ v _. action_safe re v f.action)
      ]

  names_safe : (p : ResultPredicate) → get_result_from_resource_names_predicate re names p ≢ panic
  unfolding get_result_from_resource_names_predicate
  names_safe (ResultPredicate.resource_names_fragment f) = ground (arith, resource_fragment_safe f)
  names_safe (and_result rs) = λ p. cc
  names_safe _ = λ p. cc

module _ (re : Regexp) (req : Request) (names : List String) where
  node_safe : (p : ResultPredicate) → get_result_from_request_node_predicate re req p ≢ panic
  unfolding get_result_from_request_node_predicate
  node_safe (ResultPredicate.request_node_fragment f) = ground (arith, node_fragment_safe re req f)
  node_safe (and_result rs) = λ p. cc
  node_safe _ = λ p. cc

  mutual
    unfolding get_result_from_and_result_predicate

    and_safe : (p : ResultPredicate) → get_result_from_and_result_predicate re req names p ≢ panic
    and_safe (and_result results) = ground (arith, append_safe results "")
    and_safe (ResultPredicate.request_node_fragment f) = λ p. cc
    and_safe (ResultPredicate.resource_names_fragment f) = λ p. cc
    and_safe (ResultPredicate.string_fragment f) = λ p. cc
    and_safe ResultPredicate.unset = λ p. cc

    append_safe :
        (results : ResultSet) (builder : String)
        → append_results re req names results builder ≢ panic
    append_safe no_results builder = λ p. cc
    append_safe (result_cons p results) builder = >>=-ne-panic _ _ (node_safe p) λ a _.
        >>=-ne-panic _ _ (names_safe re names p)
          λ b _. >>=-ne-panic _ _ (and_safe p) λ c _. append_safe results _

  result_of_safe : (p : ResultPredicate) → get_result_of re req names p ≢ panic
  unfolding get_result_of
  result_of_safe p = ground (arith, node_safe p, and_safe p, names_safe re names p)

  result_safe : (rule : Rule) → get_result re req names rule ≢ panic
  unfolding get_result
  result_safe rule = elim (Option-cases rule.result) [
    | inl absent ↦ rw (absent, get_result) (λ p. cc)
    | inr (p, present) ↦ rw (present, get_result) (result_of_safe p)
  ]

module _ (re : Regexp) (req : Request) where
  rule_safe : (rule : Rule) (acc : List String) → rule_result re req rule acc ≢ panic
  rule_safe rule acc = ground (
    arith,
    rule_result-meaning re req rule acc,
    meaning_safe re (get_type_url req) req rule.predicate,
    result_safe re req (get_resource_names req) rule,
  )

  rules_safe : (rules : List Rule) (acc : List String) → rules_result re req rules acc ≢ panic
  unfolding rules_result
  rules_safe [] acc = λ p. cc
  rules_safe (rule ∷ rules) acc =
      >>=-ne-panic _ _ (rule_safe rule acc) λ acc' _. rules_safe rules acc'

-- GetKey returns a key or an error on every request and configuration: it never panics.
pub get_key-ne-panic :
    (types : ResourceTypes) (re : Regexp) (config : KeyerConfiguration) (c : Counters)
    (req : Request)
    → (get_key types re config c req).1 ≢ panic
unfolding key_result joined_result
get_key-ne-panic types re config c req = rw (get_key_lem types re config c req) (
    ground (
      arith,
      fragments_result-all_rules re req config.fragments [],
      rules_safe re req (all_rules config.fragments) [],
    ))
