-- ===== src/Tests/Validating.antt =====
-- The validation of configurations, on data of Fixtures and a configuration that is refused.
use xds_relay.Prelude.{All, String, true, ◌≡◌, ◌↔◌, refl, ◌⊎◌, inr, none, some, [], ◌∷◌}
use xds_relay.Outcome.{err}
use xds_relay.Rules.{
  StringMatch, RequestNodeMatch, MatchPredicate, rule_cons, no_rules, ResultPredicate, Rule,
  KeyerConfiguration,
}
use xds_relay.Transport.Request.{Request}
use xds_relay.Mapper.Regexp.{Regexp}
use xds_relay.Mapper.Match.{is_match, depth}
use xds_relay.Mapper.Fragments.{all_rules}
use xds_relay.Validation.Violation.{field, item, too_few_items, required, inside}
use xds_relay.Validation.Configuration.{
  validate_configuration, from_yaml_to_keyer_configuration, check_loaded,
}
use xds_relay.Validation.Validity.{IsConfiguration}
use xds_relay.Validation.Sound.{validate_configuration_lem}
use xds_relay.Validation.Loaded.{IsRequestError, loaded_errors}
use xds_relay.Tests.Fixtures.{joined}

-- An and-match of one rule only, and one whose second rule has an unset string match.
abbrev with_predicate : MatchPredicate → KeyerConfiguration
with_predicate p = record {
  fragments =
      record {
        rules = record { predicate = p; result = some (ResultPredicate.string_fragment "x") } ∷ [];
      }
      ∷ [];
}

lonely_refused :
    validate_configuration (
      with_predicate
        (MatchPredicate.and_match (rule_cons (MatchPredicate.any_match true) no_rules)))
    ≡ some (
        inside (item "Fragments" 0) (
          inside (item "Rules" 0) (
            inside
              (field "Match")
              (inside (field "AndMatch") (inside (field "Rules") (too_few_items 2))))))
unfolding validate_configuration
lonely_refused = refl

nested_refused :
    validate_configuration (
      with_predicate (
        MatchPredicate.and_match (
          rule_cons (MatchPredicate.any_match true) (
            rule_cons
              (MatchPredicate.request_node_match (RequestNodeMatch.id_match StringMatch.unset))
              no_rules))))
    ≡ some (
        inside (item "Fragments" 0) (
          inside (item "Rules" 0) (
            inside (field "Match") (
              inside (field "AndMatch") (
                inside
                  (item "Rules" 1)
                  (inside (field "RequestNodeMatch") (inside (field "IdMatch") required)))))))
unfolding validate_configuration
nested_refused = refl

validate_configuration_lem_example : (validate_configuration joined ≡ none) ↔ IsConfiguration joined
validate_configuration_lem_example = validate_configuration_lem joined

-- A parser that knows one text.
abbrev parser : String → String ⊎ KeyerConfiguration
parser yaml = inr joined

loads : from_yaml_to_keyer_configuration parser "joined" ≡ inr joined
unfolding from_yaml_to_keyer_configuration check_loaded validate_configuration
loads = refl

loaded_errors_example :
    All
      (λ (rule : Rule).
        (re : Regexp) (type_url : String) (req : Request) (e : String)
        → is_match re type_url req (depth rule.predicate) rule.predicate ≡ err e
        → IsRequestError e)
      (all_rules joined.fragments)
loaded_errors_example = loaded_errors parser "joined" joined loads
