-- ===== src/Validation/Configuration.antt =====
-- Validate of a whole configuration (aggregation.pb.validate.go), and the loading of one
-- (yamlproto.go: FromYAMLToKeyerConfiguration).
use xds_relay.Prelude.{String, ◌⊎◌, inl, inr, Option, none, some, length, ltb}
use xds_relay.Rules.{ResultPredicate, Rule, Fragment, KeyerConfiguration}
use xds_relay.Validation.Violation.{
  Violation, field, required, too_few_items, inside, reject_if, ◌then◌, embedded, validate_items,
}
use xds_relay.Validation.Matches.{validate_match_predicate}
use xds_relay.Validation.Results.{validate_result_predicate}

-- A result that is missing is an error, as `m.GetResult() == nil` is.
abbrev pub validate_result : Option ResultPredicate → Option Violation
validate_result none = some (inside (field "Result") required)
validate_result (some p) = embedded (field "Result") (validate_result_predicate p)

unfoldable pub validate_rule : Rule → Option Violation
unfolding validate_match_predicate validate_result_predicate
validate_rule rule =
    embedded (field "Match") (validate_match_predicate rule.predicate)
    then validate_result rule.result

unfoldable pub validate_fragment : Fragment → Option Violation
unfolding validate_rule validate_items
validate_fragment fragment =
    reject_if (ltb (length fragment.rules) 1) (inside (field "Rules") (too_few_items 1))
    then validate_items validate_rule "Rules" 0 fragment.rules

unfoldable pub validate_configuration : KeyerConfiguration → Option Violation
unfolding validate_fragment validate_items
validate_configuration config =
    reject_if (ltb (length config.fragments) 1) (inside (field "Fragments") (too_few_items 1))
    then validate_items validate_fragment "Fragments" 0 config.fragments

-- Why a configuration is not loaded.
pub data LoadError : Type 0 where
  malformed : String → LoadError
  invalid : Violation → LoadError

-- `err = pb.Validate(); if err != nil { return err }`.
abbrev pub accept : KeyerConfiguration → Option Violation → LoadError ⊎ KeyerConfiguration
accept config none = inr config
accept config (some v) = inl (invalid v)

unfoldable pub check_loaded : String ⊎ KeyerConfiguration → LoadError ⊎ KeyerConfiguration
check_loaded (inl e) = inl (malformed e)
check_loaded (inr config) = accept config (validate_configuration config)

-- The YAML and protojson libraries are a parameter: the message of a text, or an error.
module _ (unmarshal : String → String ⊎ KeyerConfiguration) where
  unfoldable pub from_yaml_to_keyer_configuration : String → LoadError ⊎ KeyerConfiguration
  unfolding check_loaded
  from_yaml_to_keyer_configuration yaml = check_loaded (unmarshal yaml)
