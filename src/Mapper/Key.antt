-- ===== src/Mapper/Key.antt =====
-- GetKey and the loops over the configuration (mapper.go).
use xds_relay.Prelude.{
  ℕ, ◌+◌, String, Bool, true, false, ◌&&◌, ◌||◌, List, [], ◌∷◌, ◌++◌, str_eq, if◌then◌else◌, join,
}
use xds_relay.Outcome.{Outcome, ok, err, panic}
use xds_relay.Rules.{Rule, Fragment, KeyerConfiguration}
use xds_relay.Transport.ResourceTypes.{ResourceTypes}
use xds_relay.Transport.Request.{Request, get_type_url, get_resource_names}
use xds_relay.Mapper.Regexp.{Regexp}
use xds_relay.Mapper.Match.{is_match, depth}
use xds_relay.Mapper.Result.{get_result}

-- The two counters of the mapper's scope.
pub record Counters : Type 0 where
  pub mapper_error : ℕ
  pub mapper_success : ℕ

abbrev pub is_empty {ℓ} : {A : Type ℓ} → List A → Bool
is_empty [] = true
is_empty (_ ∷ _) = false

abbrev pub separator : String
separator = "_"

-- `Inc(1)` of the two counters.
abbrev pub inc_error : Counters → Counters
inc_error c = record c { mapper_error = c.mapper_error + 1 }

abbrev pub inc_success : Counters → Counters
inc_success c = record c { mapper_success = c.mapper_success + 1 }

-- Going on after what has not returned.
abbrev pub continue {ℓ κ} :
    {A : Type ℓ} {B : Type κ}
    → Counters × Outcome A
    → (Counters → A → Counters × Outcome B)
    → Counters × Outcome B
continue (c, ok a) next = next c a
continue (c, err e) next = (c, err e)
continue (c, panic) next = (c, panic)

module _ (types : ResourceTypes) where
  unfoldable pub is_eds : String → Bool
  is_eds type_url = str_eq types.v2.endpoint type_url || str_eq types.v3.endpoint type_url

module _ (re : Regexp) (req : Request) where
  -- One pass of the inner loop: a rule that matches appends its result.
  unfoldable pub apply_rule : Rule → Counters → List String → Counters × Outcome (List String)
  unfolding depth is_match get_result
  apply_rule rule c fragments =
      elim (is_match re (get_type_url req) req (depth rule.predicate) rule.predicate) [
        | err e ↦ (inc_error c, err e)
        | panic ↦ (c, panic)
        | ok matched ↦
            if matched
            then (elim (get_result re req (get_resource_names req) rule) [
              | err e ↦ (inc_error c, err e)
              | panic ↦ (c, panic)
              | ok result ↦ (c, ok (fragments ++ result ∷ []))
            ])
            else (c, ok fragments)
      ]

  unfoldable pub apply_rules : List Rule → Counters → List String → Counters × Outcome (List String)
  unfolding apply_rule
  apply_rules [] c fragments = (c, ok fragments)
  apply_rules (rule ∷ rules) c fragments =
      continue (apply_rule rule c fragments) (apply_rules rules)

  unfoldable pub apply_fragments :
      List Fragment → Counters → List String → Counters × Outcome (List String)
  unfolding apply_rules
  apply_fragments [] c fragments = (c, ok fragments)
  apply_fragments (f ∷ fs) c fragments =
      continue (apply_rules f.rules c fragments) (apply_fragments fs)

-- The key of the fragments that were found.
unfoldable pub join_fragments : Counters → List String → Counters × Outcome String
join_fragments c fragments =
    if is_empty fragments
    then (inc_error c, err "Cannot map the input to a key")
    else (inc_success c, ok (join fragments separator))

module _ (types : ResourceTypes) (re : Regexp) (config : KeyerConfiguration) where
  unfoldable pub get_key : Counters → Request → Counters × Outcome String
  unfolding is_eds apply_fragments join_fragments
  get_key c req =
      if str_eq (get_type_url req) ""
      then (inc_error c, err "typeURL is empty")
      else if is_eds types (get_type_url req) && is_empty (get_resource_names req)
      then (c, err "resource names is empty")
      else continue (apply_fragments re req config.fragments c []) join_fragments
