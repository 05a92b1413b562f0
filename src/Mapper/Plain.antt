-- ===== src/Mapper/Plain.antt =====
-- The results of GetKey and its loops (mapper.go) without the counters, and how the counters follow them.
use xds_relay.Prelude.{
  ◌≡◌, refl, ap, ◌∙◌, ◌+◌, String, Bool, true, false, ◌&&◌, List, [], ◌∷◌, ◌++◌, str_eq,
  if◌then◌else◌, join,
}
use xds_relay.Outcome.{Outcome, ok, err, panic, ◌>>=◌, map_ok}
use xds_relay.Rules.{Rule, Fragment, KeyerConfiguration}
use xds_relay.Transport.ResourceTypes.{ResourceTypes}
use xds_relay.Transport.Request.{Request, get_type_url, get_resource_names}
use xds_relay.Mapper.Regexp.{Regexp}
use xds_relay.Mapper.Match.{is_match, depth}
use xds_relay.Mapper.Result.{get_result}
use xds_relay.Mapper.Key.{
  Counters, inc_error, continue, is_empty, separator, is_eds, apply_rule, apply_rules,
  apply_fragments, join_fragments, get_key,
}

module _ (re : Regexp) (req : Request) where
  -- One pass of the inner loop: a rule that matches appends its result.
  unfoldable pub rule_result : Rule → List String → Outcome (List String)
  unfolding depth is_match get_result
  rule_result rule fragments =
      is_match re (get_type_url req) req (depth rule.predicate) rule.predicate >>= λ matched.
      if matched
      then map_ok (λ result. fragments ++ result ∷ [])
          (get_result re req (get_resource_names req) rule)
      else ok fragments

  unfoldable pub rules_result : List Rule → List String → Outcome (List String)
  unfolding rule_result
  rules_result [] fragments = ok fragments
  rules_result (rule ∷ rules) fragments = rule_result rule fragments >>= rules_result rules

  unfoldable pub fragments_result : List Fragment → List String → Outcome (List String)
  unfolding rules_result
  fragments_result [] fragments = ok fragments
  fragments_result (f ∷ fs) fragments = rules_result f.rules fragments >>= fragments_result fs

-- The key of the fragments that were found.
unfoldable pub joined_result : List String → Outcome String
joined_result fragments =
    if is_empty fragments
    then err "Cannot map the input to a key"
    else ok (join fragments separator)

-- What a result counts once it is known.
unfoldable pub count_result : Counters → Outcome String → Counters
count_result c (ok _) = record c { mapper_success = c.mapper_success + 1 }
count_result c (err _) = record c { mapper_error = c.mapper_error + 1 }
count_result c panic = c

abbrev count_failure {ℓ} : {A : Type ℓ} → Counters → Outcome A → Counters
count_failure c (ok a) = c
count_failure c (err e) = inc_error c
count_failure c panic = c

continue_lem :
    {A B : Type 0} (c : Counters) (m : Outcome A) (next : Counters → A → Counters × Outcome B)
    (f : A → Outcome B)
    → ((a : A) → next c a ≡ (count_failure c (f a), f a))
    → continue (count_failure c m, m) next ≡ (count_failure c (m >>= f), m >>= f)
continue_lem c (ok a) next f h = h a
continue_lem c (err e) next f h = refl
continue_lem c panic next f h = refl

module _ (re : Regexp) (req : Request) where
  apply_rule_lem :
      (rule : Rule) (c : Counters) (acc : List String)
      → apply_rule re req rule c acc
        ≡ (count_failure c (rule_result re req rule acc), rule_result re req rule acc)
  unfolding apply_rule rule_result
  apply_rule_lem rule c acc =
      by_match (is_match re (get_type_url req) req (depth rule.predicate) rule.predicate)
        (get_result re req (get_resource_names req) rule)
    where
      by_match :
          (m : Outcome Bool) (res : Outcome String)
          → ◌≡◌ {A = Counters × Outcome (List String)}
              (elim m [
                | err e ↦ (inc_error c, err e)
                | panic ↦ (c, panic)
                | ok matched ↦
                    if matched
                    then (elim res [
                      | err e ↦ (inc_error c, err e)
                      | panic ↦ (c, panic)
                      | ok result ↦ (c, ok (acc ++ result ∷ []))
                    ])
                    else (c, ok acc)
              ])
              (
                count_failure c (
                    m >>= λ matched.
                    if matched then map_ok (λ result. acc ++ result ∷ []) res else ok acc),
                m >>= λ matched.
                    if matched then map_ok (λ result. acc ++ result ∷ []) res else ok acc,
              )
      by_match panic res = refl
      by_match (err e) res = refl
      by_match (ok false) res = refl
      by_match (ok true) (ok r) = refl
      by_match (ok true) (err e) = refl
      by_match (ok true) panic = refl

  apply_rules_lem :
      (rules : List Rule) (c : Counters) (acc : List String)
      → apply_rules re req rules c acc
        ≡ (count_failure c (rules_result re req rules acc), rules_result re req rules acc)
  unfolding apply_rules rules_result
  apply_rules_lem [] c acc = refl
  apply_rules_lem (rule ∷ rules) c acc =
      ap (λ p. continue p (apply_rules re req rules)) (apply_rule_lem rule c acc)
      ∙ continue_lem c (rule_result re req rule acc) (apply_rules re req rules)
          (rules_result re req rules) (apply_rules_lem rules c)

  apply_fragments_lem :
      (fs : List Fragment) (c : Counters) (acc : List String)
      → apply_fragments re req fs c acc
        ≡ (count_failure c (fragments_result re req fs acc), fragments_result re req fs acc)
  unfolding apply_fragments fragments_result
  apply_fragments_lem [] c acc = refl
  apply_fragments_lem (f ∷ fs) c acc =
      ap (λ p. continue p (apply_fragments re req fs)) (apply_rules_lem f.rules c acc)
      ∙ continue_lem c (rules_result re req f.rules acc) (apply_fragments re req fs)
          (fragments_result re req fs) (apply_fragments_lem fs c)

join_counts :
    (c : Counters) (m : Outcome (List String))
    → continue (count_failure c m, m) join_fragments
      ≡ (count_result c (m >>= joined_result), m >>= joined_result)
unfolding join_fragments joined_result count_result
join_counts c (ok []) = refl
join_counts c (ok (f ∷ fs)) = refl
join_counts c (err e) = refl
join_counts c panic = refl

module _ (types : ResourceTypes) (re : Regexp) (config : KeyerConfiguration) where
  -- GetKey with its counters read off its result.
  unfoldable pub key_result : Counters → Request → Counters × Outcome String
  unfolding is_eds fragments_result joined_result count_result
  key_result c req =
      if str_eq (get_type_url req) ""
      then (inc_error c, err "typeURL is empty")
      else if is_eds types (get_type_url req) && is_empty (get_resource_names req)
      then (c, err "resource names is empty")
      else (let key = fragments_result re req config.fragments [] >>= joined_result in
          (count_result c key, key))

  pub get_key_lem :
      (c : Counters) (req : Request) → get_key types re config c req ≡ key_result c req
  unfolding get_key key_result
  get_key_lem c req =
      ap
        (λ p.
          if str_eq (get_type_url req) ""
          then (inc_error c, err "typeURL is empty")
          else if is_eds types (get_type_url req) && is_empty (get_resource_names req)
          then (c, err "resource names is empty")
          else p)
        (ap (λ p. continue p join_fragments) (apply_fragments_lem re req config.fragments c [])
          ∙ join_counts c (fragments_result re req config.fragments []))
