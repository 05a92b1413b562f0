-- ===== src/Validation/Loaded.antt =====
-- What a validated configuration means for the mapper (yamlproto.go, mapper.go: isMatch).
use xds_relay.Prelude.{
  All, String, Bool, true, false, not, ◌≡◌, refl, sym, ◌∙◌, ◌⊎◌, inl, inr, Option, none, some, List,
  [], ◌∷◌, ◌++◌, arith, Option-cases, Bool-cases, subst, str_eq, if◌then◌else◌,
}
use xds_relay.Outcome.{Outcome, ok, err, panic, ◌>>=◌, map_ok}
use xds_relay.Rules.{
  StringMatch, LocalityMatch, StructValueMatch, NodeMetadataMatch, RequestNodeMatch, MatchPredicate,
  MatchSet, no_rules, rule_cons, Fragment, KeyerConfiguration, get_exact_match, get_regex_match,
}
use xds_relay.Transport.Metadata.{Fields, Value}
use xds_relay.Transport.Message.{Locality}
use xds_relay.Transport.Request.{Request}
use xds_relay.Mapper.Regexp.{Regexp, match_string}
use xds_relay.Mapper.Match.{
  compare_string, compare_part, compare_locality, compare_value, find_value, compare_node_metadata,
  is_node_match, is_match, depth,
}
use xds_relay.Mapper.Semantics.{meaning, meaning_all, meaning_any, is_match-meaning}
use xds_relay.Mapper.Fragments.{all_rules}
use xds_relay.Validation.Violation.{Violation}
use xds_relay.Validation.Configuration.{
  accept, check_loaded, from_yaml_to_keyer_configuration, validate_configuration,
}
use xds_relay.Validation.Validity.{
  IsStructValueMatch, IsRequestNodeMatch, IsMatchPredicate, AreMatchPredicates, IsRule, IsFragment,
  IsConfiguration,
}
use xds_relay.Validation.Sound.{validate_configuration_lem}

-- The errors that a request or a pattern causes, and not the shape of the predicate.
abbrev pub IsRequestError : String → Type 0
IsRequestError e =
    (e ≡ "Locality Node field cannot be empty")
    ⊎ (e ≡ "Metadata Node field cannot be empty")
    ⊎ (e ≡ "error parsing regexp")

abbrev pub IsFaultless : Outcome Bool → Type 0
IsFaultless (ok b) = Unit
IsFaultless (err e) = IsRequestError e
IsFaultless panic = Unit

bind-IsFaultless :
    (m : Outcome Bool) (f : Bool → Outcome Bool)
    → IsFaultless m
    → ((b : Bool) → IsFaultless (f b))
    → IsFaultless (m >>= f)
bind-IsFaultless (ok b) f h k = k b
bind-IsFaultless (err e) f h k = h
bind-IsFaultless panic f h k = tt

pick :
    (b : Bool) (m n : Outcome Bool)
    → IsFaultless m
    → IsFaultless n
    → IsFaultless (if b then m else n)
pick true m n h k = h
pick false m n h k = k

not-IsFaultless : (m : Outcome Bool) → IsFaultless m → IsFaultless (map_ok not m)
not-IsFaultless (ok b) h = tt
not-IsFaultless (err e) h = h
not-IsFaultless panic h = tt

module _ (re : Regexp) where
  match_string-IsFaultless : (p s : String) → IsFaultless (match_string re p s)
  unfolding match_string
  match_string-IsFaultless p s = elim (Bool-cases (re.compiles p)) [
    | inl e ↦ rw (e, match_string) tt
    | inr e ↦ rw (e, match_string) (inr (inr refl))
  ]

  compare_string-IsFaultless : (m : StringMatch) (v : String) → IsFaultless (compare_string re m v)
  unfolding compare_string
  compare_string-IsFaultless m v = elim (Bool-cases (not (str_eq (get_exact_match m) ""))) [
    | inl e ↦ rw (e, compare_string) tt
    | inr e ↦ elim (Bool-cases (not (str_eq (get_regex_match m) ""))) [
      | inl f ↦ rw (e, f, compare_string) (match_string-IsFaultless (get_regex_match m) v)
      | inr f ↦ rw (e, f, compare_string) tt
    ]
  ]

  compare_part-IsFaultless :
      (m : Option StringMatch) (v : String) → IsFaultless (compare_part re m v)
  unfolding compare_part
  compare_part-IsFaultless none v = tt
  compare_part-IsFaultless (some m) v = compare_string-IsFaultless m v

  compare_locality-IsFaultless :
      (m : LocalityMatch) (l : Option Locality) → IsFaultless (compare_locality re m l)
  unfolding compare_locality
  compare_locality-IsFaultless m none = inl refl
  compare_locality-IsFaultless m (some l) =
      bind-IsFaultless _ _ (compare_part-IsFaultless m.region l.region) λ a.
        bind-IsFaultless _ _ (compare_part-IsFaultless m.zone l.zone)
          λ b. bind-IsFaultless _ _ (compare_part-IsFaultless m.sub_zone l.sub_zone) λ c. tt

  compare_value-IsFaultless :
      (m : StructValueMatch) (value : Option Value)
      → IsStructValueMatch m
      → IsFaultless (compare_value re m value)
  unfolding compare_value
  compare_value-IsFaultless (StructValueMatch.string_match m) value h =
      compare_string-IsFaultless m _
  compare_value-IsFaultless (StructValueMatch.bool_match m) value h = tt
  compare_value-IsFaultless StructValueMatch.unset value h = absurd h

  compare_node_metadata-IsFaultless :
      (m : NodeMetadataMatch) (md : Option Fields)
      → IsStructValueMatch m.value
      → IsFaultless (compare_node_metadata re m md)
  unfolding compare_node_metadata
  compare_node_metadata-IsFaultless m none h = inr (inl refl)
  compare_node_metadata-IsFaultless m (some md) h =
      elim (Option-cases (find_value m.path none (some md))) [
        | inl not_found ↦ rw (not_found, compare_node_metadata) tt
        | inr (value, found) ↦
            rw (found, compare_node_metadata) (compare_value-IsFaultless m.value value h)
      ]

  module _ (type_url : String) (req : Request) where
    is_node_match-IsFaultless :
        (m : RequestNodeMatch)
        → IsRequestNodeMatch m
        → IsFaultless (is_node_match re type_url req (MatchPredicate.request_node_match m))
    unfolding is_node_match
    is_node_match-IsFaultless (RequestNodeMatch.id_match m) h = compare_string-IsFaultless m _
    is_node_match-IsFaultless (RequestNodeMatch.cluster_match m) h = compare_string-IsFaultless m _
    is_node_match-IsFaultless (RequestNodeMatch.locality_match m) h =
        compare_locality-IsFaultless m _
    is_node_match-IsFaultless (RequestNodeMatch.node_metadata_match m) h =
        compare_node_metadata-IsFaultless m _ h.1
    is_node_match-IsFaultless RequestNodeMatch.unset h = absurd h

    mutual
      unfolding meaning meaning_all meaning_any IsMatchPredicate AreMatchPredicates

      meaning-IsFaultless :
          (p : MatchPredicate) → IsMatchPredicate p → IsFaultless (meaning re type_url req p)
      meaning-IsFaultless (MatchPredicate.and_match rules) h = meaning_all-IsFaultless rules h.1
      meaning-IsFaultless (MatchPredicate.or_match rules) h = meaning_any-IsFaultless rules h.1
      meaning-IsFaultless (MatchPredicate.not_match p) h =
          not-IsFaultless (meaning re type_url req p) (meaning-IsFaultless p h)
      meaning-IsFaultless (MatchPredicate.any_match b) h = tt
      meaning-IsFaultless (MatchPredicate.request_type_match ts) h = tt
      meaning-IsFaultless (MatchPredicate.request_node_match m) h = is_node_match-IsFaultless m h
      meaning-IsFaultless MatchPredicate.unset h = absurd h

      meaning_all-IsFaultless :
          (rules : MatchSet)
          → AreMatchPredicates rules
          → IsFaultless (meaning_all re type_url req rules)
      meaning_all-IsFaultless no_rules h = tt
      meaning_all-IsFaultless (rule_cons p rules) h =
          let rest = meaning_all-IsFaultless rules h.1 in
          bind-IsFaultless _ _ (meaning-IsFaultless p h.0) λ b. pick b _ _ rest tt

      meaning_any-IsFaultless :
          (rules : MatchSet)
          → AreMatchPredicates rules
          → IsFaultless (meaning_any re type_url req rules)
      meaning_any-IsFaultless no_rules h = tt
      meaning_any-IsFaultless (rule_cons p rules) h =
          let rest = meaning_any-IsFaultless rules h.1 in
          bind-IsFaultless _ _ (meaning-IsFaultless p h.0) λ b. pick b _ _ tt rest

    is_match-error :
        (p : MatchPredicate) (e : String)
        → IsMatchPredicate p
        → is_match re type_url req (depth p) p ≡ err e
        → IsRequestError e
    is_match-error p e h failed =
        subst IsFaultless
          (sym (is_match-meaning re type_url req (depth p) p (omega arith)) ∙ failed)
          (meaning-IsFaultless p h)

All-append : {A : Type 0} (P : A → Type 0) (xs ys : List A) → All P xs → All P ys → All P (xs ++ ys)
All-append P [] ys h k = k
All-append P (x ∷ xs) ys h k = (h.0, All-append P xs ys h.1 k)

All-map :
    {A : Type 0} {P Q : A → Type 0} → ((a : A) → P a → Q a) → (xs : List A) → All P xs → All Q xs
All-map f [] h = tt
All-map f (x ∷ xs) h = (f x h.0, All-map f xs h.1)

all_rules-IsRule : (fs : List Fragment) → All IsFragment fs → All IsRule (all_rules fs)
all_rules-IsRule [] h = tt
all_rules-IsRule (f ∷ fs) h =
    All-append IsRule f.rules (all_rules fs) h.0.1 (all_rules-IsRule fs h.1)

inr-inj : {A B : Type 0} {a b : B} → Path (A ⊎ B) (inr a) (inr b) → a ≡ b
inr-inj h = cc

accept-eq-inr :
    (c config : KeyerConfiguration) (o : Option Violation)
    → accept c o ≡ inr config
    → (o ≡ none) × (c ≡ config)
accept-eq-inr c config none h = (refl, inr-inj h)
accept-eq-inr c config (some v) h = cc

check_loaded-IsConfiguration :
    (u : String ⊎ KeyerConfiguration) (config : KeyerConfiguration)
    → check_loaded u ≡ inr config
    → IsConfiguration config
unfolding check_loaded
check_loaded-IsConfiguration (inl e) config h = cc
check_loaded-IsConfiguration (inr c) config h =
    let (valid, same) = accept-eq-inr c config (validate_configuration c) h in
    subst IsConfiguration same ((validate_configuration_lem c).0 valid)

-- The match of a rule of a configuration that was loaded without an error fails to be decided, on any
-- request, only for a node without a locality or metadata that it reads, or for a pattern that does
-- not compile: isMatch's errors about an invalid match cannot occur. What getResult then returns is not
-- looked at.
pub loaded_errors :
    (unmarshal : String → String ⊎ KeyerConfiguration) (yaml : String) (config : KeyerConfiguration)
    → from_yaml_to_keyer_configuration unmarshal yaml ≡ inr config
    → All
        (λ rule.
          (re : Regexp) (type_url : String) (req : Request) (e : String)
          → is_match re type_url req (depth rule.predicate) rule.predicate ≡ err e
          → IsRequestError e)
        (all_rules config.fragments)
unfolding from_yaml_to_keyer_configuration
loaded_errors unmarshal yaml config h =
    All-map (λ rule v re type_url req e. is_match-error re type_url req rule.predicate e v.0)
      (all_rules config.fragments)
      (all_rules-IsRule config.fragments (check_loaded-IsConfiguration (unmarshal yaml) config h).1)
