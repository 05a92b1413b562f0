-- ===== src/Mapper/Keys.antt =====
-- What GetKey returns, and what it counts.
use xds_relay.Prelude.{
  ◌+◌, String, Bool, true, false, ◌≡◌, ◌≢◌, refl, sym, ap, ◌∙◌, inl, inr, List, [], ◌∷◌, arith,
  if◌then◌else◌, str_eq, join, Bool-cases, ◌&&◌, not,
}
use xds_relay.Outcome.{Outcome, ok, err, ◌>>=◌, >>=-eq-ok}
use xds_relay.Rules.{KeyerConfiguration}
use xds_relay.Transport.ResourceTypes.{ResourceTypes}
use xds_relay.Transport.Request.{Request, get_type_url, get_resource_names}
use xds_relay.Mapper.Regexp.{Regexp}
use xds_relay.Mapper.Key.{Counters, is_empty, separator, is_eds, get_key}
use xds_relay.Mapper.Plain.{
  count_result, rules_result, fragments_result, joined_result, key_result, get_key_lem,
}
use xds_relay.Mapper.Fragments.{
  all_rules, Collects, fragments_result-all_rules, rules_sound, rules_complete,
}

-- The requests that GetKey turns away before it looks at a rule.
unfoldable pub is_rejected : ResourceTypes → Request → Bool
is_rejected types req =
    if str_eq (get_type_url req) ""
    then true
    else is_eds types (get_type_url req) && is_empty (get_resource_names req)

join_fragments_some :
    (fs : List String) {k : String} → joined_result fs ≡ ok k → (fs ≢ []) × (k ≡ join fs separator)
unfolding joined_result
join_fragments_some [] h = cc
join_fragments_some (f ∷ fs) h = (λ e. cc, cc)

some_join_fragments : (fs : List String) → fs ≢ [] → joined_result fs ≡ ok (join fs separator)
unfolding joined_result
some_join_fragments [] h = absurd (h refl)
some_join_fragments (f ∷ fs) h = refl

module _ (types : ResourceTypes) (re : Regexp) (config : KeyerConfiguration) where
  abbrev mapped : Request → Outcome String
  mapped req = fragments_result re req config.fragments [] >>= joined_result

  get_key_accepted :
      (c : Counters) (req : Request)
      → is_rejected types req ≡ false
      → get_key types re config c req ≡ (count_result c (mapped req), mapped req)
  unfolding key_result is_rejected
  get_key_accepted c req h = rw (get_key_lem types re config c req) (ground arith)

  get_key_rejected :
      (c : Counters) (req : Request) {k : String}
      → is_rejected types req ≡ true
      → (get_key types re config c req).1 ≢ ok k
  unfolding key_result is_rejected
  get_key_rejected c req h = rw (get_key_lem types re config c req) (ground arith)

  accepted_of_ok :
      (c : Counters) (req : Request) {k : String}
      → (get_key types re config c req).1 ≡ ok k
      → is_rejected types req ≡ false
  accepted_of_ok c req h = elim (Bool-cases (is_rejected types req)) [
    | inl rejected ↦ absurd (get_key_rejected c req rejected h)
    | inr accepted ↦ accepted
  ]

  -- A key that is returned is the join by "_" of the results of all rules that match, over all
  -- fragments and in the order of the configuration, of which there is at least one; and the
  -- request has a type URL and, if it asks for endpoints, resource names.
  pub get_key_sound :
      (c : Counters) (req : Request) {k : String}
      → (get_key types re config c req).1 ≡ ok k
      → (fs : List String) × Collects re req (all_rules config.fragments) fs
        × (fs ≢ [])
        × (k ≡ join fs separator)
        × (is_rejected types req ≡ false)
  get_key_sound c req h =
      let accepted = accepted_of_ok c req h in
      let found : mapped req ≡ ok _ = sym (ap (λ p. p.1) (get_key_accepted c req accepted)) ∙ h in
      let (out, collected, joined) =
        >>=-eq-ok (fragments_result re req config.fragments []) joined_result found in
      let (fs, cs, e) =
        rules_sound re req (all_rules config.fragments) []
          (sym (fragments_result-all_rules re req config.fragments []) ∙ collected) in
      let (some_fragment, key) = join_fragments_some out joined in
      (fs, cs, λ p. some_fragment (e ∙ p), key ∙ ap (λ l. join l separator) e, accepted)

  -- If the request is not turned away and the rules that match all yield a result, at least one of
  -- them, then GetKey succeeds: it returns the join of these results and counts one success.
  pub get_key_complete :
      (c : Counters) (req : Request) (fs : List String)
      → is_rejected types req ≡ false
      → Collects re req (all_rules config.fragments) fs
      → fs ≢ []
      → get_key types re config c req
        ≡ (record c { mapper_success = c.mapper_success + 1 }, ok (join fs separator))
  unfolding count_result
  get_key_complete c req fs accepted collected nonempty =
      let key : mapped req ≡ ok (join fs separator) =
        rw
          (
            fragments_result-all_rules re req config.fragments [],
            rules_complete re req [] collected,
          )
          (some_join_fragments fs nonempty) in
      get_key_accepted c req accepted ∙ ap (λ m. (count_result c m, m)) key

  -- The counters follow the result: a key is one success; an error is one error, but for an
  -- endpoint request with a type URL and no resource names, which counts nothing.
  pub get_key_counters :
      (c : Counters) (req : Request)
      → ((k : String)
          → (get_key types re config c req).1 ≡ ok k
          → (get_key types re config c req).0 ≡ record c { mapper_success = c.mapper_success + 1 })
        × ((e : String)
            → (get_key types re config c req).1 ≡ err e
            → (get_key types re config c req).0 ≡ (
                if not (str_eq (get_type_url req) "") && is_rejected types req
                then c
                else record c { mapper_error = c.mapper_error + 1 }))
  unfolding key_result is_rejected
  get_key_counters c req =
      rw (get_key_lem types re config c req) (λ k h. ground arith, λ e h. ground arith)

-- The division of the rules into fragments does not matter: two configurations with the same rules
-- in the same order map every request alike, error and counters included.
pub get_key_regroup :
    (types : ResourceTypes) (re : Regexp) (config config' : KeyerConfiguration) (c : Counters)
    (req : Request)
    → all_rules config.fragments ≡ all_rules config'.fragments
    → get_key types re config c req ≡ get_key types re config' c req
unfolding key_result
get_key_regroup types re config config' c req h =
    let same : fragments_result re req config.fragments []
        ≡ fragments_result re req config'.fragments [] =
      fragments_result-all_rules re req config.fragments []
      ∙ ap (λ rs. rules_result re req rs []) h
      ∙ sym (fragments_result-all_rules re req config'.fragments []) in
    get_key_lem types re config c req ∙ rw same (sym (get_key_lem types re config' c req))
