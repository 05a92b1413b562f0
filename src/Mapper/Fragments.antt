-- ===== src/Mapper/Fragments.antt =====
-- Which fragments make up a key.
use xds_relay.Prelude.{
  ℕ, ◌≤◌, String, Bool, true, false, ◌≡◌, refl, sym, ap, fun_ext, ◌∙◌, ◌⊎◌, inl, inr, List, [], ◌∷◌,
  ◌++◌, append-nil, append_assoc, arith, if◌then◌else◌,
}
use xds_relay.Outcome.{Outcome, ok, ◌>>=◌, map_ok, >>=-eq-ok, >>=-assoc}
use xds_relay.Rules.{Rule, Fragment}
use xds_relay.Transport.Request.{Request, get_type_url, get_resource_names}
use xds_relay.Mapper.Regexp.{Regexp}
use xds_relay.Mapper.Match.{depth}
use xds_relay.Mapper.Semantics.{meaning, is_match-meaning}
use xds_relay.Mapper.Result.{get_result}
use xds_relay.Mapper.Plain.{rule_result, rules_result, fragments_result}

-- All rules of a configuration, in order.
abbrev pub all_rules : List Fragment → List Rule
all_rules [] = []
all_rules (f ∷ fs) = f.rules ++ all_rules fs

module _ (re : Regexp) (req : Request) where
  abbrev pub matches : Rule → Outcome Bool
  matches rule = meaning re (get_type_url req) req rule.predicate

  abbrev pub yields : Rule → Outcome String
  yields rule = get_result re req (get_resource_names req) rule

  -- The results of exactly the rules that match, in their order.
  pub data Collects : List Rule → List String → Type 0 where
    done : Collects [] []
    skip :
        {r : Rule} {rs : List Rule} {out : List String}
        → matches r ≡ ok false
        → Collects rs out
        → Collects (r ∷ rs) out
    take :
        {r : Rule} {rs : List Rule} {out : List String} (s : String)
        → matches r ≡ ok true
        → yields r ≡ ok s
        → Collects rs out
        → Collects (r ∷ rs) (s ∷ out)

  pub rule_result-meaning :
      (r : Rule) (acc : List String)
      → rule_result re req r acc
        ≡ (matches r >>= λ b. if b then map_ok (λ s. acc ++ s ∷ []) (yields r) else ok acc)
  unfolding rule_result
  rule_result-meaning r acc =
      ap (λ m. m >>= λ b. if b then map_ok (λ s. acc ++ s ∷ []) (yields r) else ok acc)
        (is_match-meaning re (get_type_url req) req (depth r.predicate) r.predicate
          (le_self (depth r.predicate)))
    where
      le_self : (n : ℕ) → n ≤ n
      le_self n = omega arith

  rules_result-append :
      (rs ss : List Rule) (acc : List String)
      → rules_result re req (rs ++ ss) acc ≡ (rules_result re req rs acc >>= rules_result re req ss)
  unfolding rules_result
  rules_result-append [] ss acc = refl
  rules_result-append (r ∷ rs) ss acc =
      ap (◌>>=◌ (rule_result re req r acc)) (fun_ext (rules_result-append rs ss))
      ∙ sym (>>=-assoc (rule_result re req r acc) (rules_result re req rs) (rules_result re req ss))

  pub fragments_result-all_rules :
      (fs : List Fragment) (acc : List String)
      → fragments_result re req fs acc ≡ rules_result re req (all_rules fs) acc
  unfolding fragments_result
  fragments_result-all_rules [] acc = refl
  fragments_result-all_rules (f ∷ fs) acc =
      ap (◌>>=◌ (rules_result re req f.rules acc)) (fun_ext (fragments_result-all_rules fs))
      ∙ sym (rules_result-append f.rules (all_rules fs) acc)

  rule_cases :
      (r : Rule) (acc : List String) {a : List String}
      → rule_result re req r acc ≡ ok a
      → ((matches r ≡ ok false) × (a ≡ acc))
        ⊎ ((s : String) × (matches r ≡ ok true) × (yields r ≡ ok s) × (a ≡ acc ++ s ∷ []))
  rule_cases r acc h = ground (arith, rule_result-meaning r acc)

  pub rules_sound :
      (rs : List Rule) (acc : List String) {out : List String}
      → rules_result re req rs acc ≡ ok out
      → (fs : List String) × Collects rs fs × (out ≡ acc ++ fs)
  unfolding rules_result
  rules_sound [] acc h = ([], done, ground (arith, append-nil acc))
  rules_sound (r ∷ rs) acc h =
      let (a, first, rest) = >>=-eq-ok (rule_result re req r acc) (rules_result re req rs) h in
      elim (rule_cases r acc first) [
        | inl (no_match, same) ↦
            let (fs, collected, e) = rules_sound rs a rest in
            (fs, skip no_match collected, e ∙ ap (λ x. x ++ fs) same)
        | inr (s, matched, yielded, grown) ↦
            let (fs, collected, e) = rules_sound rs a rest in
            (
              s ∷ fs,
              take s matched yielded collected,
              e ∙ ap (λ x. x ++ fs) grown ∙ append_assoc acc (s ∷ []) fs,
            )
      ]

  pub rules_complete :
      {rs : List Rule} {fs : List String} (acc : List String)
      → Collects rs fs
      → rules_result re req rs acc ≡ ok (acc ++ fs)
  unfolding rules_result
  rules_complete acc done = ap ok (sym (append-nil acc))
  rules_complete acc (skip {r} {rs} {out} no_match rest) =
      rw (rule_result-meaning r acc, no_match) (rules_complete acc rest)
  rules_complete acc (take {r} {rs} {out} s matched yielded rest) =
      rw (rule_result-meaning r acc, matched, yielded)
        (rules_complete (acc ++ s ∷ []) rest ∙ ap ok (append_assoc acc (s ∷ []) out))
