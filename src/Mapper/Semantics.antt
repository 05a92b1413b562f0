-- ===== src/Mapper/Semantics.antt =====
-- The meaning of a match predicate, by recursion on the predicate alone, and `isMatch` against it.
use xds_relay.Prelude.{
  ℕ, zero, suc, ◌≤◌, String, Bool, true, false, not, ◌≡◌, refl, sym, ap, ◌∙◌, arith, if◌then◌else◌,
}
use xds_relay.Outcome.{Outcome, ok, err, panic, ◌>>=◌, map_ok}
use xds_relay.Rules.{MatchPredicate, MatchSet, no_rules, rule_cons}
use xds_relay.Transport.Request.{Request}
use xds_relay.Mapper.Regexp.{Regexp}
use xds_relay.Mapper.Match.{
  or_else, is_node_match, has_type, all_match, any_matches, is_match_step, is_match, depth,
}

or_else-false : (m : Outcome Bool) → or_else m (ok false) ≡ m
or_else-false (ok true) = refl
or_else-false (ok false) = refl
or_else-false (err e) = refl
or_else-false panic = refl

map_ok-not : (m : Outcome Bool) → or_else (map_ok not m) (ok false) ≡ map_ok not m
map_ok-not m = or_else-false (map_ok not m)

-- The disjunction of the negations of a set's members.
unfoldable pub negate_all : MatchSet → MatchSet
negate_all no_rules = no_rules
negate_all (rule_cons p rules) = rule_cons (MatchPredicate.not_match p) (negate_all rules)

module _ (re : Regexp) (type_url : String) (req : Request) where
  -- A conjunction and a disjunction stop at the first error and at the first member that decides.
  unfoldable mutual
    pub meaning : MatchPredicate → Outcome Bool
    meaning (MatchPredicate.and_match rules) = meaning_all rules
    meaning (MatchPredicate.or_match rules) = meaning_any rules
    meaning (MatchPredicate.not_match p) = map_ok not (meaning p)
    meaning (MatchPredicate.any_match b) = ok b
    meaning (MatchPredicate.request_type_match ts) = ok (has_type type_url ts)
    meaning (MatchPredicate.request_node_match m) =
        is_node_match re type_url req (MatchPredicate.request_node_match m)
    meaning MatchPredicate.unset = ok false

    pub meaning_all : MatchSet → Outcome Bool
    meaning_all no_rules = ok true
    meaning_all (rule_cons p rules) =
        let rest = meaning_all rules in meaning p >>= λ b. if b then rest else ok false

    pub meaning_any : MatchSet → Outcome Bool
    meaning_any no_rules = ok false
    meaning_any (rule_cons p rules) =
        let rest = meaning_any rules in meaning p >>= λ b. if b then ok true else rest

  module _ (recur : MatchPredicate → Outcome Bool) (n : ℕ)
      (agrees : (p : MatchPredicate) → depth p ≤ n → recur p ≡ meaning p) where
    all_match-meaning :
        (rules : MatchSet)
        → depth (MatchPredicate.and_match rules) ≤ suc n
        → all_match re type_url req recur rules ≡ meaning_all rules
    unfolding all_match meaning depth
    all_match-meaning no_rules h = refl
    all_match-meaning (rule_cons p rules) h =
        ground (arith, agrees p (omega arith), all_match-meaning rules (omega arith))

    any_matches-meaning :
        (rules : MatchSet)
        → depth (MatchPredicate.and_match rules) ≤ suc n
        → any_matches re type_url req recur rules ≡ meaning_any rules
    unfolding any_matches meaning depth
    any_matches-meaning no_rules h = refl
    any_matches-meaning (rule_cons p rules) h =
        ground (arith, agrees p (omega arith), any_matches-meaning rules (omega arith))

    is_match_step-meaning :
        (p : MatchPredicate) → depth p ≤ suc n → is_match_step re type_url req recur p ≡ meaning p
    unfolding is_match_step depth meaning
    is_match_step-meaning (MatchPredicate.and_match rules) h =
        or_else-false _ ∙ all_match-meaning rules h
    is_match_step-meaning (MatchPredicate.or_match rules) h =
        or_else-false _ ∙ any_matches-meaning rules h
    is_match_step-meaning (MatchPredicate.not_match p) h =
        or_else-false _ ∙ ap (map_ok not) (agrees p (omega arith))
    is_match_step-meaning (MatchPredicate.any_match b) h = refl
    is_match_step-meaning (MatchPredicate.request_type_match ts) h = ground arith
    is_match_step-meaning (MatchPredicate.request_node_match m) h = or_else-false _
    is_match_step-meaning MatchPredicate.unset h = refl

  -- At any call depth that the predicate's nesting does not exceed, `isMatch` returns what the
  -- predicate means: it terminates, and its sequence of tests comes down to the one member of the
  -- oneof that is set.
  pub is_match-meaning :
      (n : ℕ) (p : MatchPredicate) → depth p ≤ n → is_match re type_url req n p ≡ meaning p
  unfolding is_match depth
  is_match-meaning zero p h = absurd (no_depth p h)
    where
      no_depth : (q : MatchPredicate) → depth q ≤ 0 → ⊥
      no_depth (MatchPredicate.and_match rules) h = omega arith
      no_depth _ h = omega arith
  is_match-meaning (suc n) p h =
      is_match_step-meaning (is_match re type_url req n) n (is_match-meaning n) p h

  meaning-negate_all :
      (rules : MatchSet) → meaning_any (negate_all rules) ≡ map_ok not (meaning_all rules)
  unfolding negate_all meaning
  meaning-negate_all no_rules = refl
  meaning-negate_all (rule_cons p rules) = ground (arith, meaning-negate_all rules)

  -- De Morgan: where the call depth is enough for both, a negated conjunction matches, fails to
  -- match and errs exactly as the disjunction of the negated members does.
  pub is_match-de_morgan :
      (n : ℕ) (rules : MatchSet)
      → depth (MatchPredicate.not_match (MatchPredicate.and_match rules)) ≤ n
      → depth (MatchPredicate.or_match (negate_all rules)) ≤ n
      → is_match re type_url req n (MatchPredicate.not_match (MatchPredicate.and_match rules))
        ≡ is_match re type_url req n (MatchPredicate.or_match (negate_all rules))
  unfolding meaning
  is_match-de_morgan n rules h k =
      is_match-meaning n _ h ∙ sym (meaning-negate_all rules) ∙ sym (is_match-meaning n _ k)
