-- ===== src/Mapper/Regexp.antt =====
-- Go's `regexp` package, which the mapper calls and the repository does not hold: whether a pattern
-- compiles, whether a compiled pattern matches somewhere in a text, and ReplaceAllString.
use xds_relay.Prelude.{String, Bool, if◌then◌else◌}
use xds_relay.Outcome.{Outcome, ok, err}

pub record Regexp : Type 0 where
  pub compiles : String → Bool
  pub matches : String → String → Bool
  pub replace_all : String → String → String → String

module _ (re : Regexp) where
  -- regexp.MatchString reports an error exactly for a pattern that does not compile.
  unfoldable pub match_string : String → String → Outcome Bool
  match_string pattern s =
      if re.compiles pattern then ok (re.matches pattern s) else err "error parsing regexp"

  -- regexp.Compile, then ReplaceAllString.
  unfoldable pub replace_all_string : String → String → String → Outcome String
  replace_all_string pattern s replace =
      if re.compiles pattern
      then ok (re.replace_all pattern s replace)
      else err "error parsing regexp"
