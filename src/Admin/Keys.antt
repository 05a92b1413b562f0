-- ===== src/Admin/Keys.antt =====
-- The keys that a request is about (admin/http/cache.go: hasWildcardSuffix, getRelevantKeys).
use xds_relay.Prelude.{
  ◌⊎◌, String, append, Bool, ◌||◌, Option, none, some, List, [], ◌∷◌, str_eq, if◌then◌else◌,
}
use xds_relay.Outcome.{Outcome, ok, err, panic}
use xds_relay.Admin.Texts.{has_prefix, has_suffix, trim_suffix, before_suffix, after_prefix}
use xds_relay.Admin.Reply.{Reply, Payload, refuse}

unfoldable pub has_wildcard_suffix : String → Bool
unfolding before_suffix
has_wildcard_suffix key = str_eq key "" || has_suffix key "*"

-- The loop over the keys. The map's order is some order of the list.
unfoldable pub with_prefix : String → List String → List String
unfolding after_prefix
with_prefix root [] = []
with_prefix root (k ∷ ks) =
    let rest = with_prefix root ks in if has_prefix k root then k ∷ rest else rest

-- `all_keys` is what GetDownstreamAggregatedKeys returns. An error is reported to the client.
module _ {M : Type 0} (interface_to_string : Payload M → String ⊎ String) where
  unfoldable pub get_relevant_keys :
      Outcome (List String) → String → Reply → Outcome (Option (List String) × Reply)
  unfolding has_wildcard_suffix with_prefix before_suffix
  get_relevant_keys all_keys key w =
      if has_wildcard_suffix key
      then (elim all_keys [
        | ok keys ↦ ok (some (with_prefix (trim_suffix key "*") keys), w)
        | err e ↦ ok (
          none,
          refuse interface_to_string 500
              (append "error in retrieving downstream aggregated keys: " e) w,
        )
        | panic ↦ panic
      ])
      else ok (some (key ∷ []), w)
