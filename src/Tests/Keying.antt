-- ===== src/Tests/Keying.antt =====
-- The mapper and the watches, on the data of Fixtures.
use xds_relay.Prelude.{
  String, false, not, ◌&&◌, ◌≡◌, ◌≢◌, refl, arith, List, [], ◌∷◌, str_eq, if◌then◌else◌, join,
}
use xds_relay.Outcome.{ok, err, panic}
use xds_relay.Rules.{MatchPredicate, MatchSet, rule_cons, no_rules}
use xds_relay.Transport.Request.{get_type_url}
use xds_relay.Transport.Watch.{Watch, create_watch, send, get_channel}
use xds_relay.Transport.Delivery.{IsOpen, envelope, create_watch-IsOpen, send_latest}
use xds_relay.Mapper.Match.{is_match, depth}
use xds_relay.Mapper.Result.{get_result}
use xds_relay.Mapper.Key.{Counters, get_key, separator, is_eds}
use xds_relay.Mapper.Fragments.{all_rules, Collects}
use xds_relay.Mapper.Semantics.{meaning, is_match-meaning}
use xds_relay.Mapper.Keys.{is_rejected, get_key_sound, get_key_complete, get_key_counters}
use xds_relay.Mapper.Invariance.{SameSubject}
use xds_relay.Mapper.Panics.{get_key-ne-panic}
use xds_relay.Tests.Fixtures.{types, literal, first_request, second_request, joined, response}

abbrev zeros : Counters
zeros = record { mapper_error = 0; mapper_success = 0 }

joined_key :
    get_key types literal joined zeros first_request
    ≡ (record zeros { mapper_success = 1 }, ok "x_y")
unfolding get_key join
joined_key = refl

get_key_sound_example :
    (fs : List String) × Collects literal first_request (all_rules joined.fragments) fs
    × (fs ≢ [])
    × ("x_y" ≡ join fs separator)
    × (is_rejected types first_request ≡ false)
unfolding get_key join
get_key_sound_example = get_key_sound types literal joined zeros first_request refl

both_collected : Collects literal first_request (all_rules joined.fragments) ("x" ∷ "y" ∷ [])
unfolding meaning get_result
both_collected = Collects.take "x" refl refl (Collects.take "y" refl refl Collects.done)

accepted : is_rejected types first_request ≡ false
unfolding is_rejected is_eds
accepted = refl

get_key_complete_example :
    get_key types literal joined zeros first_request
    ≡ (record zeros { mapper_success = 1 }, ok (join ("x" ∷ "y" ∷ []) separator))
get_key_complete_example =
    get_key_complete types literal joined zeros first_request ("x" ∷ "y" ∷ []) accepted
      both_collected (λ p. cc p)

get_key_counters_example :
    ((k : String)
      → (get_key types literal joined zeros first_request).1 ≡ ok k
      → (get_key types literal joined zeros first_request).0 ≡ record zeros { mapper_success = 1 })
    × ((e : String)
        → (get_key types literal joined zeros first_request).1 ≡ err e
        → (get_key types literal joined zeros first_request).0 ≡ (
            if not (str_eq (get_type_url first_request) "") && is_rejected types first_request
            then zeros
            else record zeros { mapper_error = 1 }))
get_key_counters_example = get_key_counters types literal joined zeros first_request

same_subject : SameSubject first_request second_request
same_subject = record {
  type_url = refl;
  resource_names = refl;
  node_id = refl;
  cluster = refl;
  locality = refl;
  metadata = refl;
}

get_key-ne-panic_example : (get_key types literal joined zeros first_request).1 ≢ panic
get_key-ne-panic_example = get_key-ne-panic types literal joined zeros first_request

abbrev members : MatchSet
members =
    rule_cons (MatchPredicate.request_type_match ("c2" ∷ []))
      (rule_cons (MatchPredicate.any_match false) no_rules)

is_match-meaning_example :
    is_match literal "c2" first_request 3 (MatchPredicate.and_match members)
    ≡ meaning literal "c2" first_request (MatchPredicate.and_match members)
unfolding depth
is_match-meaning_example =
    is_match-meaning literal "c2" first_request 3 (MatchPredicate.and_match members) (omega arith)

send_latest_example :
    (w : Watch) × (send (create_watch first_request) (response "5") ≡ ok w)
    × ((get_channel w).queue ≡ envelope (create_watch first_request) (response "5") ∷ [])
    × IsOpen w
send_latest_example =
    send_latest (create_watch first_request) (response "5") (create_watch-IsOpen first_request)
