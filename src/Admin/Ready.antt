-- ===== src/Admin/Ready.antt =====
-- The ready handler (admin/http/ready.go) with strconv.ParseBool. `weboff` is the channel to the
-- server's loop, with room for one state.
use xds_relay.Prelude.{
  ℕ, String, Bool, true, false, ◌||◌, Option, none, some, List, [], ◌∷◌, str_eq, if◌then◌else◌, ◌⊎◌,
}
use xds_relay.Admin.Texts.{base}
use xds_relay.Admin.Reply.{Reply, Payload, write_header, refuse}

unfoldable pub parse_bool : String → Option Bool
parse_bool s =
    if str_eq s "1"
      || str_eq s "t"
      || str_eq s "T"
      || str_eq s "TRUE"
      || str_eq s "true"
      || str_eq s "True"
    then some true
    else if str_eq s "0"
        || str_eq s "f"
        || str_eq s "F"
        || str_eq s "FALSE"
        || str_eq s "false"
        || str_eq s "False"
    then some false
    else none

pub record Readiness : Type 0 where
  pub ready : Bool
  pub weboff : List Bool

abbrev pub status_of : Bool → ℕ
status_of true = 200
status_of false = 500

abbrev pub same_bool : Bool → Bool → Bool
same_bool true b = b
same_bool false true = false
same_bool false false = true

-- The `select` on the channel: with no room the state is refused.
abbrev pub ask : Readiness → Bool → Reply → Readiness × Reply
ask s desired w = elim s.weboff [
  | [] ↦ (record { ready = desired; weboff = desired ∷ [] }, write_header 200 w)
  | _ ∷ _ ↦ (s, write_header 500 w)
]

module _ {M : Type 0} (interface_to_string : Payload M → String ⊎ String) where
  unfoldable pub ready_handler : Readiness → String → String → Reply → Readiness × Reply
  unfolding base parse_bool
  ready_handler s method path w =
      if str_eq method "GET"
      then (s, write_header (status_of s.ready) w)
      else if str_eq method "POST"
      then (elim (parse_bool (base path)) [
        | none ↦ (
          s,
          refuse interface_to_string 500 "Only true/false values accepted for ready endpoint" w,
        )
        | some desired ↦
            if same_bool s.ready desired then (s, write_header 200 w) else ask s desired w
      ])
      else (s, write_header 405 w)
