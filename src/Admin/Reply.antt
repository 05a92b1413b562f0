-- ===== src/Admin/Reply.antt =====
-- What the handlers answer (http.ResponseWriter, pkg/marshallable, and the types of
-- admin/http/cache.go that are printed as JSON).
use xds_relay.Prelude.{
  ℕ, String, append, Bool, true, false, Option, none, some, List, ◌⊎◌, inl, inr,
}
use xds_relay.Transport.Message.{ControlPlane}
use xds_relay.Admin.Resources.{XdsResources}

-- A status is set once, by WriteHeader or by the first Write; `broken` is a connection whose writes
-- fail.
pub record Reply : Type 0 where
  pub status : Option ℕ
  pub body : String
  pub broken : Bool

abbrev pub blank : Reply
blank = record { status = none; body = ""; broken = false }

abbrev pub set_status : Option ℕ → ℕ → Option ℕ
set_status none code = some code
set_status (some c) code = some c

abbrev pub write_header : ℕ → Reply → Reply
write_header code w = record w { status = set_status w.status code }

abbrev pub add_text : Bool → String → String → String
add_text true body s = body
add_text false body s = append body s

-- A write sends the header 200 if none was sent.
abbrev pub write : String → Reply → Reply
write s w = record w { status = set_status w.status 200; body = add_text w.broken w.body s }

pub record MarshalledDiscoveryResponse (M : Type 0) : Type 0 where
  pub version_info : String
  pub resources : XdsResources M
  pub canary : Bool
  pub type_url : String
  pub nonce : String
  pub control_plane : Option ControlPlane

-- `requests` are the addresses of the requests that are printed.
pub record MarshallableResource (M : Type 0) : Type 0 where
  pub key : String
  pub resp : Option (MarshalledDiscoveryResponse M)
  pub requests : List ℕ
  pub num_requests : ℕ
  pub expiration_time : ℕ

pub data Payload (M : Type 0) : Type 0 where
  error : String → Payload M
  key : List String → Payload M
  version : String → Payload M
  eds : String → String → List String → Payload M
  cache : List (MarshallableResource M) → Payload M

abbrev pub text_or_empty : String ⊎ String → String
text_or_empty (inl e) = ""
text_or_empty (inr s) = s

-- json.MarshalIndent is a parameter: an error, or the text.
module _ {M : Type 0} (interface_to_string : Payload M → String ⊎ String) where
  -- A status and an error message, whose own marshalling error is ignored.
  abbrev pub refuse : ℕ → String → Reply → Reply
  refuse code message w =
      write (text_or_empty (interface_to_string (error message))) (write_header code w)

  -- The end of a handler: the text is written, and the status is set if nothing set it.
  unfoldable pub finish : Payload M → Reply → Reply
  finish payload w = elim (interface_to_string payload) [
    | inl e ↦ write_header 500 w
    | inr x ↦ write_header (elim w.broken [ true ↦ 500 | false ↦ 200 ]) (write x w)
  ]
