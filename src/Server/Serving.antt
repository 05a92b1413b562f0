-- ===== src/Server/Serving.antt =====
-- The loop of RunWithContext over the desired states and the signals (server.go), together with the
-- requests to the ready endpoint, which feed it.
use xds_relay.Prelude.{
  ℕ, suc, String, Bool, true, false, ◌≡◌, Option, none, some, List, [], ◌∷◌, if◌then◌else◌, ◌⊎◌,
}
use xds_relay.Admin.Reply.{Payload, blank}
use xds_relay.Admin.Ready.{Readiness, ready_handler, same_bool}

-- `server` is the gRPC server that was made last, nil before the first; `stopped` are those that
-- GracefulStop was called on.
pub data Phase : Type 0 where
  running : Phase
  over : Phase
  crashed : Phase

pub record Serving : Type 0 where
  pub readiness : Readiness
  pub current_state : Bool
  pub server : Option ℕ
  pub next_server : ℕ
  pub stopped : List ℕ
  pub phase : Phase

-- The channel is made with the state `true` in it.
abbrev pub new_serving : Serving
new_serving = record {
  readiness = record { ready = true; weboff = true ∷ [] };
  current_state = false;
  server = none;
  next_server = 0;
  stopped = [];
  phase = running;
}

abbrev pub halted : Phase → ℕ → Serving → Serving
halted next a s = record s { stopped = a ∷ s.stopped; phase = next }

-- GracefulStop of a nil server panics.
abbrev pub stop_server : Option ℕ → Phase → Serving → Serving
stop_server none next s = record s { phase = crashed }
stop_server (some a) next s = halted next a s

unfoldable pub graceful_stop : Phase → Serving → Serving
graceful_stop next s = stop_server s.server next s

-- `case state := <-weboff`, after the receive.
unfoldable pub on_state : Bool → Serving → Serving
unfolding graceful_stop
on_state state s =
    if same_bool state s.current_state
    then s
    else if state
    then record s {
      current_state = true;
      server = some s.next_server;
      next_server = suc s.next_server;
    }
    else graceful_stop running (record s { current_state = false })

abbrev pub received : List Bool → Serving → Serving
received rest s = record s { readiness = record { ready = s.readiness.ready; weboff = rest } }

module _ {M : Type 0} (interface_to_string : Payload M → String ⊎ String) where
  pub data Step (s : Serving) : Serving → Type 0 where
    -- A request to the ready endpoint.
    request :
        (method path : String)
        → s.phase ≡ running
        → Step s (record s {
          readiness = (ready_handler interface_to_string s.readiness method path blank).0;
        })
    take :
        (state : Bool) (rest : List Bool)
        → s.phase ≡ running
        → s.readiness.weboff ≡ state ∷ rest
        → Step s (on_state state (received rest s))
    -- `case sig := <-sigs`: the last server is stopped and the loop returns.
    interrupt : s.phase ≡ running → Step s (graceful_stop over s)

  pub data Reach (s : Serving) : Serving → Type 0 where
    here : Reach s s
    next : {t u : Serving} → Reach s t → Step t u → Reach s u
