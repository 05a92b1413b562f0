-- ===== src/Client/Session.antt =====
-- One gRPC stream to the origin server (upstream/client.go): the goroutines `send` and `recv`, which
-- handleStreamsWithRetry starts and waits for, as a step relation over what they share.
use xds_relay.Prelude.{
  ℕ, ◌<◌, ◌≡◌, String, Bool, true, false, Option, none, some, List, [], ◌∷◌, ◌++◌, length,
}
use xds_relay.Transport.Response.{Response, get_payload_version, get_nonce}

-- What `send` is signalled to acknowledge.
pub record Version : Type 0 where
  pub version : String
  pub nonce : String

-- `send`: in its `select`, in SendMsg, or returned, with the message that SendMsg failed on, if any.
pub data Sender : Type 0 where
  waiting : Sender
  writing : Version → Sender
  finished : Option Version → Sender

-- `recv`: in RecvMsg, offering a response to the orchestrator, blocked on the signal channel,
-- returned, or panicked.
pub data Receiver : Type 0 where
  listening : Receiver
  offering : Response → Receiver
  acking : Version → Receiver
  finished : Receiver
  crashed : Receiver

-- `sent` are the messages that SendMsg returned from without an error, and `delivered` the responses
-- that the orchestrator took.
pub record Session : Type 0 where
  pub signal : List Version
  pub sender : Sender
  pub receiver : Receiver
  pub cancelled : Bool
  pub sent : List Version
  pub delivered : List Response

-- The first request has neither version nor nonce.
abbrev pub first_version : Version
first_version = record { version = ""; nonce = "" }

abbrev pub version_of : Response → Version
version_of r = record { version = get_payload_version r; nonce = get_nonce r }

-- The session as handleStreamsWithRetry starts it, with the first version in the signal channel.
abbrev pub new_session : Session
new_session = record {
  signal = first_version ∷ [];
  sender = Sender.waiting;
  receiver = Receiver.listening;
  cancelled = false;
  sent = [];
  delivered = [];
}

-- The capacity of the signal channel.
abbrev pub capacity : ℕ
capacity = 1

pub data Step : Session → Session → Type 0 where
  -- `send`: `case sig := <-signal`.
  take_signal :
      (s : Session) (v : Version) (rest : List Version)
      → s.sender ≡ Sender.waiting
      → s.signal ≡ v ∷ rest
      → Step s (record s { sender = Sender.writing v; signal = rest })
  -- SendMsg returns.
  message_sent :
      (s : Session) (v : Version)
      → s.sender ≡ Sender.writing v
      → Step s (record s { sender = Sender.waiting; sent = s.sent ++ v ∷ [] })
  -- SendMsg fails or times out: handleError cancels the context.
  send_failed :
      (s : Session) (v : Version)
      → s.sender ≡ Sender.writing v
      → Step s (record s { sender = Sender.finished (some v); cancelled = true })
  -- `send`: `case <-ctx.Done()`.
  send_stopped :
      (s : Session)
      → s.sender ≡ Sender.waiting
      → s.cancelled ≡ true
      → Step s (record s { sender = Sender.finished none })
  -- RecvMsg fails: handleError cancels the context.
  receive_failed :
      (s : Session)
      → s.receiver ≡ Receiver.listening
      → Step s (record s { receiver = Receiver.finished; cancelled = true })
  -- RecvMsg returns, and the context is done.
  receive_stopped :
      (s : Session)
      → s.receiver ≡ Receiver.listening
      → s.cancelled ≡ true
      → Step s (record s { receiver = Receiver.finished })
  -- RecvMsg returns, and the context is not done.
  message_received :
      (s : Session) (r : Response)
      → s.receiver ≡ Receiver.listening
      → s.cancelled ≡ false
      → Step s (record s { receiver = Receiver.offering r })
  -- `case response <- resp`: the orchestrator takes the response.
  response_taken :
      (s : Session) (r : Response)
      → s.receiver ≡ Receiver.offering r
      → Step s (record s {
        receiver = Receiver.acking (version_of r);
        delivered = s.delivered ++ r ∷ [];
      })
  -- `case <-time.After(…)`: handleError is called with the nil error of RecvMsg. It looks at the
  -- error only if the context is not done, and then panics on it.
  offer_dropped :
      (s : Session) (r : Response)
      → s.receiver ≡ Receiver.offering r
      → s.cancelled ≡ true
      → Step s (record s { receiver = Receiver.listening })
  offer_crashed :
      (s : Session) (r : Response)
      → s.receiver ≡ Receiver.offering r
      → s.cancelled ≡ false
      → Step s (record s { receiver = Receiver.crashed; cancelled = true })
  -- `signal <- version`, which blocks while the channel is full.
  version_signalled :
      (s : Session) (v : Version)
      → s.receiver ≡ Receiver.acking v
      → length s.signal < capacity
      → Step s (record s { receiver = Receiver.listening; signal = s.signal ++ v ∷ [] })
  -- The caller cancels the context, or it times out.
  context_done : (s : Session) → Step s (record s { cancelled = true })

pub data Reach (s : Session) : Session → Type 0 where
  here : Reach s s
  next : {t u : Session} → Reach s t → Step t u → Reach s u
