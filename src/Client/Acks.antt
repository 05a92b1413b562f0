-- ===== src/Client/Acks.antt =====
-- What is acknowledged on a stream to the origin server (upstream/client.go).
use xds_relay.Prelude.{
  ◌+◌, ◌≤◌, ◌<◌, ◌≡◌, refl, sym, ap, ◌∙◌, arith, none, some, List, [], ◌∷◌, ◌++◌, length, map,
  append_assoc, append-nil,
}
use xds_relay.Transport.Response.{Response, get_payload_version, get_nonce}
use xds_relay.Client.Session.{
  Version, Sender, Receiver, Session, first_version, version_of, new_session, Step, Reach,
}

-- The message that `send` has in hand, also if it failed.
abbrev pub in_hand : Sender → List Version
in_hand Sender.waiting = []
in_hand (Sender.writing v) = v ∷ []
in_hand (Sender.finished none) = []
in_hand (Sender.finished (some v)) = v ∷ []

-- The version that `recv` has still to signal.
abbrev pub to_signal : Receiver → List Version
to_signal (Receiver.acking v) = v ∷ []
to_signal _ = []

-- Everything that was sent, is being sent or waits to be sent, in order.
abbrev pub messages : Session → List Version
messages s = s.sent ++ (in_hand s.sender ++ (s.signal ++ to_signal s.receiver))

map-append {ℓ κ} :
    {A : Type ℓ} {B : Type κ} (f : A → B) (xs ys : List A) → map f (xs ++ ys) ≡ map f xs ++ map f ys
map-append f [] ys = refl
map-append f (x ∷ xs) ys = ap (λ l. f x ∷ l) (map-append f xs ys)

-- The acknowledgement of a response: its version and its nonce.
abbrev pub acknowledgement : Response → Version
acknowledgement r = record { version = get_payload_version r; nonce = get_nonce r }

pub record IsAcked (s : Session) : Type 0 where
  pub acked : messages s ≡ record { version = ""; nonce = "" } ∷ map acknowledgement s.delivered
  pub fits : length s.signal ≤ 1

-- Replacing the parts of `messages` by equal ones.
parts :
    (sent : List Version) {x y : Sender} {l m : List Version} {a b : Receiver}
    → x ≡ y
    → l ≡ m
    → a ≡ b
    → sent ++ (in_hand y ++ (m ++ to_signal b)) ≡ sent ++ (in_hand x ++ (l ++ to_signal a))
parts sent p q r i = sent ++ (in_hand (sym p i) ++ (sym q i ++ to_signal (sym r i)))

append_last :
    (a b c : List Version) (v : Version)
    → a ++ (b ++ (c ++ v ∷ [])) ≡ (a ++ (b ++ (c ++ []))) ++ v ∷ []
append_last a b c v =
    ap (λ l. a ++ (b ++ (l ++ v ∷ []))) (sym (append-nil c))
    ∙ ap (λ l. a ++ l) (sym (append_assoc b (c ++ []) (v ∷ [])))
    ∙ sym (append_assoc a (b ++ (c ++ [])) (v ∷ []))

one_more : (l : List Version) (v : Version) → length l < 1 → length (l ++ v ∷ []) ≤ 1
one_more [] v h = omega arith
one_more (x ∷ l) v h = absurd (omega arith)

Step-IsAcked : {s t : Session} → Step s t → IsAcked s → IsAcked t
Step-IsAcked (Step.take_signal s v rest w e) h = record {
  acked = parts s.sent w e (refl {a = s.receiver}) ∙ h.acked;
  fits = omega (arith, h.fits, ap length e);
}
Step-IsAcked (Step.message_sent s v w) h = record {
  acked =
      append_assoc s.sent (v ∷ []) (s.signal ++ to_signal s.receiver)
      ∙ parts s.sent w (refl {a = s.signal}) (refl {a = s.receiver})
      ∙ h.acked;
  fits = h.fits;
}
Step-IsAcked (Step.send_failed s v w) h = record {
  acked = parts s.sent w (refl {a = s.signal}) (refl {a = s.receiver}) ∙ h.acked;
  fits = h.fits;
}
Step-IsAcked (Step.send_stopped s w c) h = record {
  acked = parts s.sent w (refl {a = s.signal}) (refl {a = s.receiver}) ∙ h.acked;
  fits = h.fits;
}
Step-IsAcked (Step.receive_failed s w) h = record {
  acked = parts s.sent (refl {a = s.sender}) (refl {a = s.signal}) w ∙ h.acked;
  fits = h.fits;
}
Step-IsAcked (Step.receive_stopped s w c) h = record {
  acked = parts s.sent (refl {a = s.sender}) (refl {a = s.signal}) w ∙ h.acked;
  fits = h.fits;
}
Step-IsAcked (Step.message_received s r w c) h = record {
  acked = parts s.sent (refl {a = s.sender}) (refl {a = s.signal}) w ∙ h.acked;
  fits = h.fits;
}
Step-IsAcked (Step.response_taken s r w) h = record {
  acked =
      append_last s.sent (in_hand s.sender) s.signal (version_of r)
      ∙ ap (λ l. l ++ version_of r ∷ [])
          (parts s.sent (refl {a = s.sender}) (refl {a = s.signal}) w ∙ h.acked)
      ∙ ap (λ l. first_version ∷ l) (sym (map-append acknowledgement s.delivered (r ∷ [])));
  fits = h.fits;
}
Step-IsAcked (Step.offer_dropped s r w c) h = record {
  acked = parts s.sent (refl {a = s.sender}) (refl {a = s.signal}) w ∙ h.acked;
  fits = h.fits;
}
Step-IsAcked (Step.offer_crashed s r w c) h = record {
  acked = parts s.sent (refl {a = s.sender}) (refl {a = s.signal}) w ∙ h.acked;
  fits = h.fits;
}
Step-IsAcked (Step.version_signalled s v w room) h = record {
  acked =
      ap (λ l. s.sent ++ (in_hand s.sender ++ l)) (append-nil (s.signal ++ v ∷ []))
      ∙ parts s.sent (refl {a = s.sender}) (refl {a = s.signal}) w
      ∙ h.acked;
  fits = one_more s.signal v room;
}
Step-IsAcked (Step.context_done s) h = record { acked = h.acked; fits = h.fits }

-- On every stream, however its two goroutines and the caller interleave, the messages that were sent,
-- that `send` has in hand and that wait for it are the empty first request followed by one
-- acknowledgement for each response that the orchestrator took, with its version and nonce and in
-- that order; and at most one waits in the signal channel.
pub Reach-IsAcked : {s : Session} → Reach new_session s → IsAcked s
Reach-IsAcked Reach.here = record { acked = refl; fits = omega arith }
Reach-IsAcked (Reach.next r st) = Step-IsAcked st (Reach-IsAcked r)

length-append : {A : Type 0} (xs ys : List A) → length (xs ++ ys) ≡ length xs + length ys
length-append [] ys = omega arith
length-append (x ∷ xs) ys = omega (arith, length-append xs ys)

length-map : {A B : Type 0} (f : A → B) (xs : List A) → length (map f xs) ≡ length xs
length-map f [] = refl
length-map f (x ∷ xs) = omega (arith, length-map f xs)

length-in_hand : (x : Sender) → length (in_hand x) ≤ 1
length-in_hand Sender.waiting = omega arith
length-in_hand (Sender.writing v) = omega arith
length-in_hand (Sender.finished none) = omega arith
length-in_hand (Sender.finished (some v)) = omega arith

length-to_signal : (x : Receiver) → length (to_signal x) ≤ 1
length-to_signal (Receiver.acking v) = omega arith
length-to_signal Receiver.listening = omega arith
length-to_signal (Receiver.offering r) = omega arith
length-to_signal Receiver.finished = omega arith
length-to_signal Receiver.crashed = omega arith

-- Backpressure: on every stream the messages that were sent are at most one more than the responses
-- that the orchestrator took, and the responses run at most two ahead of the messages.
pub Reach-backpressure :
    {s : Session}
    → Reach new_session s
    → (length s.sent ≤ length s.delivered + 1) × (length s.delivered ≤ length s.sent + 2)
Reach-backpressure {s} r =
    let h = Reach-IsAcked r in
    let total = ap length h.acked in
    let one = length-append s.sent (in_hand s.sender ++ (s.signal ++ to_signal s.receiver)) in
    let two = length-append (in_hand s.sender) (s.signal ++ to_signal s.receiver) in
    let three = length-append s.signal (to_signal s.receiver) in
    let rest = length-map acknowledgement s.delivered in
    (
      omega (arith, total, one, two, three, rest),
      omega (
        arith,
        total,
        one,
        two,
        three,
        rest,
        h.fits,
        length-in_hand s.sender,
        length-to_signal s.receiver,
      ),
    )
