-- ===== src/Client/Endings.antt =====
-- Whether `send` and `recv` return (upstream/client.go), which handleStreamsWithRetry waits for before
-- it opens another stream or closes the response channel.
use xds_relay.Prelude.{
  ◌≤◌, ◌<◌, ◌≡◌, ◌≢◌, refl, ap, arith, true, Option, none, some, List, [], ◌∷◌, ◌++◌, length,
}
use xds_relay.Transport.Response.{Response}
use xds_relay.Client.Session.{
  Version, Sender, Receiver, Session, first_version, version_of, new_session, Step, Reach,
}
use xds_relay.Client.Acks.{Reach-IsAcked}

-- `send` has returned while a version waits in the signal channel, and `recv` has another one to
-- signal.
pub record IsStuck (s : Session) : Type 0 where
  pub failed : Option Version
  pub returned : s.sender ≡ Sender.finished failed
  pub pending : Version
  pub blocked : s.receiver ≡ Receiver.acking pending
  pub full : 1 ≤ length s.signal

pub record IsOver (s : Session) : Type 0 where
  pub failed : Option Version
  pub send_returned : s.sender ≡ Sender.finished failed
  pub recv_returned : s.receiver ≡ Receiver.finished

pub Step-IsStuck : {s t : Session} → Step s t → IsStuck s → IsStuck t
Step-IsStuck (Step.take_signal s v rest w e) h = absurd (cc (w, h.returned))
Step-IsStuck (Step.message_sent s v w) h = absurd (cc (w, h.returned))
Step-IsStuck (Step.send_failed s v w) h = absurd (cc (w, h.returned))
Step-IsStuck (Step.send_stopped s w c) h = absurd (cc (w, h.returned))
Step-IsStuck (Step.receive_failed s w) h = absurd (cc (w, h.blocked))
Step-IsStuck (Step.receive_stopped s w c) h = absurd (cc (w, h.blocked))
Step-IsStuck (Step.message_received s r w c) h = absurd (cc (w, h.blocked))
Step-IsStuck (Step.response_taken s r w) h = absurd (cc (w, h.blocked))
Step-IsStuck (Step.offer_dropped s r w c) h = absurd (cc (w, h.blocked))
Step-IsStuck (Step.offer_crashed s r w c) h = absurd (cc (w, h.blocked))
Step-IsStuck (Step.version_signalled s v w room) h = absurd (omega (arith, h.full))
Step-IsStuck (Step.context_done s) h = record {
  failed = h.failed;
  returned = h.returned;
  pending = h.pending;
  blocked = h.blocked;
  full = h.full;
}

pub Reach-IsStuck : {s t : Session} → IsStuck s → Reach s t → IsStuck t
Reach-IsStuck h Reach.here = h
Reach-IsStuck h (Reach.next r st) = Step-IsStuck st (Reach-IsStuck h r)

Reach-trans : {s t u : Session} → Reach s t → Reach t u → Reach s u
Reach-trans r Reach.here = r
Reach-trans r (Reach.next q st) = Reach.next (Reach-trans r q) st

-- The receiver's own steps, once the context is done and it has nothing to signal.
stop_listening :
    (s : Session)
    → s.cancelled ≡ true
    → s.receiver ≡ Receiver.listening
    → (t : Session) × Reach s t × (t.cancelled ≡ true) × (t.receiver ≡ Receiver.finished)
stop_listening s c w = (
  record s { receiver = Receiver.finished },
  Reach.next Reach.here (Step.receive_stopped s w c),
  c,
  refl,
)

stop_offering :
    (s : Session) (r : Response)
    → s.cancelled ≡ true
    → s.receiver ≡ Receiver.offering r
    → (t : Session) × Reach s t × (t.cancelled ≡ true) × (t.receiver ≡ Receiver.finished)
stop_offering s r c w =
    let (t, path, done, over) =
      stop_listening (record s { receiver = Receiver.listening }) c refl in
    (t, Reach-trans (Reach.next Reach.here (Step.offer_dropped s r w c)) path, done, over)

stop_acking :
    (s : Session) (v : Version)
    → s.cancelled ≡ true
    → s.receiver ≡ Receiver.acking v
    → length s.signal < 1
    → (t : Session) × Reach s t × (t.cancelled ≡ true) × (t.receiver ≡ Receiver.finished)
stop_acking s v c w room =
    let (t, path, done, over) =
      stop_listening (record s { receiver = Receiver.listening; signal = s.signal ++ v ∷ [] }) c
        refl in
    (t, Reach-trans (Reach.next Reach.here (Step.version_signalled s v w room)) path, done, over)

abbrev Stops : Session → Type 0
Stops s = (t : Session) × Reach s t × (t.cancelled ≡ true) × (t.receiver ≡ Receiver.finished)

-- The sender takes the version that waits, so that the receiver can signal.
stop_waiting :
    (s : Session) (v : Version)
    → s.cancelled ≡ true
    → length s.signal ≤ 1
    → s.receiver ≡ Receiver.acking v
    → s.sender ≡ Sender.waiting
    → Stops s
stop_waiting s v c fits w free = go s.signal refl
  where
    go : (l : List Version) → s.signal ≡ l → Stops s
    go [] e = stop_acking s v c w (omega (arith, ap length e))
    go (x ∷ rest) e =
        let (t, path, done, over) =
          stop_acking (record s { sender = Sender.writing x; signal = rest }) v c w
            (omega (arith, ap length e)) in
        (t, Reach-trans (Reach.next Reach.here (Step.take_signal s x rest free e)) path, done, over)

stop_writing :
    (s : Session) (v m : Version)
    → s.cancelled ≡ true
    → length s.signal ≤ 1
    → s.receiver ≡ Receiver.acking v
    → s.sender ≡ Sender.writing m
    → Stops s
stop_writing s v m c fits w busy =
    let (t, path, done, over) =
      stop_waiting (record s { sender = Sender.waiting; sent = s.sent ++ m ∷ [] }) v c fits w
        refl in
    (t, Reach-trans (Reach.next Reach.here (Step.message_sent s m busy)) path, done, over)

stop_receiver :
    (s : Session)
    → s.cancelled ≡ true
    → length s.signal ≤ 1
    → s.receiver ≢ Receiver.crashed
    → ¬ IsStuck s
    → Stops s
stop_receiver s c fits alive free = by_receiver s.receiver refl
  where
    acking_case :
        (v : Version) → s.receiver ≡ Receiver.acking v → (x : Sender) → s.sender ≡ x → Stops s
    acking_case v w Sender.waiting e = stop_waiting s v c fits w e
    acking_case v w (Sender.writing m) e = stop_writing s v m c fits w e
    acking_case v w (Sender.finished o) e = by_signal s.signal refl
      where
        by_signal : (l : List Version) → s.signal ≡ l → Stops s
        by_signal [] q = stop_acking s v c w (omega (arith, ap length q))
        by_signal (x ∷ l) q = absurd (
            free (record {
              failed = o;
              returned = e;
              pending = v;
              blocked = w;
              full = omega (arith, ap length q);
            }))

    by_receiver : (x : Receiver) → s.receiver ≡ x → Stops s
    by_receiver Receiver.listening w = stop_listening s c w
    by_receiver (Receiver.offering r) w = stop_offering s r c w
    by_receiver (Receiver.acking v) w = acking_case v w s.sender refl
    by_receiver Receiver.finished w = (s, Reach.here, c, w)
    by_receiver Receiver.crashed w = absurd (alive w)

stop_sender :
    (s : Session)
    → s.cancelled ≡ true
    → s.receiver ≡ Receiver.finished
    → (t : Session) × Reach s t × IsOver t
stop_sender s c w = go s.sender refl
  where
    go : (x : Sender) → s.sender ≡ x → (t : Session) × Reach s t × IsOver t
    go Sender.waiting e = (
      record s { sender = Sender.finished none },
      Reach.next Reach.here (Step.send_stopped s e c),
      record { failed = none; send_returned = refl; recv_returned = w },
    )
    go (Sender.writing v) e = (
      record s { sender = Sender.finished (some v); cancelled = true },
      Reach.next Reach.here (Step.send_failed s v e),
      record { failed = some v; send_returned = refl; recv_returned = w },
    )
    go (Sender.finished o) e =
        (s, Reach.here, record { failed = o; send_returned = e; recv_returned = w })

-- From every state of a stream in which `recv` has not panicked and is not stuck, both goroutines can
-- still return once the context is cancelled.
pub Reach-ends :
    (s : Session)
    → Reach new_session s
    → s.receiver ≢ Receiver.crashed
    → ¬ IsStuck s
    → (t : Session) × Reach s t × IsOver t
Reach-ends s r alive free =
    let cancelled : Reach s (record s { cancelled = true }) =
      Reach.next Reach.here (Step.context_done s) in
    let (t, path, done, over) =
      stop_receiver (record s { cancelled = true }) refl (Reach-IsAcked r).fits alive
        (λ h. free (record {
          failed = h.failed;
          returned = h.returned;
          pending = h.pending;
          blocked = h.blocked;
          full = h.full;
        })) in
    let (u, rest, ended) = stop_sender t done over in
    (u, Reach-trans cancelled (Reach-trans path rest), ended)

-- An ordinary cancellation reaches a stuck state: two responses were taken while the first request was
-- sent, their versions are signalled and pending, and the `select` of `send` takes the context's case.
pub IsStuck-reached : (r q : Response) → (s : Session) × Reach new_session s × IsStuck s
IsStuck-reached r q =
    let one : 1 ≤ 1 = omega arith in
    let room : 0 < 1 = omega arith in
    let taken = Reach.next Reach.here (Step.take_signal new_session first_version [] refl refl) in
    let sent = Reach.next taken (Step.message_sent _ first_version refl) in
    let first = Reach.next sent (Step.message_received _ r refl refl) in
    let first_taken = Reach.next first (Step.response_taken _ r refl) in
    let signalled = Reach.next first_taken (Step.version_signalled _ (version_of r) refl room) in
    let second = Reach.next signalled (Step.message_received _ q refl refl) in
    let second_taken = Reach.next second (Step.response_taken _ q refl) in
    let done = Reach.next second_taken (Step.context_done _) in
    let stopped = Reach.next done (Step.send_stopped _ refl refl) in
    (
      _,
      stopped,
      record { failed = none; returned = refl; pending = version_of q; blocked = refl; full = one },
    )
