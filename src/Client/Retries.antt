-- ===== src/Client/Retries.antt =====
-- The response channel of OpenStream (upstream/client.go): when handleStreamsWithRetry closes it.
use xds_relay.Prelude.{
  some, Option, ℕ, suc, ◌≤◌, ◌<◌, String, true, ◌≡◌, ◌≢◌, refl, sym, ap, ◌∙◌, subst, inl, inr,
  arith, ltb, Bool-cases, ◌+◌, ◌^◌,
}
use xds_relay.Prelude.Int.{pos}
use xds_relay.Outcome.{ok}
use xds_relay.Transport.ResourceTypes.{ResourceTypes}
use xds_relay.Client.Session.{Session, new_session, Receiver, Reach}
use xds_relay.Client.Endings.{IsOver, IsStuck, Step-IsStuck, Reach-ends}
use xds_relay.Client.Retry.{
  Service, Phase, starting, streaming, returned, Loop, new_loop, close_and_return, Round, Rounds,
  get_stream_timeout, to_int64,
}

abbrev pub session_of : Phase → Session
session_of (streaming s x) = x
session_of starting = new_session
session_of returned = new_session

-- Whether the channel is closed, and the state of a stream that is open.
pub record IsKept (l : Loop) : Type 0 where
  pub closed : l.phase ≡ returned → l.closes ≡ 1
  pub unclosed : l.phase ≢ returned → l.closes ≡ 0
  pub reached : (s : Service) (x : Session) → l.phase ≡ streaming s x → Reach new_session x

module _ (types : ResourceTypes) (type_url : String) where
  IsKept-closed : (l : Loop) → l.phase ≡ starting → IsKept l → IsKept (close_and_return l)
  IsKept-closed l top h = record {
    closed = λ _. ap suc (h.unclosed (λ e. cc (top, e)));
    unclosed = λ n. absurd (n refl);
    reached = λ s x e. cc e;
  }

  Round-IsKept : {l m : Loop} → Round types type_url l m → IsKept l → IsKept m
  Round-IsKept Round.cancel h = record {
    closed = h.closed;
    unclosed = h.unclosed;
    reached = h.reached;
  }
  Round-IsKept Round.shut_down h = record {
    closed = h.closed;
    unclosed = h.unclosed;
    reached = h.reached;
  }
  Round-IsKept {l = l} (Round.stop top why) h = IsKept-closed l top h
  Round-IsKept {l = l} (Round.unsupported top a b c) h = IsKept-closed l top h
  Round-IsKept (Round.open_failed s top a b c) h = h
  Round-IsKept (Round.opened s top a b c) h = record {
    closed = λ e. cc e;
    unclosed = λ n. h.unclosed (λ e. cc (top, e));
    reached = λ t x e. subst (Reach new_session) (ap session_of e) Reach.here;
  }
  Round-IsKept (Round.advance s x y now st) h = record {
    closed = λ e. cc e;
    unclosed = λ n. h.unclosed (λ e. cc (now, e));
    reached =
        λ t z e. subst (Reach new_session) (ap session_of e) (Reach.next (h.reached s x now) st);
  }
  Round-IsKept (Round.waited s x now done) h = record {
    closed = λ e. cc e;
    unclosed = λ n. h.unclosed (λ e. cc (now, e));
    reached = λ t z e. cc e;
  }

  -- However rounds, cancellations and shutdowns follow each other, the response channel is closed
  -- exactly once if the loop has returned, and not before: it is never closed twice. A stream that is open is in a
  -- state that its goroutines can be in.
  pub Rounds-IsKept : {l : Loop} → Rounds types type_url new_loop l → IsKept l
  Rounds-IsKept Rounds.here = record {
    closed = λ e. cc e;
    unclosed = λ n. refl;
    reached = λ s x e. cc e;
  }
  Rounds-IsKept (Rounds.next r st) = Round-IsKept st (Rounds-IsKept r)

  Rounds-trans :
      {l m n : Loop}
      → Rounds types type_url l m
      → Rounds types type_url m n
      → Rounds types type_url l n
  Rounds-trans r Rounds.here = r
  Rounds-trans r (Rounds.next q st) = Rounds.next (Rounds-trans r q) st

  -- The steps of a stream are rounds of the loop.
  advances :
      (l : Loop) (s : Service) {x y : Session}
      → Reach x y
      → Rounds types type_url
          (record l { phase = streaming s x })
          (record l { phase = streaming s y })
  advances l s Reach.here = Rounds.here
  advances l s (Reach.next r st) = Rounds.next (advances l s r) (Round.advance s _ _ refl st)

  abbrev Returns : Loop → Type 0
  Returns l = (m : Loop) × Rounds types type_url l m × (m.phase ≡ returned)

  Returns-top : (l : Loop) → l.phase ≡ starting → Returns l
  Returns-top l top = (
    close_and_return (record l { cancelled = true }),
    Rounds.next (Rounds.next Rounds.here Round.cancel) (Round.stop top (inr refl)),
    refl,
  )

  abbrev IsLive : Session → Type 0
  IsLive x = (x.receiver ≢ Receiver.crashed) × ¬ IsStuck x

  Returns-from :
      (l : Loop) (p : Phase)
      → l.phase ≡ p
      → ((s : Service) (x : Session) → p ≡ streaming s x → Reach new_session x × IsLive x)
      → Returns l
  Returns-from l returned e h = (l, Rounds.here, e)
  Returns-from l starting e h = Returns-top l e
  Returns-from l (streaming s x) e h =
      let (reached, (alive, free)) = h s x refl in
      let (y, path, over) = Reach-ends x reached alive free in
      let (m, rest, ends) = Returns-top (record l { phase = starting }) refl in
      let same : record l { phase = streaming s x } ≡ l = λ i. record l { phase = sym e i } in
      let first =
        subst (λ k. Rounds types type_url k (record l { phase = streaming s y })) same
          (advances l s path) in
      (m, Rounds-trans (Rounds.next first (Round.waited s y refl over)) rest, ends)

  -- In every state of the loop in which `recv` has neither panicked nor got stuck, a cancellation can
  -- still bring the loop to return, with the response channel closed once.
  pub Rounds-returns :
      (l : Loop)
      → Rounds types type_url new_loop l
      → ((s : Service) (x : Session)
          → l.phase ≡ streaming s x
          → (x.receiver ≢ Receiver.crashed) × ¬ IsStuck x)
      → (m : Loop) × Rounds types type_url l m × (m.phase ≡ returned) × (m.closes ≡ 1)
  Rounds-returns l r live =
      let (m, path, ends) =
        Returns-from l l.phase refl (λ s x e. ((Rounds-IsKept r).reached s x e, live s x e)) in
      (m, path, ends, (Rounds-IsKept (Rounds-trans r path)).closed ends)

  abbrev Hangs : Loop → ℕ → Type 0
  Hangs l n = (s : Service) × (x : Session) × (l.phase ≡ streaming s x) × IsStuck x × (l.closes ≡ n)

  Round-Hangs : {l m : Loop} (n : ℕ) → Round types type_url l m → Hangs l n → Hangs m n
  Round-Hangs n Round.cancel h = h
  Round-Hangs n Round.shut_down h = h
  Round-Hangs n (Round.stop top why) (s, x, e, k, same) = absurd (cc (top, e))
  Round-Hangs n (Round.unsupported top a b c) (s, x, e, k, same) = absurd (cc (top, e))
  Round-Hangs n (Round.open_failed t top a b c) (s, x, e, k, same) = absurd (cc (top, e))
  Round-Hangs n (Round.opened t top a b c) (s, x, e, k, same) = absurd (cc (top, e))
  Round-Hangs n (Round.advance t z y now st) (s, x, e, stuck, closes) =
      (t, y, refl, Step-IsStuck st (subst IsStuck (ap session_of (sym e ∙ now)) stuck), closes)
  Round-Hangs n (Round.waited t z now over) (s, x, e, stuck, closes) =
      absurd (never (subst IsStuck (ap session_of (sym e ∙ now)) stuck) over)
    where
      never : {z : Session} → IsStuck z → IsOver z → ⊥
      never k o = cc (k.blocked, o.recv_returned)

  -- Once `send` has returned while a version waits in the signal channel and `recv` has another one to
  -- signal, the loop waits for `recv` forever: no cancellation and no shutdown makes it return, open
  -- another stream or close the response channel.
  pub stuck_hangs :
      (l m : Loop) (s : Service) (x : Session)
      → l.phase ≡ streaming s x
      → IsStuck x
      → Rounds types type_url l m
      → (m.phase ≢ returned) × (m.phase ≢ starting) × (m.closes ≡ l.closes)
  stuck_hangs l m s x now stuck r =
      let (t, y, e, k, closes) = hangs r in ((λ q. cc (e, q)), (λ q. cc (e, q)), closes)
    where
      hangs : {m : Loop} → Rounds types type_url l m → Hangs m l.closes
      hangs Rounds.here = (s, x, now, stuck, refl)
      hangs (Rounds.next r st) = Round-Hangs l.closes st (hangs r)

jittered : (n : ℕ) → n < 2 ^ 63 → to_int64 n ≡ pos n
jittered n h = ground arith

-- A stream's timeout lies between the configured one, which is not negative, and that plus the jitter, the
-- latter excluded unless there is no jitter, if these sums are values of an int64 and the source of
-- random numbers has no error.
pub get_stream_timeout_bounds :
    (rand_int : ℕ → Option ℕ) (timeout jitter : ℕ)
    → ((n : ℕ) → 0 < n → (r : ℕ) × ((rand_int n ≡ some r) × (r < n)))
    → timeout + jitter < 2 ^ 63
    → (t : ℕ) × (get_stream_timeout rand_int (pos timeout) (pos jitter) ≡ ok (pos t))
      × (timeout ≤ t)
      × (t ≤ timeout + jitter)
      × (0 < jitter → t < timeout + jitter)
unfolding get_stream_timeout
get_stream_timeout_bounds rand_int timeout jitter law fits = elim (Bool-cases (ltb 0 jitter)) [
  | inl some_jitter ↦
      (let (r, (drawn, below)) = law jitter (ground (arith, some_jitter)) in
        let bound : timeout + r < 2 ^ 63 = omega (arith, below, fits) in
        (
          timeout + r,
          rw (some_jitter, drawn) (ap ok (jittered _ bound)),
          omega arith,
          omega (arith, below),
          λ _. omega (arith, below),
        ))
  | inr no_jitter ↦ (
    timeout,
    rw no_jitter refl,
    omega arith,
    omega arith,
    λ h. absurd (ground (arith, no_jitter)),
  )
]
