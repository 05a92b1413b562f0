-- ===== src/Server/Settled.antt =====
-- What the loop and the ready endpoint agree on (server.go, admin/http/ready.go).
use xds_relay.Prelude.{
  String, Bool, true, false, ◌≡◌, refl, sym, ap, ◌∙◌, subst, ◌⊎◌, inl, inr, List, [], ◌∷◌, arith,
}
use xds_relay.Cache.Requests.{contains}
use xds_relay.Admin.Reply.{Payload, blank}
use xds_relay.Admin.Ready.{Readiness}
use xds_relay.Server.Shape.{
  IsAgreed, IsServed, IsSettled, ready_handler_cases, on_state-same, started, on_state-start,
  on_state-stop, started-IsServed, halted-IsServed, interrupt-IsServed, graceful_stop-phase,
  with_readiness,
}
use xds_relay.Server.Serving.{
  running, Serving, new_serving, halted, on_state, received, Step, Reach,
}

module _ (s : Serving) (h : IsSettled s) where
  -- The receive alone: the state that was received is the endpoint's.
  taken :
      (state : Bool) (rest : List Bool)
      → s.phase ≡ running
      → s.readiness.weboff ≡ state ∷ rest
      → (state ≡ s.readiness.ready) × (rest ≡ [])
  taken state rest live waits = elim (h.agreed live) [
    | inl (empty, e) ↦ absurd (cc (empty, waits))
    | inr one ↦ (let e : state ∷ rest ≡ s.readiness.ready ∷ [] = sym waits ∙ one in (cc e, cc e))
  ]

  -- The loop has the state that the endpoint reports, and runs on.
  abbrev Agrees : Serving → Type 0
  Agrees t =
      IsSettled t
      × (t.phase ≡ running)
      × (t.readiness ≡ record { ready = s.readiness.ready; weboff = [] })
      × (t.current_state ≡ s.readiness.ready)

  agree :
      (t : Serving)
      → t.phase ≡ running
      → t.readiness ≡ record { ready = s.readiness.ready; weboff = [] }
      → t.current_state ≡ s.readiness.ready
      → IsServed t
      → Agrees t
  agree t live read same served = (
    record {
      agreed = λ _. inl (
        ap (λ (r : Readiness). r.weboff) read,
        same ∙ sym (ap (λ (r : Readiness). r.ready) read),
      );
      served = served;
    },
    live,
    read,
    same,
  )

  take_by :
      (state current : Bool)
      → s.phase ≡ running
      → state ≡ s.readiness.ready
      → s.current_state ≡ current
      → Agrees (on_state state (received [] s))
  take_by true true live wanted now =
      subst Agrees (sym (on_state-same true (received [] s) now))
        (agree (received [] s) live refl (now ∙ wanted) (with_readiness _ h.served))
  take_by false false live wanted now =
      subst Agrees (sym (on_state-same false (received [] s) now))
        (agree (received [] s) live refl (now ∙ wanted) (with_readiness _ h.served))
  take_by true false live wanted now = subst Agrees (sym (on_state-start (received [] s) now)) (
      agree (started (received [] s)) live refl wanted
        (started-IsServed (received [] s) (with_readiness _ h.served) live now))
  take_by false true live wanted now =
      let (a, e, free) = h.served.up live now in
      subst Agrees (sym (on_state-stop (received [] s) a now e)) (
        agree (halted running a (record (received [] s) { current_state = false })) refl refl wanted
          (halted-IsServed (received [] s) (with_readiness _ h.served) running a false (λ p. cc p) e
            (λ p. refl)))

  take-Agrees :
      (state : Bool) (rest : List Bool)
      → s.phase ≡ running
      → s.readiness.weboff ≡ state ∷ rest
      → Agrees (on_state state (received rest s))
  take-Agrees state rest live waits =
      let (wanted, empty) = taken state rest live waits in
      subst (λ l. Agrees (on_state state (received l s))) (sym empty)
        (take_by state s.current_state live wanted refl)

module _ {M : Type 0} (interface_to_string : Payload M → String ⊎ String) where
  Step-IsSettled : {s t : Serving} → Step interface_to_string s t → IsSettled s → IsSettled t
  Step-IsSettled {s = s} (Step.request method path live) h = record {
    agreed = λ _. elim (ready_handler_cases interface_to_string s.readiness method path blank) [
      | inl same ↦ subst (λ r. IsAgreed r s.current_state) (sym same) (h.agreed live)
      | inr (b, room, asked) ↦ subst (λ r. IsAgreed r s.current_state) (sym asked) (inr refl)
    ];
    served = with_readiness _ h.served;
  }
  Step-IsSettled {s = s} (Step.take state rest live waits) h =
      (take-Agrees s h state rest live waits).0
  Step-IsSettled {s = s} (Step.interrupt live) h = record {
    agreed = λ p. absurd (graceful_stop-phase s p);
    served = interrupt-IsServed s h.served live;
  }

  new_serving-IsSettled : IsSettled new_serving
  unfolding contains
  new_serving-IsSettled = record {
    agreed = λ _. inr refl;
    served = record {
      up = λ _ on. cc on;
      only = λ b below _. absurd (omega arith);
      made = λ b there. cc there;
      bound = λ a e. cc e;
      unmade = λ e. refl;
      none_made = λ e. refl;
    };
  }

  -- In every state that requests to the ready endpoint, the loop and a signal lead to, in any order:
  -- while the loop runs, the state that waits in the channel is the one that the endpoint reports,
  -- or nothing waits and the loop has that state; a server runs exactly while the loop's state is
  -- `true`, and it is the one that was made last; a server that was made and is not that one is
  -- stopped. The loop panics only before it made a server.
  pub Reach-IsSettled : {s : Serving} → Reach interface_to_string new_serving s → IsSettled s
  Reach-IsSettled Reach.here = new_serving-IsSettled
  Reach-IsSettled (Reach.next r st) = Step-IsSettled st (Reach-IsSettled r)

  -- In every state that is reached while the loop runs: if nothing waits in its channel, the loop has the
  -- state that the endpoint reports; and if something waits, one receive is enough, for it empties the
  -- channel and brings the loop to the state that the endpoint reports, which goes on to report
  -- that, and the loop runs on.
  pub Reach-converges :
      (s : Serving)
      → Reach interface_to_string new_serving s
      → s.phase ≡ running
      → (s.readiness.weboff ≡ [] → s.current_state ≡ s.readiness.ready)
        × ((state : Bool) (left : List Bool)
            → s.readiness.weboff ≡ state ∷ left
            → let t = on_state state (received left s) in
              (t.phase ≡ running)
              × (t.readiness.weboff ≡ [])
              × (t.current_state ≡ s.readiness.ready)
              × (t.readiness.ready ≡ s.readiness.ready))
  Reach-converges s r live =
      let h = Reach-IsSettled r in
      (
        λ empty. elim (h.agreed live) [
          | inl (none_waits, same) ↦ same
          | inr waits ↦ absurd (cc (empty, waits))
        ],
        λ state left waits.
            let (settled, live', read, same) = take-Agrees s h state left live waits in
            (
              live',
              ap (λ (x : Readiness). x.weboff) read,
              same,
              ap (λ (x : Readiness). x.ready) read,
            ),
      )
