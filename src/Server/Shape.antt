-- ===== src/Server/Shape.antt =====
-- The parts of the loop's invariant (server.go, admin/http/ready.go), and what a request and the two
-- cases of the loop do to them.
use xds_relay.Prelude.{
  ℕ, suc, ◌<◌, String, Bool, true, false, ◌≡◌, ◌≢◌, refl, sym, ap, ◌∙◌, ◌⊎◌, inl, inr, Option, none,
  some, List, [], ◌∷◌, arith, str_eq, Bool-cases, Option-cases, some-inj, ◌==◌, ==_iff,
}
use xds_relay.Cache.Requests.{contains}
use xds_relay.Admin.Texts.{base}
use xds_relay.Admin.Reply.{Reply, Payload}
use xds_relay.Admin.Ready.{Readiness, ready_handler, same_bool, parse_bool, ask}
use xds_relay.Server.Serving.{
  Phase, running, over, crashed, Serving, halted, stop_server, graceful_stop, on_state,
}

-- The state that waits, if one does, is the one that the endpoint reports; and otherwise the loop has it.
abbrev pub IsAgreed : Readiness → Bool → Type 0
IsAgreed r current = ((r.weboff ≡ []) × (current ≡ r.ready)) ⊎ (r.weboff ≡ r.ready ∷ [])

abbrev pub IsUp : Serving → Type 0
IsUp s = (a : ℕ) × (s.server ≡ some a) × (contains a s.stopped ≡ false)

pub record IsServed (s : Serving) : Type 0 where
  -- A server runs while the loop's state is `true`, and no other one.
  pub up : s.phase ≡ running → s.current_state ≡ true → IsUp s
  pub only :
      (b : ℕ)
      → b < s.next_server
      → contains b s.stopped ≡ false
      → (s.phase ≡ running) × (s.current_state ≡ true) × (s.server ≡ some b)
  pub made : (b : ℕ) → contains b s.stopped ≡ true → b < s.next_server
  pub bound : (a : ℕ) → s.server ≡ some a → a < s.next_server
  pub unmade : s.phase ≡ crashed → s.next_server ≡ 0
  pub none_made : s.server ≡ none → s.next_server ≡ 0

pub record IsSettled (s : Serving) : Type 0 where
  pub agreed : s.phase ≡ running → IsAgreed s.readiness s.current_state
  pub served : IsServed s

module _ {M : Type 0} (interface_to_string : Payload M → String ⊎ String) where
  ask_cases :
      (r : Readiness) (b : Bool) (w : Reply)
      → ((ask r b w).0 ≡ r)
        ⊎ ((r.weboff ≡ []) × ((ask r b w).0 ≡ record { ready = b; weboff = b ∷ [] }))
  ask_cases r b w = by_queue r.weboff refl
    where
      by_queue :
          (l : List Bool)
          → r.weboff ≡ l
          → ((ask r b w).0 ≡ r)
            ⊎ ((r.weboff ≡ []) × ((ask r b w).0 ≡ record { ready = b; weboff = b ∷ [] }))
      by_queue [] e = inr (e, rw e refl)
      by_queue (x ∷ l) e = inl (rw e refl)

  -- A request changes nothing, or leaves the state that it asks for in the empty channel.
  pub ready_handler_cases :
      (r : Readiness) (method path : String) (w : Reply)
      → ((ready_handler interface_to_string r method path w).0 ≡ r)
        ⊎ ((b : Bool) × (r.weboff ≡ [])
            × ((ready_handler interface_to_string r method path w).0
                ≡ record { ready = b; weboff = b ∷ [] }))
  unfolding ready_handler
  ready_handler_cases r method path w = elim (Bool-cases (str_eq method "GET")) [
    | inl get ↦ inl (rw (get, ready_handler) refl)
    | inr other ↦ elim (Bool-cases (str_eq method "POST")) [
      | inr neither ↦ inl (rw (other, neither, ready_handler) refl)
      | inl post ↦ elim (Option-cases (parse_bool (base path))) [
        | inl bad ↦ inl (rw (other, post, ready_handler, bad) refl)
        | inr (b, good) ↦ elim (Bool-cases (same_bool r.ready b)) [
          | inl same ↦ inl (rw (other, post, ready_handler, good, same) refl)
          | inr differ ↦ elim (ask_cases r b w) [
            | inl kept ↦ inl (rw (other, post, ready_handler, good, differ) kept)
            | inr (room, asked) ↦ inr (b, room, rw (other, post, ready_handler, good, differ) asked)
          ]
        ]
      ]
    ]
  ]

pub same_self : (b : Bool) → same_bool b b ≡ true
same_self true = refl
same_self false = refl

pub on_state-same : (b : Bool) (s : Serving) → s.current_state ≡ b → on_state b s ≡ s
unfolding on_state
on_state-same b s e = rw (e, on_state, same_self b) refl

abbrev pub started : Serving → Serving
started s = record s {
  current_state = true;
  server = some s.next_server;
  next_server = suc s.next_server;
}

pub on_state-start : (s : Serving) → s.current_state ≡ false → on_state true s ≡ started s
unfolding on_state
on_state-start s e = rw (e, on_state) refl

pub on_state-stop :
    (s : Serving) (a : ℕ)
    → s.current_state ≡ true
    → s.server ≡ some a
    → on_state false s ≡ halted running a (record s { current_state = false })
unfolding on_state graceful_stop
on_state-stop s a e f =
    rw (e, on_state) (ap (λ o. stop_server o running (record s { current_state = false })) f)

module _ (s : Serving) (h : IsServed s) where
  fresh : contains s.next_server s.stopped ≡ false
  fresh = elim (Bool-cases (contains s.next_server s.stopped)) [
    | inl there ↦ absurd (omega (arith, h.made s.next_server there))
    | inr absent ↦ absent
  ]

  pub started-IsServed : s.phase ≡ running → s.current_state ≡ false → IsServed (started s)
  started-IsServed live off = record {
    up = λ _ _. (s.next_server, refl, fresh);
    only = λ b below free. (live, refl, ap some (last b below free));
    made = λ b there. omega (arith, h.made b there);
    bound = λ a e. omega (arith, some-inj e);
    unmade = λ e. absurd (cc (live, e));
    none_made = λ e. cc e;
  }
    where
      last : (b : ℕ) → b < suc s.next_server → contains b s.stopped ≡ false → s.next_server ≡ b
      last b below free = elim (Bool-cases (s.next_server == b)) [
        | inl same ↦ (==_iff s.next_server b).0 same
        | inr other ↦ absurd (cc (off, (h.only b (ground arith) free).1))
      ]

  pub halted-IsServed :
      (next : Phase) (a : ℕ) (current : Bool)
      → next ≢ crashed
      → s.server ≡ some a
      → (next ≡ running → current ≡ false)
      → IsServed (record (halted next a s) { current_state = current })
  unfolding contains
  halted-IsServed next a current calm e off = record {
    up = λ live on. absurd (cc (off live, on));
    only = λ b below free.
        (let (other, kept) = neither a b free in
          absurd (other (some-inj (sym e ∙ (h.only b below kept).2))));
    made = λ b there. ground (arith, h.made b, h.bound a e);
    bound = h.bound;
    unmade = λ f. absurd (calm f);
    none_made = λ f. cc (e, f);
  }
    where
      neither :
          (a b : ℕ) → contains b (a ∷ s.stopped) ≡ false → (a ≢ b) × (contains b s.stopped ≡ false)
      neither a b free = (ground arith, ground arith)

  pub interrupt-IsServed : s.phase ≡ running → IsServed (graceful_stop over s)
  unfolding graceful_stop
  interrupt-IsServed live = by_server s.server refl
    where
      by_server : (o : Option ℕ) → s.server ≡ o → IsServed (stop_server o over s)
      by_server (some a) e = halted-IsServed over a s.current_state (λ p. cc) e (λ p. cc)
      by_server none e = record {
        up = λ p. cc p;
        only = λ b below free. absurd (omega (arith, h.none_made e));
        made = h.made;
        bound = h.bound;
        unmade = λ _. h.none_made e;
        none_made = h.none_made;
      }

pub graceful_stop-phase : (s : Serving) → (graceful_stop over s).phase ≢ running
unfolding graceful_stop
graceful_stop-phase s = by_server s.server
  where
    by_server : (o : Option ℕ) → (stop_server o over s).phase ≢ running
    by_server none e = cc e
    by_server (some a) e = cc e

pub with_readiness :
    (r : Readiness) {s : Serving} → IsServed s → IsServed (record s { readiness = r })
with_readiness r h = record {
  up = h.up;
  only = h.only;
  made = h.made;
  bound = h.bound;
  unmade = h.unmade;
  none_made = h.none_made;
}
