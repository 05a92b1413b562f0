-- ===== src/Orchestrator/Fanout.antt =====
-- What fanout delivers (orchestrator.go).
use xds_relay.Prelude.{
  ℕ, true, ◌≡◌, ◌≢◌, refl, sym, ap, ◌∙◌, inl, inr, some, List, [], ◌∷◌, arith, Option-cases,
  Bool-cases, some-inj,
}
use xds_relay.Outcome.{Outcome, ok, err, panic, map_ok}
use xds_relay.Transport.Response.{Response}
use xds_relay.Transport.Watch.{Watch, watch_v2, watch_v3, get_channel, send}
use xds_relay.Transport.Delivery.{envelope, send_latest, send_closed}
use xds_relay.Transport.WatchV2
use xds_relay.Transport.WatchV2.{WatchV2}
use xds_relay.Transport.WatchV3
use xds_relay.Transport.WatchV3.{WatchV3}
use xds_relay.Cache.Requests.{contains}
use xds_relay.Orchestrator.Assoc.{nat_key, Key-cases}
use xds_relay.Orchestrator.Downstream.{Downstream, put, get}
use xds_relay.Orchestrator.Watches.{IsSound, IsWhole, put_all}
use xds_relay.Orchestrator.State.{fanout_one, push_response, fanout}

-- From `d` to `d'` a response was sent to the requests of a list: each of them that has a watch has
-- the response there, and nothing else; the map and all other watches are as they were.
pub record Sends (resp : Response) (reqs : List ℕ) (d d' : Downstream) : Type 0 where
  pub map : (r : ℕ) → get d' r ≡ get d r
  pub version : (a : ℕ) → envelope (d'.heap a) ≡ envelope (d.heap a)
  pub delivered :
      (r a : ℕ)
      → contains r reqs ≡ true
      → get d r ≡ some a
      → (get_channel (d'.heap a)).queue ≡ envelope (d.heap a) resp ∷ []
  pub untouched :
      (a : ℕ) → ((r : ℕ) → contains r reqs ≡ true → get d r ≢ some a) → d'.heap a ≡ d.heap a

-- Sending does not change the watch's version.
envelope-send : (w w' : Watch) (s : Response) → send w s ≡ ok w' → envelope w' ≡ envelope w
unfolding send
envelope-send (watch_v2 w) (watch_v2 w') s h = refl
envelope-send (watch_v3 w) (watch_v3 w') s h = refl
envelope-send (watch_v2 w) (watch_v3 w') s h = absurd (go (WatchV2.send w s) h)
  where
    go : (o : Outcome WatchV2) → map_ok watch_v2 o ≢ ok (watch_v3 w')
    go (ok x) p = cc p
    go (err e) p = cc p
    go panic p = cc p
envelope-send (watch_v3 w) (watch_v2 w') s h = absurd (go (WatchV3.send w s) h)
  where
    go : (o : Outcome WatchV3) → map_ok watch_v3 o ≢ ok (watch_v2 w')
    go (ok x) p = cc p
    go (err e) p = cc p
    go panic p = cc p

put_at : (d : Downstream) (a : ℕ) (w : Watch) (b : ℕ) → b ≡ a → put d.heap a w b ≡ w
put_at d a w b e = ground arith

put_off : (d : Downstream) (a : ℕ) (w : Watch) (b : ℕ) → b ≢ a → put d.heap a w b ≡ d.heap b
put_off d a w b ne = ground arith

fanout_one_lem :
    (d : Downstream) (resp : Response) (req : ℕ)
    → IsSound d
    → (d' : Downstream) × (fanout_one d resp req ≡ ok d') × IsSound d' × Sends resp (req ∷ []) d d'
unfolding fanout_one contains get
fanout_one_lem d resp req h = elim (Option-cases (get d req)) [
  | inl absent ↦ (
    d,
    rw (absent, fanout_one) refl,
    h,
    record {
      map = λ r. refl;
      version = λ a. refl;
      delivered = λ r a c p. elim (Key-cases req r) [
        | inl same ↦ absurd (cc (absent, p, same))
        | inr other ↦ absurd (ground arith)
      ];
      untouched = λ a free. refl;
    },
  )
  | inr (a, there) ↦
      let (w, sent, holds, opened) = send_latest (d.heap a) resp (h.live req a there) in
      (
        record d { heap = put d.heap a w },
        rw (there, fanout_one, sent) refl,
        record {
          allocated = h.allocated;
          unshared = h.unshared;
          live = λ r b p. elim (Key-cases b a) [
            | inl hit ↦ rw (put_at d a w b hit) opened
            | inr miss ↦ rw (put_off d a w b miss) (h.live r b p)
          ];
          whole = put_all IsWhole d.heap a w (inl opened) h.whole;
        },
        record {
          map = λ r. refl;
          version = λ b. elim (Key-cases b a) [
            | inl hit ↦
                ap envelope (put_at d a w b hit)
                ∙ envelope-send (d.heap a) w resp sent
                ∙ ap (λ x. envelope (d.heap x)) (sym hit)
            | inr miss ↦ ap envelope (put_off d a w b miss)
          ];
          delivered = λ r b c p. elim (Key-cases req r) [
            | inl same ↦
                let e : b ≡ a = some-inj (sym p ∙ ap (λ s. get d s) (sym same) ∙ there) in
                ap (λ x. (get_channel x).queue) (put_at d a w b e)
                ∙ holds
                ∙ ap (λ x. envelope (d.heap x) resp ∷ []) (sym e)
            | inr other ↦ absurd (ground arith)
          ];
          untouched = λ b free. elim (Key-cases b a) [
            | inl hit ↦ absurd (free req (ground arith) (there ∙ ap some (sym hit)))
            | inr miss ↦ ground arith
          ];
        },
      )
]

-- Pushing a response to any watch, one that was closed included, does not panic, and keeps the map
-- sound.
pub push_response_lem :
    (d : Downstream) (a : ℕ) (resp : Response)
    → IsSound d
    → (d' : Downstream) × (push_response d a resp ≡ ok d') × IsSound d'
unfolding push_response get
push_response_lem d a resp h = elim (h.whole a) [
  | inl opened ↦
      let (w, sent, holds, stays) = send_latest (d.heap a) resp opened in
      (
        record d { heap = put d.heap a w },
        rw (push_response, sent) refl,
        record {
          allocated = h.allocated;
          unshared = h.unshared;
          live = λ r b p. elim (Key-cases b a) [
            | inl hit ↦ rw (put_at d a w b hit) stays
            | inr miss ↦ rw (put_off d a w b miss) (h.live r b p)
          ];
          whole = put_all IsWhole d.heap a w (inl stays) h.whole;
        },
      )
  | inr shut ↦ (
    record d { heap = put d.heap a (d.heap a) },
    rw (push_response, send_closed (d.heap a) resp shut) refl,
    record {
      allocated = h.allocated;
      unshared = h.unshared;
      live = λ r b p. elim (Key-cases b a) [
        | inl hit ↦ rw (put_at d a (d.heap a) b hit) (rw (← hit) (h.live r b p))
        | inr miss ↦ rw (put_off d a (d.heap a) b miss) (h.live r b p)
      ];
      whole = put_all IsWhole d.heap a (d.heap a) (h.whole a) h.whole;
    },
  )
]

Sends-cons :
    {d e d' : Downstream} (resp : Response) (req : ℕ) (reqs : List ℕ)
    → IsSound d
    → Sends resp (req ∷ []) d e
    → Sends resp reqs e d'
    → Sends resp (req ∷ reqs) d d'
unfolding contains
Sends-cons {d} {e} {d'} resp req reqs h first rest = record {
  map = λ r. rest.map r ∙ first.map r;
  version = λ a. rest.version a ∙ first.version a;
  delivered = λ r a c p. elim (Bool-cases (contains r reqs)) [
    | inl later ↦
        rest.delivered r a later (first.map r ∙ p) ∙ ap (λ f. f resp ∷ []) (first.version a)
    | inr never ↦
        let same : req ≡ r = ground arith in
        ap (λ x. (get_channel x).queue)
          (rest.untouched a
            (λ s later q. absurd (cc (h.unshared r s a p (sym (first.map s) ∙ q), later, never))))
        ∙ first.delivered r a (ground arith) p
  ];
  untouched = λ a free.
      rest.untouched a (λ r c q. free r (ground arith) (sym (first.map r) ∙ q))
      ∙ first.untouched a (λ r c. free r (ground arith));
}

-- Fanning a response out over a sound map, to a list of requests that may repeat some and have some
-- without a watch, blocks nowhere and does not panic: every listed request that has a watch has
-- exactly this response in its channel, and no other watch is touched.
pub fanout_lem :
    (d : Downstream) (resp : Response) (reqs : List ℕ)
    → IsSound d
    → (d' : Downstream) × (fanout d resp reqs ≡ ok d') × IsSound d' × Sends resp reqs d d'
unfolding fanout contains
fanout_lem d resp [] h = (
  d,
  refl,
  h,
  record {
    map = λ r. refl;
    version = λ a. refl;
    delivered = λ r a c p. absurd (cc c);
    untouched = λ a free. refl;
  },
)
fanout_lem d resp (req ∷ reqs) h =
    let (e, one, sound, first) = fanout_one_lem d resp req h in
    let (d', runs, sound', rest) = fanout_lem e resp reqs sound in
    (d', rw one runs, sound', Sends-cons resp req reqs h first rest)
