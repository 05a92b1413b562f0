-- ===== src/Orchestrator/Deletions.antt =====
-- deleteAll of the downstream map (orchestrator/downstream.go).
use xds_relay.Prelude.{
  ℕ, true, false, ◌≡◌, ◌≢◌, refl, sym, ap, ◌∙◌, ◌⊎◌, inl, inr, none, some, List, [], ◌∷◌, arith,
  Option-cases, Bool-cases,
}
use xds_relay.Outcome.{ok}
use xds_relay.Transport.Watch.{is_closed}
use xds_relay.Cache.Requests.{contains}
use xds_relay.Orchestrator.Assoc.{nat_key, Key-cases}
use xds_relay.Orchestrator.Downstream.{Downstream, get, delete_all}
use xds_relay.Orchestrator.Watches.{IsSound, Deletes, delete_found, delete_absent}

module _ {d e d' : Downstream} (req : ℕ) (reqs : List ℕ) (h : IsSound d)
    (first : Deletes (req ∷ []) d e) (rest : Deletes reqs e d') where
  only : (r : ℕ) → req ≡ r → contains r (req ∷ []) ≡ true
  unfolding contains
  only r p = ground arith

  others : (r : ℕ) → req ≢ r → contains r (req ∷ []) ≡ false
  unfolding contains
  others r p = ground arith

  in_tail :
      (r : ℕ) → contains r (req ∷ reqs) ≡ true → (req ≡ r) ⊎ ((req ≢ r) × (contains r reqs ≡ true))
  unfolding contains
  in_tail r c = elim (Key-cases req r) [
    | inl same ↦ inl same
    | inr other ↦ inr (other, ground arith)
  ]

  -- What is left after the first deletion was there before, under another request.
  left : (r a : ℕ) → get e r ≡ some a → (req ≢ r) × (get d r ≡ some a)
  left r a p = elim (Key-cases req r) [
    | inl same ↦ absurd (cc (first.dropped r (only r same), p))
    | inr other ↦ (other, sym (first.kept r (others r other)) ∙ p)
  ]

  Deletes-cons : Deletes (req ∷ reqs) d d'
  unfolding contains
  Deletes-cons = record {
    dropped = λ r c. elim (Bool-cases (contains r reqs)) [
      | inl later ↦ rest.dropped r later
      | inr never ↦ rest.kept r never ∙ first.dropped r (ground arith)
    ];
    kept = λ r c. rest.kept r (ground arith) ∙ first.kept r (ground arith);
    closed = λ r a c p. elim (in_tail r c) [
      | inl same ↦
          ap is_closed
            (rest.untouched a (λ s _ q. (left s a q).0 (same ∙ h.unshared r s a p (left s a q).1)))
          ∙ first.closed r a (only r same) p
      | inr (other, later) ↦ rest.closed r a later (first.kept r (others r other) ∙ p)
    ];
    untouched = λ a free.
        rest.untouched a (λ r c q. free r (ground arith) (left r a q).1)
        ∙ first.untouched a (λ r c. free r (ground arith));
  }

pub Deletes-absent : (d : Downstream) (req : ℕ) → get d req ≡ none → Deletes (req ∷ []) d d
unfolding contains
Deletes-absent d req absent = record {
  dropped = λ r c. elim (Key-cases req r) [
    | inl same ↦ ap (get d) (sym same) ∙ absent
    | inr other ↦ absurd (ground arith)
  ];
  kept = λ r c. refl;
  closed = λ r a c p. elim (Key-cases req r) [
    | inl same ↦ absurd (cc (absent, same, p))
    | inr other ↦ absurd (ground arith)
  ];
  untouched = λ a free. refl;
}

Deletes-nil : (d : Downstream) → Deletes [] d d
unfolding contains
Deletes-nil d = record {
  dropped = λ r c. cc c;
  kept = λ r c. refl;
  closed = λ r a c p. cc c;
  untouched = λ a free. refl;
}

-- Deleting a list of requests from a sound map, repetitions and absent ones included, never closes a watch twice: it
-- succeeds, keeps the map sound and does to the map what the list says.
pub delete_all_lem :
    (d : Downstream) (reqs : List ℕ)
    → IsSound d
    → (d' : Downstream) × (delete_all d reqs ≡ ok d') × IsSound d' × Deletes reqs d d'
unfolding delete_all
delete_all_lem d [] h = (d, refl, h, Deletes-nil d)
delete_all_lem d (req ∷ reqs) h = elim (Option-cases (get d req)) [
  | inl absent ↦
      let (d', runs, sound, rest) = delete_all_lem d reqs h in
      (
        d',
        rw (delete_absent d req absent) runs,
        sound,
        Deletes-cons req reqs h (Deletes-absent d req absent) rest,
      )
  | inr (a, there) ↦
      let (e, deleted, sound, first) = delete_found d req a h there in
      let (d', runs, sound', rest) = delete_all_lem e reqs sound in
      (d', rw deleted runs, sound', Deletes-cons req reqs h first rest)
]
