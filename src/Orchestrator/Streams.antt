-- ===== src/Orchestrator/Streams.antt =====
-- The upstream map's invariant: each key is in it once, with a `done` channel of its own that is not closed yet, so
-- that an uninterrupted deletion closes no channel twice; and what the operations do.
use xds_relay.Prelude.{
  ℕ, suc, ◌<◌, String, true, false, ◌≡◌, ◌≢◌, refl, sym, ap, ◌∙◌, ◌⊎◌, inl, inr, Option, none, some,
  ◌==◌, arith, if◌then◌else◌, some-inj, Option-cases, Bool-cases,
}
use xds_relay.Outcome.{ok}
use xds_relay.Orchestrator.Assoc.{
  nat_key, string_key, lookup, remove, add, Key-cases, lookup-remove_self, lookup-remove_ne,
  lookup-add_self, lookup-add_ne, AreDistinct, AreDistinct-remove,
}
use xds_relay.Orchestrator.Upstream.{
  Upstream, UpstreamChannel, exists, add_channel, close_done, forget, delete,
}

abbrev pub find : Upstream → String → Option UpstreamChannel
find u key = lookup key u.channels

pub record IsSound (u : Upstream) : Type 0 where
  pub allocated : (k : String) (c : UpstreamChannel) → find u k ≡ some c → c.done < u.next
  pub pending : (k : String) (c : UpstreamChannel) → find u k ≡ some c → u.is_done c.done ≡ false
  pub fresh : (a : ℕ) → u.is_done a ≡ true → a < u.next
  pub unshared :
      (k j : String) (c e : UpstreamChannel)
      → find u k ≡ some c
      → find u j ≡ some e
      → c.done ≡ e.done
      → k ≡ j
  pub distinct : AreDistinct u.channels

-- What deleting a key does: it is gone and its `done` channel closed; the others are as they were.
pub record Deletes (key : String) (u u' : Upstream) : Type 0 where
  pub dropped : find u' key ≡ none
  pub kept : (j : String) → key ≢ j → find u' j ≡ find u j
  pub closed : (c : UpstreamChannel) → find u key ≡ some c → u'.is_done c.done ≡ true

-- Deleting a key of a sound map, present or not, does not panic.
pub delete_lem :
    (u : Upstream) (key : String)
    → IsSound u
    → (u' : Upstream) × (delete u key ≡ ok u') × IsSound u' × Deletes key u u'
unfolding delete close_done forget
delete_lem u key h = elim (Option-cases (find u key)) [
  | inl absent ↦ (
    u,
    rw (absent, delete),
    h,
    record { dropped = absent; kept = λ j n. refl; closed = λ c p. absurd (cc (absent, p)) },
  )
  | inr (c, there) ↦ (
    after c,
    rw (there, delete, h.pending key c there) refl,
    record {
      allocated = λ k e p. h.allocated k e (still c there k e p).1;
      pending = λ k e p. still_pending c there k e p;
      fresh = λ a p. was_fresh c there a p;
      unshared = λ k j x y p q. h.unshared k j x y (still c there k x p).1 (still c there j y q).1;
      distinct = AreDistinct-remove key u.channels h.distinct;
    },
    record {
      dropped = lookup-remove_self key u.channels;
      kept = λ j n. lookup-remove_ne key j u.channels n;
      closed = λ e p. marked c there e p;
    },
  )
]
  where
    after : UpstreamChannel → Upstream
    after c = record {
      channels = remove key u.channels;
      is_done = λ b. if b == c.done then true else u.is_done b;
      next = u.next;
    }

    still :
        (c : UpstreamChannel)
        → find u key ≡ some c
        → (k : String) (e : UpstreamChannel) → lookup k (remove key u.channels) ≡ some e
        → (key ≢ k) × (find u k ≡ some e)
    still c there k e p = elim (Key-cases key k) [
      | inl same ↦ absurd (cc (p, same, lookup-remove_self key u.channels))
      | inr other ↦ (other, sym (lookup-remove_ne key k u.channels other) ∙ p)
    ]

    still_pending :
        (c : UpstreamChannel)
        → find u key ≡ some c
        → (k : String) (e : UpstreamChannel) → lookup k (remove key u.channels) ≡ some e
        → (after c).is_done e.done ≡ false
    still_pending c there k e p = elim (Key-cases e.done c.done) [
      | inl hit ↦
          absurd
            ((still c there k e p).0 (sym (h.unshared k key e c (still c there k e p).1 there hit)))
      | inr miss ↦ ground (arith, h.pending k e (still c there k e p).1)
    ]

    was_fresh :
        (c : UpstreamChannel)
        → find u key ≡ some c
        → (a : ℕ) → (after c).is_done a ≡ true
        → a < u.next
    was_fresh c there a p = elim (Key-cases a c.done) [
      | inl hit ↦ omega (arith, h.allocated key c there)
      | inr miss ↦ h.fresh a (ground arith)
    ]

    marked :
        (c : UpstreamChannel)
        → find u key ≡ some c
        → (e : UpstreamChannel) → find u key ≡ some e
        → (after c).is_done e.done ≡ true
    marked c there e p =
        let same : c ≡ e = some-inj (sym there ∙ p) in
        let at : c.done ≡ e.done = ap (λ (x : UpstreamChannel). x.done) same in ground arith

not_done_next : (u : Upstream) → IsSound u → u.is_done u.next ≡ false
not_done_next u h = elim (Bool-cases (u.is_done u.next)) [
  | inl yes_done ↦ absurd (omega (arith, h.fresh u.next yes_done))
  | inr not_done ↦ not_done
]

-- Adding a stream to a sound map: a key without one gets it with a `done` channel of its own, a key that has one
-- keeps it and says so, and no other key is affected.
pub add_channel_lem :
    (u : Upstream) (key : String) (response : ℕ)
    → IsSound u
    → let p = add_channel u key response in
      IsSound p.0
      × (find p.0 key ≡ some p.1.0)
      × (p.1.1 ≡ exists u key)
      × ((j : String) → key ≢ j → find p.0 j ≡ find u j)
      × (p.1.1 ≡ false → p.1.0.response ≡ response)
unfolding add_channel exists
add_channel_lem u key response h = elim (Option-cases (find u key)) [
  | inr (c, there) ↦
      rw (there, add_channel, exists)
        (
          record {
            allocated = λ k e p. omega (arith, h.allocated k e p);
            pending = h.pending;
            fresh = λ a p. omega (arith, h.fresh a p);
            unshared = h.unshared;
            distinct = h.distinct;
          },
          there,
          refl,
          (λ j n. refl),
          (λ p. cc),
        )
  | inl absent ↦
      rw (absent, add_channel, exists)
        (
          added-IsSound absent,
          lookup-add_self key made u.channels,
          refl,
          (λ j n. lookup-add_ne key j made u.channels n),
          (λ p. refl),
        )
]
  where
    made : UpstreamChannel
    made = record { response = response; done = u.next }

    cases :
        (k : String) (e : UpstreamChannel)
        → lookup k (add key made u.channels) ≡ some e
        → ((key ≡ k) × (e.done ≡ u.next)) ⊎ ((key ≢ k) × (find u k ≡ some e))
    cases k e p = elim (Key-cases key k) [
      | inl same ↦
          let q : some e ≡ some made =
            sym p
            ∙ ap (λ j. lookup j (add key made u.channels)) (sym same)
            ∙ lookup-add_self key made u.channels in
          inl (same, ap (λ (x : UpstreamChannel). x.done) (some-inj q))
      | inr other ↦ inr (other, sym (lookup-add_ne key k made u.channels other) ∙ p)
    ]

    added-IsSound :
        find u key ≡ none
        → IsSound (record u { channels = add key made u.channels; next = suc u.next })
    added-IsSound absent = record {
      distinct = (absent, h.distinct);
      allocated = λ k e p. elim (cases k e p) [
        | inl (same, at) ↦ omega arith
        | inr (other, old) ↦ omega (arith, h.allocated k e old)
      ];
      pending = λ k e p. elim (cases k e p) [
        | inl (same, at) ↦ ap u.is_done at ∙ not_done_next u h
        | inr (other, old) ↦ h.pending k e old
      ];
      fresh = λ a p. omega (arith, h.fresh a p);
      unshared = λ k j x y p q e. elim (cases k x p) [
        | inl (same, at) ↦ elim (cases j y q) [
          | inl (same', at') ↦ sym same ∙ same'
          | inr (other, old) ↦ absurd (omega (arith, h.allocated j y old))
        ]
        | inr (other, old) ↦ elim (cases j y q) [
          | inl (same', at') ↦ absurd (omega (arith, h.allocated k x old))
          | inr (other', old') ↦ h.unshared k j x y old old' e
        ]
      ];
    }
