-- ===== src/Orchestrator/Watches.antt =====
-- The downstream map's invariant: its watches are open and each belongs to one request, so that no
-- watch is closed twice; and what deletions do.
use xds_relay.Prelude.{
  ℕ, suc, ◌<◌, true, false, ◌≡◌, ◌≢◌, refl, sym, ap, ◌∙◌, ◌⊎◌, inl, inr, none, some, List, [], ◌∷◌,
  arith, some-inj, Option-cases, Bool-cases, ◌==◌,
}
use xds_relay.Outcome.{ok}
use xds_relay.Transport.Request.{Request}
use xds_relay.Transport.Watch.{Watch, create_watch, is_closed}
use xds_relay.Transport.Delivery.{IsOpen, create_watch-IsOpen, close_watch_once}
use xds_relay.Cache.Requests.{contains}
use xds_relay.Orchestrator.Assoc.{
  nat_key, lookup, remove, add, Key-cases, lookup-remove_self, lookup-remove_ne, lookup-add_self,
  lookup-add_ne,
}
use xds_relay.Orchestrator.Downstream.{Downstream, put, find_or_create, get, delete}

-- A watch that is open, or was closed.
abbrev pub IsWhole : Watch → Type 0
IsWhole w = IsOpen w ⊎ (is_closed w ≡ true)

-- What holds of every watch of a heap holds after one of them is replaced by such a watch.
pub put_all :
    (P : Watch → Type 0) (heap : ℕ → Watch) (a : ℕ) (w : Watch)
    → P w
    → ((b : ℕ) → P (heap b))
    → (b : ℕ) → P (put heap a w b)
put_all P heap a w new old b = elim (Bool-cases (b == a)) [
  | inl hit ↦ rw hit new
  | inr miss ↦ rw miss (old b)
]

pub record IsSound (d : Downstream) : Type 0 where
  pub allocated : (r a : ℕ) → get d r ≡ some a → a < d.next
  pub unshared : (r s a : ℕ) → get d r ≡ some a → get d s ≡ some a → r ≡ s
  pub live : (r a : ℕ) → get d r ≡ some a → IsOpen (d.heap a)
  pub whole : (a : ℕ) → IsWhole (d.heap a)

-- From `d` to `d'` the requests of a list were deleted, and nothing else happened: they are gone and
-- their watches closed, the others are where they were, and no other watch was touched.
pub record Deletes (reqs : List ℕ) (d d' : Downstream) : Type 0 where
  pub dropped : (r : ℕ) → contains r reqs ≡ true → get d' r ≡ none
  pub kept : (r : ℕ) → contains r reqs ≡ false → get d' r ≡ get d r
  pub closed : (r a : ℕ) → contains r reqs ≡ true → get d r ≡ some a → is_closed (d'.heap a) ≡ true
  pub untouched :
      (a : ℕ) → ((r : ℕ) → contains r reqs ≡ true → get d r ≢ some a) → d'.heap a ≡ d.heap a

created-IsSound :
    (d : Downstream) (req : ℕ) (r : Request)
    → IsSound d
    → get d req ≡ none
    → IsSound (record d {
      watches = add req d.next d.watches;
      heap = put d.heap d.next (create_watch r);
      next = suc d.next;
    })
unfolding get
created-IsSound d req r h absent = record {
  allocated = λ s a e. elim (cases s a e) [
    | inl (same, new) ↦ omega arith
    | inr (other, old) ↦ omega (arith, h.allocated s a old)
  ];
  unshared = λ s t a e f. elim (cases s a e) [
    | inl (same, new) ↦ elim (cases t a f) [
      | inl (same', new') ↦ omega arith
      | inr (other, old) ↦ absurd (omega (arith, h.allocated t a old))
    ]
    | inr (other, old) ↦ elim (cases t a f) [
      | inl (same', new') ↦ absurd (omega (arith, h.allocated s a old))
      | inr (other', old') ↦ h.unshared s t a old old'
    ]
  ];
  live = λ s a e. elim (cases s a e) [
    | inl (same, new) ↦ rw (put_self a new) (create_watch-IsOpen r)
    | inr (other, old) ↦ rw (put_old a (h.allocated s a old)) (h.live s a old)
  ];
  whole = put_all IsWhole d.heap d.next (create_watch r) (inl (create_watch-IsOpen r)) h.whole;
}
  where
    cases :
        (s a : ℕ)
        → lookup s (add req d.next d.watches) ≡ some a
        → ((req ≡ s) × (a ≡ d.next)) ⊎ ((req ≢ s) × (lookup s d.watches ≡ some a))
    cases s a e = elim (Key-cases req s) [
      | inl same ↦ inl (
        same,
        some-inj (
            sym e
            ∙ ap (λ t. lookup t (add req d.next d.watches)) (sym same)
            ∙ lookup-add_self req d.next d.watches),
      )
      | inr other ↦ inr (other, sym (lookup-add_ne req s d.next d.watches other) ∙ e)
    ]

    put_self : (a : ℕ) → a ≡ d.next → put d.heap d.next (create_watch r) a ≡ create_watch r
    put_self a e = ground arith

    put_old : (a : ℕ) → a < d.next → put d.heap d.next (create_watch r) a ≡ d.heap a
    put_old a lt = ground arith

-- In a sound map a new request gets an open watch of its own; one that is there keeps its watch. No other request
-- is affected.
pub find_or_create_lem :
    (d : Downstream) (req : ℕ) (r : Request)
    → IsSound d
    → let p = find_or_create d req r in
      IsSound p.0
      × (get p.0 req ≡ some p.1)
      × ((s : ℕ) → req ≢ s → get p.0 s ≡ get d s)
      × ((a : ℕ) → get d req ≡ some a → (p.1 ≡ a) × (p.0 ≡ d))
unfolding find_or_create get
find_or_create_lem d req r h = elim (Option-cases (get d req)) [
  | inr (a, there) ↦ rw (there, find_or_create) (h, there, λ s n. refl, λ b e. (ground arith, refl))
  | inl absent ↦
      rw (absent, find_or_create)
        (
          created-IsSound d req r h absent,
          lookup-add_self req d.next d.watches,
          (λ s n. lookup-add_ne req s d.next d.watches n),
          (λ a e. absurd (cc e)),
        )
]

module _ (d : Downstream) (req a : ℕ) (h : IsSound d) (there : get d req ≡ some a) (w : Watch)
    (shut : is_closed w ≡ true) where
  abbrev after : Downstream
  after = record d { watches = remove req d.watches; heap = put d.heap a w }

  -- What is still in the map was there, under another request and with another watch.
  still :
      (r b : ℕ) → get after r ≡ some b → (req ≢ r) × (get d r ≡ some b) × (d.heap b ≡ after.heap b)
  unfolding get
  still r b e = elim (Key-cases req r) [
    | inl same ↦ absurd (cc (e, same, lookup-remove_self req d.watches))
    | inr other ↦
        let old = sym (lookup-remove_ne req r d.watches other) ∙ e in
        (
          other,
          old,
          elim (Key-cases b a) [
            | inl hit ↦ absurd (other (h.unshared req r a there (old ∙ ap some hit)))
            | inr miss ↦ ground arith
          ],
        )
  ]

  after-IsSound : IsSound after
  after-IsSound = record {
    allocated = λ r b e. h.allocated r b (still r b e).1;
    unshared = λ r s b e f. h.unshared r s b (still r b e).1 (still s b f).1;
    live = λ r b e. rw (← (still r b e).2) (h.live r b (still r b e).1);
    whole = put_all IsWhole d.heap a w (inr shut) h.whole;
  }

  after-Deletes : Deletes (req ∷ []) d after
  unfolding get contains
  after-Deletes = record {
    dropped = λ r c. elim (Key-cases req r) [
      | inl same ↦ rw (← same) (lookup-remove_self req d.watches)
      | inr other ↦ absurd (ground arith)
    ];
    kept = λ r c. lookup-remove_ne req r d.watches (λ p. ground arith);
    closed = λ r b c e. ground arith;
    untouched = λ b free. elim (Key-cases b a) [
      | inl hit ↦ absurd (free req (ground arith) (there ∙ ap some (sym hit)))
      | inr miss ↦ ground arith
    ];
  }

pub delete_absent : (d : Downstream) (r : ℕ) → get d r ≡ none → delete d r ≡ ok (d, none)
unfolding delete get
delete_absent d r p = rw (p, delete)

-- Deleting a request that is in a sound map closes its watch without a panic and drops it.
pub delete_found :
    (d : Downstream) (req a : ℕ)
    → IsSound d
    → get d req ≡ some a
    → (d' : Downstream) × (delete d req ≡ ok (d', some a)) × IsSound d' × Deletes (req ∷ []) d d'
unfolding delete get
delete_found d req a h there =
    let (w, done, shut, twice) = close_watch_once (d.heap a) (h.live req a there) in
    (
      after d req a h there w shut,
      rw (there, delete, done) refl,
      after-IsSound d req a h there w shut,
      after-Deletes d req a h there w shut,
    )
