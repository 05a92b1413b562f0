-- ===== src/Orchestrator/Aggregated.antt =====
-- The keys that getAggregatedKeys collects (orchestrator/downstream.go).
use xds_relay.Prelude.{
  ℕ, String, true, ◌≡◌, refl, sym, ap, ◌∙◌, subst, ◌⊎◌, inl, inr, ◌↔◌, List, [], ◌∷◌, str_eq,
  eq_iff, Bool-cases, if◌then◌else◌,
}
use xds_relay.Outcome.{Outcome, ok, >>=-eq-ok, ok-inj}
use xds_relay.Transport.Request.{Request}
use xds_relay.Orchestrator.Downstream.{Downstream, has_key, collect_keys, get_aggregated_keys}

has_key-cons :
    (k j : String) (keys : List String)
    → (has_key k (j ∷ keys) ≡ true) ↔ ((j ≡ k) ⊎ (has_key k keys ≡ true))
unfolding has_key
has_key-cons k j keys = elim (Bool-cases (str_eq j k)) [
  | inl same ↦ (λ e. inl ((eq_iff j k).0 same), λ h. rw same refl)
  | inr other ↦ (
    rw other (λ e. inr e),
    rw other (λ h. elim h [ inl p ↦ absurd (cc (other, (eq_iff j k).1 p)) | inr e ↦ e ]),
  )
]

-- The set with one more key.
inserted :
    (k j : String) (keys : List String)
    → (has_key k (if has_key j keys then keys else j ∷ keys) ≡ true)
      ↔ ((j ≡ k) ⊎ (has_key k keys ≡ true))
inserted k j keys = elim (Bool-cases (has_key j keys)) [
  | inl there ↦
      rw there
        (λ e. inr e, λ h. elim h [ inl p ↦ ap (λ x. has_key x keys) (sym p) ∙ there | inr e ↦ e ])
  | inr new ↦ rw new (has_key-cons k j keys)
]

module _ (get_key : Request → Outcome String) (request_at : ℕ → Request) where
  -- A request of the map has this key.
  abbrev pub IsKeyed : String → List (ℕ × ℕ) → Type 0
  IsKeyed k [] = ⊥
  IsKeyed k ((req, a) ∷ watches) = (get_key (request_at req) ≡ ok k) ⊎ IsKeyed k watches

  collected :
      (watches : List (ℕ × ℕ)) (acc keys : List String)
      → collect_keys get_key request_at watches acc ≡ ok keys
      → (k : String) → (has_key k keys ≡ true) ↔ ((has_key k acc ≡ true) ⊎ IsKeyed k watches)
  unfolding collect_keys
  collected [] acc keys e k = (
    λ h. inl (subst (λ l. has_key k l ≡ true) (sym (ok-inj e)) h),
    λ h. elim h [ inl x ↦ subst (λ l. has_key k l ≡ true) (ok-inj e) x | inr x ↦ absurd x ],
  )
  collected ((req, a) ∷ watches) acc keys e k =
      let (key, keyed, rest) = >>=-eq-ok (get_key (request_at req)) _ e in
      let again = collected watches (if has_key key acc then acc else key ∷ acc) keys rest k in
      let one = inserted k key acc in
      (
        λ h. elim (again.0 h) [
          | inr later ↦ inr (inr later)
          | inl now ↦ elim (one.0 now) [
            | inl same ↦ inr (inl (keyed ∙ ap ok same))
            | inr old ↦ inl old
          ]
        ],
        λ h. again.1 (elim h [
          | inl old ↦ inl (one.1 (inr old))
          | inr found ↦ elim found [
            | inl first ↦ inl (one.1 (inl (ok-inj (sym keyed ∙ first))))
            | inr later ↦ inr later
          ]
        ]),
      )

  pub get_aggregated_keys_lem :
      (d : Downstream) (keys : List String)
      → get_aggregated_keys get_key request_at d ≡ ok keys
      → (k : String) → (has_key k keys ≡ true) ↔ IsKeyed k d.watches
  unfolding get_aggregated_keys has_key
  get_aggregated_keys_lem d keys e k =
      let all = collected d.watches [] keys e k in
      (λ h. elim (all.0 h) [ inl x ↦ absurd (cc x) | inr x ↦ x ], λ h. all.1 (inr h))
