-- ===== src/Admin/Answers.antt =====
-- What the version handler answers (admin/http/cache.go: versionHandler).
use xds_relay.Prelude.{
  Option, ap, sym, subst, ◌∙◌, ℕ, String, append, true, false, ◌≡◌, ◌≢◌, refl, ◌⊎◌, inl, inr, none,
  some, str_eq, eq_iff, Bool-cases,
}
use xds_relay.Outcome.{Outcome, ok, panic}
use xds_relay.Transport.Response.{get_payload_version}
use xds_relay.Cache.Lru.{Lru}
use xds_relay.Cache.Resource.{Resource, Stored, resource, is_expired}
use xds_relay.Cache.View.{IsWellFormed, entry, as_resource}
use xds_relay.Cache.Entries.{entry_cases}
use xds_relay.Orchestrator.State.{Relay}
use xds_relay.Orchestrator.Consistency.{IsConsistent}
use xds_relay.Admin.Texts.{base}
use xds_relay.Admin.Paths.{base-ne-nil}
use xds_relay.Admin.Reply.{Reply, Payload, version, refuse, finish}
use xds_relay.Admin.Versions.{check_key, look_up, version_handler}
use xds_relay.Admin.Readings.{touched, read_absent, read_fresh, read_expired}

module _ {M : Type 0} (interface_to_string : Payload M → String ⊎ String) (lru : Lru Stored)
    (clock : String → ℕ × ℕ) where
  open lru use {State, peek}

  not_empty : (k : String) → k ≢ "" → str_eq k "" ≡ false
  not_empty k h = elim (Bool-cases (str_eq k "")) [
    | inl e ↦ absurd (h ((eq_iff k "").0 e))
    | inr e ↦ e
  ]

  check_key-skip : (k : String) (w : Reply) → k ≢ "" → check_key interface_to_string k w ≡ w
  check_key-skip k w h = rw (not_empty k h) refl

  -- What is answered for the entry of a key that is not past its deadline.
  abbrev pub version_answer :
      Relay State → String → Reply → Option Resource → Outcome (Relay State × Reply)
  version_answer r k w none =
      ok (touched lru r k, refuse interface_to_string 404 (append "no value found for key: " k) w)
  version_answer r k w (some res) = elim res.resp [
    | none ↦ panic
    | some resp ↦
        ok (touched lru r k, finish interface_to_string (version (get_payload_version resp)) w)
  ]

  abbrev pub IsUnexpired : Option Resource → ℕ → Type 0
  IsUnexpired none now = Unit
  IsUnexpired (some res) now = is_expired res now ≡ false

  -- `GET /cache/version/<key>`, with filepath.Base of the path as the key, on a well-formed cache where the
  -- key's entry, if there is one, is not past its deadline: a key that is not cached is a 404, an entry
  -- with a response is answered with its version, and both change nothing but the order of use; on an
  -- entry without a response the handler panics.
  pub version_handler_lem :
      (r : Relay State) (path : String) (w : Reply)
      → IsWellFormed lru r.cache
      → IsUnexpired (entry lru r.cache (base path)) (clock (base path)).0
      → version_handler interface_to_string lru clock r path w
        ≡ version_answer r (base path) w (entry lru r.cache (base path))
  unfolding version_handler look_up
  version_handler_lem r path w wf fresh =
      let skip = check_key-skip (base path) w (base-ne-nil path) in
      elim (entry_cases lru wf (base path)) [
        | inl absent ↦
            rw (version_handler, look_up, read_absent lru r (base path) _ _ absent)
              (ap (λ v. version_answer r (base path) v none) skip
                ∙ ap (version_answer r (base path) w) (sym (ap as_resource absent)))
        | inr (res, a, f) ↦
            (let now = subst (λ x. IsUnexpired (as_resource x) (clock (base path)).0) f.0 fresh in
              rw
                (
                  version_handler,
                  look_up,
                  read_fresh lru r (base path) res _ (clock (base path)).1 f.0 now,
                )
                (ap (λ v. version_answer r (base path) v (some res)) skip
                  ∙ ap (version_answer r (base path) w) (sym (ap as_resource f.0))))
      ]

  -- On a consistent relay the handler panics on an entry that is past its deadline at both readings of
  -- the clock, whether it has a response or not.
  pub version_handler_expired :
      (r : Relay State) (path : String) (w : Reply) (res : Resource)
      → IsConsistent lru r
      → peek r.cache.store (base path) ≡ some (resource res)
      → is_expired res (clock (base path)).0 ≡ true
      → is_expired res (clock (base path)).1 ≡ true
      → version_handler interface_to_string lru clock r path w ≡ panic
  unfolding version_handler look_up
  version_handler_expired r path w res h stored first second =
      let (r', reads, sound, gone) = read_expired lru r (base path) res _ _ h stored first second in
      rw (version_handler, look_up, reads) refl
