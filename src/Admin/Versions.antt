-- ===== src/Admin/Versions.antt =====
-- The version and the endpoints of one key, and the list of keys (admin/http/cache.go: versionHandler,
-- edsDumpHandler, keyDumpHandler). A key is filepath.Base of the path.
use xds_relay.Prelude.{
  ◌⊎◌, inl, inr, ℕ, String, append, Option, none, some, List, [], ◌∷◌, ◌++◌, str_eq, if◌then◌else◌,
}
use xds_relay.Outcome.{Outcome, ok, err, panic, ◌>>=◌, map_ok}
use xds_relay.Transport.Message.{AnyResource}
use xds_relay.Transport.ResourceTypes.{ResourceTypes}
use xds_relay.Transport.Response.{Response, get, get_payload_version}
use xds_relay.Cache.Lru.{Lru}
use xds_relay.Cache.Resource.{Resource, Stored}
use xds_relay.Cache.Ops.{fetch_read_only}
use xds_relay.Orchestrator.State.{Relay, run_cache}
use xds_relay.Admin.Texts.{base}
use xds_relay.Admin.Resources.{Api, v2, v3, Kind, marshal_resources}
use xds_relay.Admin.Reply.{Reply, Payload, key, version, eds, refuse, finish}

-- `lbe.GetEndpoint()`, which may be nil, with the address of its socket address, which may be nil too.
abbrev pub LbEndpoint : Type 0
LbEndpoint = Option (Option String)

-- The loops over the localities and their load balancing endpoints. A nil socket address is
-- dereferenced.
unfoldable pub collect_endpoints : List LbEndpoint → Outcome (List String)
collect_endpoints [] = ok []
collect_endpoints (none ∷ es) = collect_endpoints es
collect_endpoints (some none ∷ es) = panic
collect_endpoints (some (some a) ∷ es) = map_ok (λ rest. a ∷ rest) (collect_endpoints es)

unfoldable pub collect_localities : List (List LbEndpoint) → Outcome (List String)
unfolding collect_endpoints
collect_localities [] = ok []
collect_localities (es ∷ ls) =
    collect_endpoints es >>= λ first. map_ok (λ rest. first ++ rest) (collect_localities ls)

-- A message that is no ClusterLoadAssignment is skipped.
abbrev pub or_no_localities : Option (List (List LbEndpoint)) → List (List LbEndpoint)
or_no_localities none = []
or_no_localities (some ls) = ls

-- The test for an empty key has no return.
module _ {M : Type 0} (interface_to_string : Payload M → String ⊎ String) where
  abbrev pub check_key : String → Reply → Reply
  check_key k w = if str_eq k "" then refuse interface_to_string 400 "Empty key" w else w

  module _ (lru : Lru Stored) (clock : String → ℕ × ℕ) where
    open lru use {State}

    -- The entry of the key, or the error as a reply.
    unfoldable pub look_up :
        Relay State → String → Reply → Outcome (Relay State × (Option Resource × Reply))
    unfolding run_cache fetch_read_only
    look_up r k w = run_cache r (fetch_read_only lru r.cache k (clock k).0 (clock k).1) >>= λ p.
        elim p.1 [
          | ok res ↦ ok (p.0, (some res, w))
          | err e ↦ ok (p.0, (none, refuse interface_to_string 404 e w))
          | panic ↦ panic
        ]

    -- `resp.Resp.GetPayloadVersion()` on a nil interface panics.
    unfoldable pub version_handler : Relay State → String → Reply → Outcome (Relay State × Reply)
    unfolding base look_up finish
    version_handler r path w = look_up r (base path) (check_key (base path) w) >>= λ p. elim p.1.0 [
      | none ↦ ok (p.0, p.1.1)
      | some res ↦ elim res.resp [
        | none ↦ panic
        | some resp ↦
            ok (p.0, finish interface_to_string (version (get_payload_version resp)) p.1.1)
      ]
    ]

    -- The cast of a message to the ClusterLoadAssignment of a version is a parameter: its localities,
    -- and the endpoint of each load balancing endpoint.
    module _ (types : ResourceTypes) (unmarshal_any : Api → Kind → AnyResource → Option M)
        (as_cluster_load_assignment : Api → M → Option (List (List LbEndpoint))) where
      abbrev pub collect_messages : Api → List M → Outcome (List String)
      collect_messages api [] = ok []
      collect_messages api (m ∷ ms) =
          collect_localities (or_no_localities (as_cluster_load_assignment api m)) >>= λ first.
          map_ok (λ rest. first ++ rest) (collect_messages api ms)

      unfoldable pub endpoints_of : Response → Outcome (List String)
      unfolding marshal_resources collect_localities
      endpoints_of resp = elim (get resp).v2 [
        | some r ↦ collect_messages v2 (marshal_resources types unmarshal_any r.resources).endpoints
        | none ↦ elim (get resp).v3 [
          | some r ↦
              collect_messages v3 (marshal_resources types unmarshal_any r.resources).endpoints
          | none ↦ ok []
        ]
      ]

      unfoldable pub eds_dump_handler : Relay State → String → Reply → Outcome (Relay State × Reply)
      unfolding base look_up finish endpoints_of
      eds_dump_handler r path w = look_up r (base path) (check_key (base path) w) >>= λ p.
          elim p.1.0 [
            | none ↦ ok (p.0, p.1.1)
            | some res ↦ elim res.resp [
              | none ↦ panic
              | some resp ↦ endpoints_of resp >>= λ addresses. ok (
                p.0,
                finish interface_to_string (eds (base path) (get_payload_version resp) addresses)
                    p.1.1,
              )
            ]
          ]

  -- `keys` is what GetDownstreamAggregatedKeys returns.
  unfoldable pub key_dump_handler : Outcome (List String) → Reply → Outcome Reply
  unfolding finish
  key_dump_handler (err e) w =
      ok (refuse interface_to_string 500 (append "error in getting cache keys: " e) w)
  key_dump_handler (ok keys) w = elim (interface_to_string (key keys)) [
    | inl e ↦ ok (refuse interface_to_string 500 (append "error in marshalling keys: " e) w)
    | inr _ ↦ ok (finish interface_to_string (key keys) w)
  ]
  key_dump_handler panic w = panic
