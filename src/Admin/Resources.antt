-- ===== src/Admin/Resources.antt =====
-- The resources of a response, unpacked by type (admin/http/cache.go: xDSResources, marshalResources).
use xds_relay.Prelude.{
  String, ◌≡◌, refl, Option, none, some, List, [], ◌∷◌, ◌++◌, append_assoc, append-nil, sym, ◌∙◌,
  str_eq, if◌then◌else◌,
}
use xds_relay.Transport.Message.{AnyResource}
use xds_relay.Transport.ResourceTypes.{ResourceTypes}

pub data Api : Type 0 where
  v2 : Api
  v3 : Api

pub data Kind : Type 0 where
  endpoints : Kind
  clusters : Kind
  routes : Kind
  listeners : Kind
  secrets : Kind
  runtimes : Kind

pub record XdsResources (M : Type 0) : Type 0 where
  pub endpoints : List M
  pub clusters : List M
  pub routes : List M
  pub listeners : List M
  pub secrets : List M
  pub runtimes : List M
  pub unmarshalled : List AnyResource

abbrev pub list_of : {M : Type 0} → Kind → XdsResources M → List M
list_of Kind.endpoints x = x.endpoints
list_of Kind.clusters x = x.clusters
list_of Kind.routes x = x.routes
list_of Kind.listeners x = x.listeners
list_of Kind.secrets x = x.secrets
list_of Kind.runtimes x = x.runtimes

-- The switch on the type URL, in the order of its cases.
unfoldable pub classify : ResourceTypes → String → Option (Api × Kind)
classify types url =
    if str_eq url types.v2.endpoint
    then some (v2, Kind.endpoints)
    else if str_eq url types.v2.cluster
    then some (v2, Kind.clusters)
    else if str_eq url types.v2.route
    then some (v2, Kind.routes)
    else if str_eq url types.v2.listener
    then some (v2, Kind.listeners)
    else if str_eq url types.v2.secret
    then some (v2, Kind.secrets)
    else if str_eq url types.v2.runtime
    then some (v2, Kind.runtimes)
    else if str_eq url types.v3.endpoint
    then some (v3, Kind.endpoints)
    else if str_eq url types.v3.cluster
    then some (v3, Kind.clusters)
    else if str_eq url types.v3.route
    then some (v3, Kind.routes)
    else if str_eq url types.v3.listener
    then some (v3, Kind.listeners)
    else if str_eq url types.v3.secret
    then some (v3, Kind.secrets)
    else if str_eq url types.v3.runtime
    then some (v3, Kind.runtimes)
    else none

unfoldable pub append_to : {M : Type 0} → Kind → M → XdsResources M → XdsResources M
append_to Kind.endpoints m x = record x { endpoints = x.endpoints ++ m ∷ [] }
append_to Kind.clusters m x = record x { clusters = x.clusters ++ m ∷ [] }
append_to Kind.routes m x = record x { routes = x.routes ++ m ∷ [] }
append_to Kind.listeners m x = record x { listeners = x.listeners ++ m ∷ [] }
append_to Kind.secrets m x = record x { secrets = x.secrets ++ m ∷ [] }
append_to Kind.runtimes m x = record x { runtimes = x.runtimes ++ m ∷ [] }

abbrev pub no_resources : {M : Type 0} → XdsResources M
no_resources = record {
  endpoints = [];
  clusters = [];
  routes = [];
  listeners = [];
  secrets = [];
  runtimes = [];
  unmarshalled = [];
}

-- The list that a resource is appended to, with its message; `none` is the unmarshalled ones.
abbrev pub keep : {M : Type 0} → Option (Kind × M) → AnyResource → XdsResources M → XdsResources M
keep (some (kind, m)) r x = append_to kind m x
keep none r x = record x { unmarshalled = x.unmarshalled ++ r ∷ [] }

-- ptypes.UnmarshalAny into the message of a kind and a version is a parameter; `none` is an error.
module _ (types : ResourceTypes) {M : Type 0}
    (unmarshal_any : Api → Kind → AnyResource → Option M) where
  unfoldable pub unmarshal : AnyResource → Option (Kind × M)
  unfolding classify
  unmarshal r = elim (classify types r.type_url) [
    | none ↦ none
    | some (api, kind) ↦ elim (unmarshal_any api kind r) [ none ↦ none | some m ↦ some (kind, m) ]
  ]

  -- The loop.
  unfoldable pub marshal_from : XdsResources M → List AnyResource → XdsResources M
  unfolding unmarshal append_to
  marshal_from x [] = x
  marshal_from x (r ∷ rs) = marshal_from (keep (unmarshal r) r x) rs

  unfoldable pub marshal_resources : List AnyResource → XdsResources M
  unfolding marshal_from
  marshal_resources rs = marshal_from no_resources rs

  -- The messages of a kind that resources hold, and the resources that are none, in order.
  abbrev pub pick : Kind → Kind → M → List M → List M
  pick Kind.endpoints Kind.endpoints m l = m ∷ l
  pick Kind.clusters Kind.clusters m l = m ∷ l
  pick Kind.routes Kind.routes m l = m ∷ l
  pick Kind.listeners Kind.listeners m l = m ∷ l
  pick Kind.secrets Kind.secrets m l = m ∷ l
  pick Kind.runtimes Kind.runtimes m l = m ∷ l
  pick _ _ m l = l

  abbrev pub pick_some : Kind → Option (Kind × M) → List M → List M
  pick_some kind (some (k, m)) l = pick kind k m l
  pick_some kind none l = l

  unfoldable pub messages_of : Kind → List AnyResource → List M
  messages_of kind [] = []
  messages_of kind (r ∷ rs) = pick_some kind (unmarshal r) (messages_of kind rs)

  abbrev pub or_left : {A : Type 0} → Option A → AnyResource → List AnyResource → List AnyResource
  or_left (some m) r rs = rs
  or_left none r rs = r ∷ rs

  unfoldable pub left_over : List AnyResource → List AnyResource
  left_over [] = []
  left_over (r ∷ rs) = or_left (unmarshal r) r (left_over rs)

  list_of-append_to :
      (kind k : Kind) (m : M) (x : XdsResources M) (l : List M)
      → list_of kind (append_to k m x) ++ l ≡ list_of kind x ++ pick kind k m l
  unfolding append_to
  list_of-append_to Kind.endpoints Kind.endpoints m x l = append_assoc x.endpoints (m ∷ []) l
  list_of-append_to Kind.endpoints _ m x l = refl
  list_of-append_to Kind.clusters Kind.clusters m x l = append_assoc x.clusters (m ∷ []) l
  list_of-append_to Kind.clusters _ m x l = refl
  list_of-append_to Kind.routes Kind.routes m x l = append_assoc x.routes (m ∷ []) l
  list_of-append_to Kind.routes _ m x l = refl
  list_of-append_to Kind.listeners Kind.listeners m x l = append_assoc x.listeners (m ∷ []) l
  list_of-append_to Kind.listeners _ m x l = refl
  list_of-append_to Kind.secrets Kind.secrets m x l = append_assoc x.secrets (m ∷ []) l
  list_of-append_to Kind.secrets _ m x l = refl
  list_of-append_to Kind.runtimes Kind.runtimes m x l = append_assoc x.runtimes (m ∷ []) l
  list_of-append_to Kind.runtimes _ m x l = refl

  list_of-keep :
      (kind : Kind) (o : Option (Kind × M)) (r : AnyResource) (x : XdsResources M) (l : List M)
      → list_of kind (keep o r x) ++ l ≡ list_of kind x ++ pick_some kind o l
  list_of-keep kind (some (k, m)) r x l = list_of-append_to kind k m x l
  list_of-keep Kind.endpoints none r x l = refl
  list_of-keep Kind.clusters none r x l = refl
  list_of-keep Kind.routes none r x l = refl
  list_of-keep Kind.listeners none r x l = refl
  list_of-keep Kind.secrets none r x l = refl
  list_of-keep Kind.runtimes none r x l = refl

  unmarshalled-keep :
      (o : Option (Kind × M)) (r : AnyResource) (x : XdsResources M) (l : List AnyResource)
      → (keep o r x).unmarshalled ++ l ≡ x.unmarshalled ++ or_left o r l
  unfolding append_to
  unmarshalled-keep none r x l = append_assoc x.unmarshalled (r ∷ []) l
  unmarshalled-keep (some (Kind.endpoints, m)) r x l = refl
  unmarshalled-keep (some (Kind.clusters, m)) r x l = refl
  unmarshalled-keep (some (Kind.routes, m)) r x l = refl
  unmarshalled-keep (some (Kind.listeners, m)) r x l = refl
  unmarshalled-keep (some (Kind.secrets, m)) r x l = refl
  unmarshalled-keep (some (Kind.runtimes, m)) r x l = refl

  marshal_from-messages :
      (rs : List AnyResource) (kind : Kind) (x : XdsResources M)
      → list_of kind (marshal_from x rs) ≡ list_of kind x ++ messages_of kind rs
  unfolding marshal_from messages_of
  marshal_from-messages [] kind x = sym (append-nil (list_of kind x))
  marshal_from-messages (r ∷ rs) kind x =
      marshal_from-messages rs kind (keep (unmarshal r) r x) ∙ list_of-keep kind (unmarshal r) r x _

  marshal_from-left_over :
      (rs : List AnyResource) (x : XdsResources M)
      → (marshal_from x rs).unmarshalled ≡ x.unmarshalled ++ left_over rs
  unfolding marshal_from left_over
  marshal_from-left_over [] x = sym (append-nil x.unmarshalled)
  marshal_from-left_over (r ∷ rs) x =
      marshal_from-left_over rs (keep (unmarshal r) r x) ∙ unmarshalled-keep (unmarshal r) r x _

  -- The admin server's view of a response holds, for each kind, the messages of the resources of that
  -- kind that could be unpacked, and beside them the resources that could not or are of no known
  -- type, each list in the order of the response.
  pub marshal_resources_lem :
      (rs : List AnyResource)
      → ((kind : Kind) → list_of kind (marshal_resources rs) ≡ messages_of kind rs)
        × ((marshal_resources rs).unmarshalled ≡ left_over rs)
  unfolding marshal_resources
  marshal_resources_lem rs = (
    (λ kind. marshal_from-messages rs kind no_resources ∙ empty kind (messages_of kind rs)),
    marshal_from-left_over rs no_resources,
  )
    where
      empty : (kind : Kind) (l : List M) → list_of kind (no_resources {M = M}) ++ l ≡ l
      empty Kind.endpoints l = refl
      empty Kind.clusters l = refl
      empty Kind.routes l = refl
      empty Kind.listeners l = refl
      empty Kind.secrets l = refl
      empty Kind.runtimes l = refl
