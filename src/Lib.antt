-- ===== src/Lib.antt =====
-- xds-relay aggregates xDS discovery requests: requests that map to one key share one stream to
-- the origin server and one cached response, which is fanned out to all of them.
--
-- The parts and their files, with paths from the repository's root:
-- - Rules (Data, Getters): the messages of api/protos/aggregation/v1/aggregation.proto that
--   configure the mapper, and their generated getters.
-- - Mapper (Regexp, Match, Action, Result, Key): internal/app/mapper/mapper.go, function by
--   function: isMatch and the compare functions in Match, getResultFragmentFromAction and its
--   siblings in Action, getResult in Result, GetKey in Key. Plain has the results without the
--   counters; Semantics, Fragments, Keys, Invariance, PartPanics and Panics hold the proofs.
-- - Transport (Request, Response, Watch, Stream and their V2 and V3 implementations):
--   internal/app/transport. The interfaces are sums of the two versions and their methods dispatch
--   on them. Delivery holds the proofs on watches. Channel has the operations of Go channels that
--   are used, and Outcome the results of Go code: a value, an error or a panic.
-- - Cache (Resource, Requests, Ops): internal/app/cache. The LRU cache of groupcache is the
--   interface Cache.Lru, with the laws that its documentation states; Single is an instance with
--   one entry. Requests are addresses, and the request stores, which copies of a resource share,
--   are in a heap. View has the invariant IsWellFormed; Invariant, Entries, Keeps, Reads, Frames,
--   Removals, Ttl, Implements, Answers and Refines hold the proofs, and Spec has an abstract
--   cache, with an entry or none for each key.
-- - Orchestrator (Downstream, Upstream, State, Watching): internal/app/orchestrator. A relay's
--   state is the cache, the map of requests to watches with a heap of the watches, the map of keys
--   to streams, and the goroutines and streams started so far. The cache's methods report the
--   entry that they evict, and run_cache runs the callback onCacheEvicted on it, as the cache
--   does. Consistency has the invariant IsConsistent; Watches, Deletions, Streams, Shutdowns,
--   Aggregated, Fanout, Opening, Delivering, Responses, Closing and Expiry hold the proofs, and
--   Histories has the whole as a state machine, with a step for each call that changes the state,
--   each case of watchUpstream's select, each read through GetReadOnlyCache, and each push of a
--   cached response and shutdown by their goroutines.
-- - Client (Session, Retry): internal/app/upstream/client.go. Session is one gRPC stream: the
--   goroutines send and recv, the signal channel and the context between them, as a step relation,
--   with a step for each case of their selects and each return of SendMsg and RecvMsg. Retry is
--   the loop of handleStreamsWithRetry around it. Acks, Endings and Retries hold the proofs.
-- - Validation (Violation, Matches, Results, Configuration): the Validate methods of
--   pkg/api/aggregation/v1/aggregation.pb.validate.go, and the loading of a configuration in
--   internal/pkg/util/yamlproto. Decides has the lemmas on chained tests; Validity states the
--   rules of the proto as a predicate, and Sound and Loaded hold the proofs.
-- - Admin (Texts, Paths, Resources, Reply, Keys, Entries, Versions, Ready):
--   internal/app/admin/http. The handlers are functions of the relay and of the reply written so
--   far; Texts has the functions of the strings and filepath packages. Readings, Dumping,
--   Prefixes, Clearing and Answers hold the proofs.
-- - Server (Serving): the loop of RunWithContext in internal/app/server/server.go with the ready
--   endpoint, as a step relation. Shape and Settled hold the proofs.
-- - Bootstrap (Messages, Hostname, Validate, Startup): the messages and the Validate methods of
--   pkg/api/bootstrap/v1, and what RunWithContext in internal/app/server/server.go makes of a
--   bootstrap configuration before it serves, through upstream.New, orchestrator.New and
--   StringToDuration. The libraries' calls that it makes are parameters that may fail. Validity
--   states the rules of bootstrap.proto, and Accepted, Started and Flush hold the proofs.
-- - Tests: data, runs and examples.
--
-- How they interact: CreateWatch maps the request to a key by the mapper's GetKey, registers it in
-- the cache, pushes a cached response and opens a stream if the key has none. watchUpstream stores
-- a response in the cache and fans it out to the watches of the requests registered with it. An
-- eviction closes these watches and the key's stream. The upstream client feeds the response
-- channel that watchUpstream reads. The admin handlers read and clear the cache through the same
-- calls, so that a read of an expired entry evicts it too.
--
-- Bounds: the recursion of isMatch is on a call depth, and GetKey gives it the depth of the
-- predicate, which is shown to be enough. Everything else is structural recursion. Times are
-- natural numbers of nanoseconds, zero being Go's zero time, and every reading of the clock is an
-- argument of its own.
--
-- Not modelled: a negative number of entries of the LRU cache; the raw requests in a printed cache
-- entry; logs and metrics, except the mapper's two counters; the dialling of the connection to the
-- origin server and DoWithTimeout, whose timeout is a failure of SendMsg; the admin handlers for
-- the log level, the configuration and the list of commands; the gRPC server and its listener in
-- internal/app/server; the xDS server callbacks of internal/app/orchestrator. Regular expressions,
-- the type URLs and messages of go-control-plane, the LRU cache, the JSON, YAML and protobuf
-- codecs, and the parsers of durations and IP addresses are parameters. Calls of the orchestrator
-- are given one at a time, as they run under their locks, except where a theorem is about the
-- steps of two of them; the goroutines of a stream, and the loop and the ready endpoint,
-- interleave in any order.
pub mod Prelude
pub mod Outcome
pub mod Channel
pub mod Transport
pub mod Rules
pub mod Server
pub mod Mapper
pub mod Cache
pub mod Orchestrator
pub mod Tests
pub mod Admin
pub mod Client
pub mod Validation
pub mod Bootstrap
