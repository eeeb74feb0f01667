-- ===== src/Lib.antt =====
-- A model of the exchange simulator: how the process reads its settings, connects its data adapter,
-- serves HTTP and gRPC and shuts down, what its HTTP server answers and measures, how the process
-- registers itself and finds other services, and how it keeps its connections to them.
-- `cmd/server/main.go` loads the configuration, connects the data adapter, and builds the metrics and
-- the HTTP server with its middleware and handlers; the clients of internal/infrastructure and the gRPC
-- server of internal/presentation are built by tests only so far. The inter-service clients ask the
-- service discovery for endpoints, the middleware records through the metrics port, which the adapter
-- implements and the metrics handler serves, and all take their settings from one `Config`.
--
-- Which file models what:
--   Config                 internal/config/config.go: the settings. Load reads them from the
--                          environment, InstanceName validates an instance's name, DataAdapter
--                          connects and disconnects the data adapter, MetricsHolder keeps the metrics
--                          port; DnsLabel, Loading, InRange and Connecting are proofs
--   Main                   cmd/server/main.go, `main` from the data adapter on: Process has its steps
--                          and those of the goroutines that serve, Shutdown is proofs
--   HttpServer             Setup has `setupHTTPServer` of cmd/server/main.go and a request through
--                          what it builds, Handlers has internal/handlers, Gin the router that they
--                          call; Routing, Answers and Scrape are proofs
--   ExchangeService        internal/services/exchange.go
--   ConfigurationClient    internal/infrastructure/configuration_client.go: Types has the data,
--                          Methods the methods; Caching, Counting and Provenance are proofs
--   ServiceDiscovery       internal/infrastructure/service_discovery.go: Redis is the store it calls,
--                          Types the data, Wire the JSON and the keys, Methods the methods; Lifecycle,
--                          Lookup, Registration, Exact, Endpoint, Stopping and Counters are
--                          proofs, and Listed a Redis for the tests
--   InterService           internal/infrastructure/inter_service_client.go: Types has the data and
--                          the gRPC library it calls, Methods the methods; Consistency, Requests,
--                          Dialling, Registered and Stale are proofs
--   GrpcServer             internal/presentation/grpc/server.go: Types has the data, Methods the
--                          methods; Lifecycle and Termination are proofs
--   Metrics                Port has internal/domain/ports/metrics.go, Middleware and Adapter have
--                          middleware.go and prometheus_adapter.go of
--                          internal/infrastructure/observability; Prometheus is the library that the
--                          adapter calls; Recording is a port that keeps what it is told; Red, Exposed
--                          and the children of Adapter are proofs
--   Common                 what these share: association lists for Go's maps, results and methods that
--                          may fail, the clock, HTTP answers, JSON, regular expressions, and the texts
--                          of integers (Int prints, Number reads) and of durations (Duration)
-- The Tests of each part run its methods on concrete data.
--
-- Correspondence. A Go struct is a record with the fields' names in snake case; loggers, mutexes and
-- wait groups have no field, except that the number of goroutines in a wait group is one where a
-- method depends on it. A method is a function of the same name on the state; one that may fail gives
-- a result and the state that is left. The state of a part together with what surrounds it (the clock,
-- the network, the Redis store) is its `Session`. Errors are data with one constructor for each text
-- that the code formats, around the error it wraps. Methods run one at a time, with these exceptions,
-- which are steps in any order: the service discovery's heartbeat, also between the two halves of
-- `Stop`; the events of the gRPC server, with the goroutines of its `Start`; the two locked sections of `getCachedValue`; the sections of
-- `GetAuditCorrelatorClient` between which another goroutine calls it; the two locked sections in which
-- the adapter makes a metric; and the steps of `main` and of the goroutines that it starts.
--
-- Bounds. `int64` counters wrap at 2^64 and are kept as their residues. Times are
-- nanoseconds from Go's zero time and durations are nanoseconds, both in ℕ, but for the durations that
-- `Load` reads, which have a sign; `time.Since` saturates at 2^63 - 1. The conversion of a duration to
-- a float64 of seconds is left out. The clock gives one reading after another and is only assumed to be
-- monotone where a theorem says so. The decimal text of a number has fuel one more than the number,
-- which has at most that many digits. `time.ParseDuration` runs on fuel that is the length of the text,
-- of which each of its parts takes a character at least; the fraction of a part is computed exactly,
-- where Go goes through a float64. Regular expressions are matched by what is left of them after each
-- character. Loops over keys and connections are recursion on lists.
--
-- Parameters. Redis, gRPC, Prometheus with promhttp, gin, the library of data adapters, the reading of
-- an .env file, the network's answers, `net.Listen`, whether the gRPC calls pending at a `Stop` end, and
-- the text formats of times are arguments; what is used of their documented behaviour (a value that was
-- set is got, a cancelled context makes a command fail, a registered route is found, a printed time is
-- read back) is named in their law records. JSON is a tree of members, so escaping and white space are
-- not modelled, and the names of members are compared exactly, where Go also takes a name that differs
-- in case. An integer in an `interface{}` is rounded to a float64; other numbers are not told apart. A
-- Go map's order is that of insertion; the code ranges over one to close connections and to list the
-- names of labels, which Prometheus takes as a set.
--
-- Not modelled: mutexes, and the data races they prevent or leave open, beyond the interleavings above;
-- logging; `setupGRPCServer` of cmd/server/main.go, which only calls the gRPC library, and what
-- `GracefulStop` waits for; the bodies of SubmitAuditEvent and ProcessSettlement, which only log.
pub mod Common
pub mod Config
pub mod ConfigurationClient
pub mod ExchangeService
pub mod GrpcServer
pub mod InterService
pub mod HttpServer
pub mod Main
pub mod Metrics
pub mod ServiceDiscovery
