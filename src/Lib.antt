-- ===== src/Lib.antt =====
-- A verification library for the account service, a Go program in hexagonal layers.
--
-- The parts of the program, and the files that model them (paths from the repository's root):
--   internal/infra/apperr                 Apperr, Apperr/Catalog; laws in Apperr/Matching
--   internal/domain                       Domain; laws in Domain/Keys and Domain/Status
--   internal/ports                        Ports, with the contracts in Ports/Contract
--   internal/core/usecase/account,
--   internal/core/services/password.go    Usecase; contracts in Usecase/Outcome, proofs in its
--                                         other children
--   internal/adapter/repo/gorm            Gorm; contract of GORM in Gorm/Contract
--   internal/adapter/repo/sqlc            Sqlc; contracts of the queries in its children
--   internal/adapter/repo/mongo           Mongo; contract of the driver in Mongo/Contract; the
--                                         sqlc and Mongo proofs share Ports/Table
--   internal/adapter/cache/manager.go     Cache; contract of the cache library in Cache/Contract
--   internal/adapter/repo/cached          Cached; proofs in its children
--   internal/adapter/http and
--   internal/infra/httpx                  Http, Http/Atoi; contract of Gin in Http/Contract
--   internal/infra/ginx,
--   internal/infra/correlation            Ginx; contracts of the context in Ginx/Contract
--   internal/adapter/grpc,
--   internal/infra/grpcx                  Grpc; the options of internal/infra/grpcserver in
--                                         Grpc/Options
--   internal/adapter/lock and
--   runHousekeeping of
--   internal/apps/worker/worker.go        Lock; contract of Redis in Lock/Contract
--   internal/adapter/limiter              Limiter; contract of redis_rate in Limiter/Policy
--   internal/adapter/kafka                Consumer, whose contract is in Consumer/Delivery
--   startEventConsumer of
--   internal/apps/worker/worker.go and
--   internal/domain/event.go              Worker; what the counter promises in Worker/Events
--   internal/infra/db/migrate.go and
--   internal/apps/migrate/migrate.go      Migrate; contracts of the libraries in Migrate/Applied
--   internal/infra/randx                  Randx
--   internal/infra/ginx/ops.go and
--   internal/apps/server/server.go        Server; what the middleware and the handlers leave of
--                                         each other's in Server/Contract
--   internal/infra/httpserver,
--   internal/infra/grpcserver,
--   internal/infra/otelx, the hooks of
--   internal/apps                         Process; contracts of fx and of the libraries in
--                                         Process/Contract
--   internal/infra/config, NewGormDB of
--   internal/apps/provider.go,
--   internal/infra/gorm                   Infra; the contract of NewGormDB in Infra/Opened
-- Prelude holds shared names, Go's strings functions, int and time.Duration texts; Effect the
-- methods that return (T, error) over a shared state, with one proof rule for each way to go on.
-- Tests instantiates every parameter with a small world and the theorems with concrete inputs.
--
-- How the program is read. A method is a function from the state to a result and the state after
-- it; Go's error is `Error`, and nil is success. The state is a type parameter: a transport calls
-- the use case, which calls the repository, the transaction manager and the limiter through the
-- records of Ports. GORM, the queries that sqlc generates, the cache library, the transaction
-- library, Redis, redis_rate, Kafka's reader, Gin, otelgin, golang-migrate, protovalidate,
-- bcrypt, crypto/rand, fx, net/http, grpc, OpenTelemetry and env are parameters, and what the
-- program relies on of them is the records whose names begin with Is, in the files named above:
-- IsGorm, IsCache, IsRedis, IsGin, IsTxManager and others. A closure that assigns captured
-- variables returns their values. Pointers to values that nothing mutates are the values. Times
-- are instants, counted in the unit that the store keeps, and the location that Format prints is
-- an argument of it; durations are in nanoseconds. Texts are Unicode; the letters that `to_lower`
-- changes are those of Prelude/Letters. The contexts that calls pass on are left out, but for the
-- locker's and, in Ginx, the request's. What other processes do between two calls of a port is in
-- Usecase/Disturbed and Cached/Raced. No loop of the modelled code needs fuel: the consumer loop,
-- which need not end, is a relation.
--
-- Not modelled: log lines but the request log's and the query log's, latencies, the graph of
-- constructors that fx builds, generated code, the transaction managers, which are one call each of
-- a library, and the parts that the list above does not name.
pub mod Prelude
pub mod Apperr
pub mod Domain
pub mod Effect
pub mod Ports
pub mod Usecase
pub mod Gorm
pub mod Cache
pub mod Cached
pub mod Http
pub mod Lock
pub mod Grpc
pub mod Consumer
pub mod Limiter
pub mod Sqlc
pub mod Mongo
pub mod Infra
pub mod Process
pub mod Randx
pub mod Server
pub mod Migrate
pub mod Worker
pub mod Ginx
mod Tests
