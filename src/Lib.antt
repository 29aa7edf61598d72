-- ===== src/Lib.antt =====
-- micra: the lifecycle of a Go service, and the components and adapters it is made of.
--
-- Common: numbers, lists, Go strings as lists of bytes, maps as functions.
-- Errors: Go's error values with errors.Is, errors.Join and the sentinels (core/errors.go).
-- Core.Lifecycle: core/internal/lifecycle/lifecycle.go, its data in Machine. `step` is one step of one
--   goroutine of Run, with the channel, the two contexts, the WaitGroup and the deadlines in the state; `Reach` is
--   every state some interleaving reaches. User code is what its calls answer: a result or a panic.
--   No fuel: the loops are states of the main goroutine; Measure bounds the steps of an execution, and
--   Finishes gives those of a shutdown.
-- Core.App: core/app.go. New, Register, Run and RunOnce, as functions from an App to an App; the
--   result of lifecycle.Run is an argument, tied to Core.Lifecycle by the theorems.
-- Core.App.Trapped: Run's context, with Trap's goroutine as steps beside the engine's.
-- Core.App.OneShot: RunOnce's closure, cell and cancel() as steps beside the engine's.
-- Core.Logger: core/logger.go. Core.Level: core/level.go. Core.Detach: core/detach.go.
-- Core.Signals: core/internal/signals/signals.go, the steps of Trap's goroutine and of the calls of its
--   stop function, and every state that an order of them reaches.
-- Otel: the calls of the OpenTelemetry API, as a log of signals.
-- OtelPgx: adapters/otelpgx. SqlComment is sqlcomment.go, Config is options.go and extract.go, Pool is
--   pool.go, Tx is tx.go. The wrapped pool or transaction is a record of functions.
-- GrpcServer: components/grpcserver. Interceptors is internal/interceptors (requestid.go, recovery.go,
--   and rpclog.go in RpcLog), Chain the interceptors that server.go installs. What fmt, status, uuid
--   and the clock give are arguments, and grpc's composition of interceptors is a parameter.
--   Server is server.go, options.go and healthprobe.go: what the network and grpc answer is an argument.
-- HttpServer: components/httpserver, server.go and options.go.
-- Serving: the goroutines of Start, an interface that HttpServer.Serves and GrpcServer.Server.Serves fill.
--   Serving.Hosted: those goroutines as one component of lifecycle.Run, beside the engine's.
-- Stopping: the goroutines of a Stop that closes in the background, an interface that
--   GrpcServer.Server.Stops, PgxPool.Stops and RedisCache.Client.Stops fill.
-- RedisCache: components/rediscache. Cache is cache.go, over a Redis client that is a parameter, and
--   Client is client.go and options.go, with what the server answers as an argument. Invalidation is
--   invalidation.go, on Json: encoding/json, a Marshal of strings and a scanner of one step for each rune.
-- PgxPool: components/pgxpool. GrpcClient: components/grpcclient. LoggerSlog: adapters/loggerslog.
-- OtelInit: adapters/otelinit, setup.go and options.go.
-- OtelRedis: adapters/otelredis: options.go and client.go; OtelRedis.Hook is hook.go, where the
--   command or the pipeline that the hook runs is a function.
-- Examples: the programs of examples, as compositions of the parts above.
--
-- Not modelled: pgx, go-redis, grpc and OpenTelemetry themselves, which are arguments here;
--   the wall clock, of which only deadlines and durations
--   appear; and strings that are not UTF-8 in the payloads of Invalidation and in ParseLevel.
pub mod Common
pub mod Errors
pub mod Json
pub mod Core
pub mod Serving
pub mod Stopping
pub mod Otel
pub mod OtelInit
pub mod OtelPgx
pub mod OtelRedis
pub mod GrpcServer
pub mod HttpServer
pub mod RedisCache
pub mod PgxPool
pub mod GrpcClient
pub mod LoggerSlog
pub mod Examples
