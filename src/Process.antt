-- ===== src/Process.antt =====
-- What a process starts and stops: internal/infra/httpserver, internal/infra/grpcserver,
-- internal/infra/otelx, setupTracing and NewRedisClient of internal/apps/provider.go, and the hooks
-- that internal/apps/server/server.go and internal/apps/worker/worker.go register. The libraries
-- act on a world `W`; the variables that the closures share are fields of the state. The options
-- of the gRPC server are in Grpc/Options; those of the tracer provider's batcher are left out.
pub mod Hooks
pub mod Contract
pub mod Brackets
pub mod Lifecycle
pub mod Releases
use go_clean_arch_template.Prelude.{
  String, Bool, true, false, Option, none, some, List, [], ◌∷◌, ◌==◌, if◌then◌else◌,
}
use go_clean_arch_template.Apperr.{wrapped}
use go_clean_arch_template.Effect.{Result, ok, err, M, pure, map_err, map_result, ◌>>=◌, ◌>>◌}

-- the http.Servers of the processes
pub data HttpServer : Type 0 where
  api_server : HttpServer
  grpc_health_server : HttpServer
  worker_probe_server : HttpServer

-- the goroutines of the worker, each with a context of its own
pub data Task : Type 0 where
  event_task : Task
  job_task : Task

-- otelx.Config; `Ratio` is float64
pub record TracerConfig (Ratio : Type 0) : Type 0 where
  pub service_name : String
  pub environment : String
  pub otlp_endpoint : String
  pub sample_ratio : Ratio
  pub insecure : Bool

-- what is used of OpenTelemetry, net/http, net, grpc, redis, context and time
pub record Library (W : Type 0) : Type 1 where
  pub Ratio : Type 0
  pub Attributes : Type 0
  pub Exporter : Type 0
  pub Provider : Type 0
  pub Listener : Type 0
  -- resource.New
  pub new_resource : (service_name environment : String) → M W Attributes
  -- otlptracegrpc.New
  pub new_exporter : (endpoint : String) (insecure : Bool) → M W Exporter
  -- NewTracerProvider, with a batcher if there is an exporter
  pub new_provider : Ratio → Attributes → Option Exporter → W → Provider × W
  -- SetTracerProvider and SetTextMapPropagator
  pub set_global : Provider → W → W
  -- tp.Shutdown
  pub shutdown_provider : Provider → M W (Unit {0})
  -- `go` with ListenAndServe, and Shutdown
  pub go_listen_and_serve : HttpServer → (addr : String) → W → W
  pub shutdown_http : HttpServer → M W (Unit {0})
  -- net.Listen("tcp", addr)
  pub listen : (addr : String) → M W Listener
  -- health.SetServingStatus("", ...)
  pub set_serving : Bool → W → W
  -- `go` with gs.Serve
  pub go_serve : Listener → W → W
  pub graceful_stop : W → W
  -- client.Close
  pub close_redis : M W (Unit {0})
  -- `go` with the loop of a task, and the cancel function of its context
  pub go_task : Task → W → W
  pub cancel : Task → W → W
  -- consumer.Close and ticker.Stop
  pub close_consumer : M W (Unit {0})
  pub stop_ticker : W → W

-- fx.Hook; a nil OnStart does nothing
pub record Hook (S : Type 0) : Type 0 where
  pub on_start : M S (Unit {0})
  pub on_stop : M S (Unit {0})

module _ {W : Type 0} (lib : Library W) where
  -- the world and setupTracing's `shutdown`, nothing while it is nil
  pub record State : Type 0 where
    pub world : W
    pub shutdown : Option lib.Provider

  -- a call of a library
  abbrev pub call : {A : Type 0} → M W A → M State A
  call m s = let (r, w) = m s.world in (r, record s { world = w })

  abbrev pub act : (W → W) → M State (Unit {0})
  act f s = (ok tt, record s { world = f s.world })

  -- the exporter, if an endpoint is configured
  abbrev pub exporter_of : TracerConfig lib.Ratio → M W (Option lib.Exporter)
  exporter_of cfg = if cfg.otlp_endpoint == "" then pure none else do
    exporter ← map_err (wrapped "otlp exporter") (lib.new_exporter cfg.otlp_endpoint cfg.insecure)
    pure (some exporter)

  -- the provider, which becomes the global one
  abbrev pub installed : lib.Ratio → lib.Attributes → Option lib.Exporter → M W lib.Provider
  installed sample_ratio res exporter w =
      let (tp, w') = lib.new_provider sample_ratio res exporter w in (ok tp, lib.set_global tp w')

  -- InitTracer; the shutdown function that it returns is that of the provider
  unfoldable pub init_tracer : TracerConfig lib.Ratio → M W lib.Provider
  init_tracer cfg = do
    res ← map_err (wrapped "otel resource") (lib.new_resource cfg.service_name cfg.environment)
    exporter ← exporter_of cfg
    installed cfg.sample_ratio res exporter

  -- `shutdown = s`
  abbrev pub assign_shutdown : lib.Provider → M State (Unit {0})
  assign_shutdown tp s = (ok tt, record s { shutdown = some tp })

  abbrev pub call_shutdown : Option lib.Provider → M State (Unit {0})
  call_shutdown none = pure tt
  call_shutdown (some tp) = call (lib.shutdown_provider tp)

  -- the hook of setupTracing
  unfoldable pub tracing_hook : TracerConfig lib.Ratio → Hook State
  unfolding init_tracer
  tracing_hook cfg = record {
    on_start = (do tp ← call (init_tracer cfg); assign_shutdown tp);
    on_stop = λ s. call_shutdown s.shutdown s;
  }

  -- the hook of NewRedisClient
  unfoldable pub redis_hook : Hook State
  redis_hook = record { on_start = pure tt; on_stop = call lib.close_redis }

  -- Start and Stop of httpserver.Server
  unfoldable pub http_hook : HttpServer → (addr : String) → Hook State
  http_hook server addr = record {
    on_start = act (lib.go_listen_and_serve server addr);
    on_stop = call (lib.shutdown_http server);
  }

  -- Start of grpcserver.Server
  unfoldable pub grpc_start : (addr : String) → M State (Unit {0})
  grpc_start addr = do
    lis ← call (lib.listen addr)
    act (lib.set_serving true)
    act (lib.go_serve lis)

  -- Stop of grpcserver.Server
  unfoldable pub grpc_stop : M State (Unit {0})
  grpc_stop = do act (lib.set_serving false); act lib.graceful_stop

  unfoldable pub grpc_hook : (addr : String) → Hook State
  unfolding grpc_start grpc_stop
  grpc_hook addr = record { on_start = grpc_start addr; on_stop = grpc_stop }

  -- the hook of startEventConsumer
  unfoldable pub consumer_hook : Hook State
  consumer_hook = record {
    on_start = act (lib.go_task event_task);
    on_stop = (do act (lib.cancel event_task); call lib.close_consumer);
  }

  -- the hook of startScheduledJob
  unfoldable pub job_hook : Hook State
  job_hook = record {
    on_start = act (lib.go_task job_task);
    on_stop = (do act lib.stop_ticker; act (lib.cancel job_task));
  }
