-- ===== src/Process/Hooks.antt =====
-- The hooks that each process registers, in their order: apps.New of internal/apps/container.go,
-- registerHTTP and registerGRPC of internal/apps/server/server.go, run of
-- internal/apps/worker/worker.go.
use go_clean_arch_template.Prelude.{String, List, [], ◌∷◌, ◌++◌}
use go_clean_arch_template.Effect.{Result, ok, err}
use go_clean_arch_template.Process.{
  Library, Hook, State, TracerConfig, api_server, grpc_health_server, worker_probe_server,
  tracing_hook, redis_hook, http_hook, grpc_hook, consumer_hook, job_hook,
}

-- the listen addresses of config.AppConfig
pub record Addresses : Type 0 where
  pub http_addr : String
  pub grpc_addr : String
  pub grpc_health_addr : String
  pub worker_health_addr : String

-- the fields of `dependency`; `A` is any
pub record Dependency (A : Type 0) : Type 0 where
  pub provides : List A
  pub supplies : List A
  pub invokes : List A

-- Option
abbrev pub AppOption : Type 0 → Type 0
AppOption A = Dependency A → Dependency A

module _ {A : Type 0} where
  -- WithProvides
  abbrev pub with_provides : List A → AppOption A
  with_provides provides d = record d { provides = d.provides ++ provides }

  -- WithSupplies
  abbrev pub with_supplies : List A → AppOption A
  with_supplies supplies d = record d { supplies = d.supplies ++ supplies }

  -- WithInvokes
  abbrev pub with_invokes : List A → AppOption A
  with_invokes invokes d = record d { invokes = d.invokes ++ invokes }

  -- the loop over the options
  unfoldable pub apply_options : List (AppOption A) → Dependency A → Dependency A
  apply_options [] d = d
  apply_options (opt ∷ rest) d = apply_options rest (opt d)

  -- what New passes to fx
  unfoldable pub new_app : (cfg starter : A) → List (AppOption A) → Dependency A
  unfolding apply_options
  new_app cfg starter opts =
      let d = apply_options opts (record { provides = []; supplies = []; invokes = [] }) in
      record d { supplies = d.supplies ++ (cfg ∷ []); invokes = d.invokes ++ (starter ∷ []) }

module _ {W : Type 0} (lib : Library W) where
  -- setupTracing, which is invoked first, and the constructor of the Redis client
  abbrev pub shared_hooks : TracerConfig lib.Ratio → List (Hook (State lib))
  shared_hooks cfg = tracing_hook lib cfg ∷ redis_hook lib ∷ []

  -- registerHTTP
  unfoldable pub register_http : Addresses → List (Hook (State lib))
  register_http a = http_hook lib api_server a.http_addr ∷ []

  -- registerGRPC, for what NewValidationInterceptor returned
  unfoldable pub register_grpc :
      Addresses → Result (Unit {0}) → Result (Unit {0}) × List (Hook (State lib))
  register_grpc a (err e) = (err e, [])
  register_grpc a (ok u) =
      (ok tt, grpc_hook lib a.grpc_addr ∷ http_hook lib grpc_health_server a.grpc_health_addr ∷ [])

  -- the hooks of the API process after its `run`
  unfoldable pub server_hooks :
      TracerConfig lib.Ratio
      → Addresses
      → Result (Unit {0})
      → Result (Unit {0}) × List (Hook (State lib))
  unfolding register_http register_grpc
  server_hooks cfg a validation =
      let (r, hooks) = register_grpc a validation in
      (r, shared_hooks cfg ++ (register_http a ++ hooks))

  -- the hooks of the worker after its `run`
  unfoldable pub worker_hooks : TracerConfig lib.Ratio → Addresses → List (Hook (State lib))
  worker_hooks cfg a =
      shared_hooks cfg
      ++ (http_hook lib worker_probe_server a.worker_health_addr
          ∷ consumer_hook lib
          ∷ job_hook lib
          ∷ [])

-- the processes
pub data Binary : Type 0 where
  server : Binary
  worker : Binary

module _ {W : Type 0} (lib : Library W) where
  -- the hooks of a process whose `run` succeeded
  unfoldable pub hooks_of : Binary → TracerConfig lib.Ratio → Addresses → List (Hook (State lib))
  unfolding server_hooks worker_hooks
  hooks_of server cfg a = (server_hooks lib cfg a (ok tt)).1
  hooks_of worker cfg a = worker_hooks lib cfg a
