-- ===== src/Process/Contract.antt =====
-- What a process relies on of fx and of the libraries that its hooks call.
use go_clean_arch_template.Prelude.{String, Bool, Option, List, [], ◌∷◌, ◌≡◌}
use go_clean_arch_template.Apperr.{Error}
use go_clean_arch_template.Effect.{Result, ok, err, M}
use go_clean_arch_template.Effect.Keeps.{Keeps}
use go_clean_arch_template.Process.{Library, HttpServer, Task, Hook}

-- OnStop of hooks in this order, whatever each returns.
pub data Stopped {S : Type 0} : List (Hook S) → S → S → Type 0 where
  stopped : (s : S) → Stopped [] s s
  stop_next :
      (h : Hook S) (rest : List (Hook S)) (s t : S)
      → Stopped rest (h.on_stop s).1 t
      → Stopped (h ∷ rest) s t

-- OnStart of hooks in this order, where `done` have started before, the last first. Once one has
-- failed, those that have started are stopped, the last one first.
pub data Started {S : Type 0}
    : (hooks done : List (Hook S)) → S → Result (Unit {0}) → S → Type 0 where
  started : (done : List (Hook S)) (s : S) → Started [] done s (ok tt) s
  start_next :
      (h : Hook S) (rest done : List (Hook S)) (s t : S) (r : Result (Unit {0}))
      → (h.on_start s).0 ≡ ok tt
      → Started rest (h ∷ done) (h.on_start s).1 r t
      → Started (h ∷ rest) done s r t
  start_failed :
      (h : Hook S) (rest done : List (Hook S)) (s t : S) (e : Error)
      → (h.on_start s).0 ≡ err e
      → Stopped done (h.on_start s).1 t
      → Started (h ∷ rest) done s (err e) t

-- fx.App.Start and Stop of an app with these hooks, which end before their timeouts
pub record Fx (S : Type 0) : Type 0 where
  pub start : List (Hook S) → M S (Unit {0})
  pub stop : List (Hook S) → M S (Unit {0})

-- the last element first, before `done`
unfoldable pub last_first : {A : Type 0} → List A → (done : List A) → List A
last_first [] done = done
last_first (a ∷ rest) done = last_first rest (a ∷ done)

pub record IsFx {S : Type 0} (fx : Fx S) : Type 0 where
  pub start-Started :
      (hooks : List (Hook S)) (s : S) → Started hooks [] s (fx.start hooks s).0 (fx.start hooks s).1
  pub stop-Stopped :
      (hooks : List (Hook S)) (s : S) → Stopped (last_first hooks []) s (fx.stop hooks s).1

-- what a process launches in the background
pub data Launched {W : Type 0} (lib : Library W) : Type 0 where
  tracer : lib.Provider → Launched lib
  http : HttpServer → Launched lib
  grpc : lib.Listener → Launched lib
  task : Task → Launched lib

-- `launched` is what the process has launched and has not told to end, the latest first: a server
-- from the `go` of its ListenAndServe, which may fail to bind, to its Shutdown, the gRPC server from
-- the listener that it was given to GracefulStop, a goroutine to the cancel of its context, for
-- which nothing waits, and a tracer provider to its Shutdown.
pub record IsLibrary {W : Type 0} (lib : Library W) (launched : W → List (Launched lib))
    : Type 0 where
  pub resource_keeps : (name env : String) → Keeps launched (lib.new_resource name env)
  pub exporter_keeps : (endpoint : String) (b : Bool) → Keeps launched (lib.new_exporter endpoint b)
  pub new_provider_launches :
      (q : lib.Ratio) (a : lib.Attributes) (e : Option lib.Exporter) (w : W)
      → launched (lib.new_provider q a e w).1 ≡ tracer (lib.new_provider q a e w).0 ∷ launched w
  pub set_global_keeps : (p : lib.Provider) (w : W) → launched (lib.set_global p w) ≡ launched w
  pub shutdown_provider_ends :
      (p : lib.Provider) (w : W) (l : List (Launched lib))
      → launched w ≡ tracer p ∷ l
      → launched (lib.shutdown_provider p w).1 ≡ l
  pub listen_and_serve_launches :
      (v : HttpServer) (addr : String) (w : W)
      → launched (lib.go_listen_and_serve v addr w) ≡ http v ∷ launched w
  pub shutdown_http_ends :
      (v : HttpServer) (w : W) (l : List (Launched lib))
      → launched w ≡ http v ∷ l
      → launched (lib.shutdown_http v w).1 ≡ l
  pub listen_ok :
      (addr : String) (w : W) (lis : lib.Listener)
      → (lib.listen addr w).0 ≡ ok lis
      → launched (lib.listen addr w).1 ≡ grpc lis ∷ launched w
  pub listen_err :
      (addr : String) (w : W) (e : Error)
      → (lib.listen addr w).0 ≡ err e
      → launched (lib.listen addr w).1 ≡ launched w
  pub set_serving_keeps : (b : Bool) (w : W) → launched (lib.set_serving b w) ≡ launched w
  pub serve_keeps : (lis : lib.Listener) (w : W) → launched (lib.go_serve lis w) ≡ launched w
  pub graceful_stop_ends :
      (lis : lib.Listener) (w : W) (l : List (Launched lib))
      → launched w ≡ grpc lis ∷ l
      → launched (lib.graceful_stop w) ≡ l
  pub close_redis_keeps : Keeps launched lib.close_redis
  pub task_launches : (t : Task) (w : W) → launched (lib.go_task t w) ≡ task t ∷ launched w
  pub cancel_ends :
      (t : Task) (w : W) (l : List (Launched lib))
      → launched w ≡ task t ∷ l
      → launched (lib.cancel t w) ≡ l
  pub close_consumer_keeps : Keeps launched lib.close_consumer
  pub stop_ticker_keeps : (w : W) → launched (lib.stop_ticker w) ≡ launched w

-- what follows a start
abbrev pub started_then : {S : Type 0} → (S → S) → Result (Unit {0}) × S → S
started_then rest (ok u, t) = rest t
started_then rest (err e, t) = t

-- A run of an app: it is started and, if that succeeded, works until it is stopped.
unfoldable pub lived : {S : Type 0} → Fx S → List (Hook S) → (work : S → S) → S → S
lived fx hooks work s = started_then (λ t. (fx.stop hooks (work t)).1) (fx.start hooks s)
