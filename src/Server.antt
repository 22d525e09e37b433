-- ===== src/Server.antt =====
-- internal/apps/server/server.go, internal/infra/ginx/ops.go and the liveness handler: what the
-- HTTP server mounts at which path, and a request through the middleware to what is mounted. The
-- handlers of promhttp, net/http/pprof and Swagger are a parameter, and so is `join`, by which Gin
-- puts a group's path before a relative one.
pub mod Routes
pub mod Contract
pub mod Api
pub mod Checked
pub mod Probes
pub mod States
pub mod Sound
use go_clean_arch_template.Prelude.{String, Bool, List, [], ◌∷◌, ◌++◌, if◌then◌else◌}
use go_clean_arch_template.Effect.{Result, M, ◌>>=◌}
use go_clean_arch_template.Ports.{AccountUseCase}
use go_clean_arch_template.Http.{
  Library, Route, post_accounts, get_account, get_accounts, patch_account, delete_account, handle,
  status_body, ready_body,
}
use go_clean_arch_template.Ginx.{Values, Request, ended, Handler, chain}
use go_clean_arch_template.Ginx.Readiness.{readiness}

-- what is mounted
pub data Endpoint : Type 0 where
  liveness_probe : Endpoint
  readiness_probe : Endpoint
  metrics_scrape : Endpoint
  -- a handler of net/http/pprof
  profiling : String → Endpoint
  swagger_ui : Endpoint
  account_api : Route → Endpoint

pub record Mount : Type 0 where
  pub method : String
  pub path : String
  pub endpoint : Endpoint

abbrev pub at : (method path : String) → Endpoint → Mount
at method path endpoint = record { method = method; path = path; endpoint = endpoint }

-- RegisterHealth
unfoldable pub register_health : List Mount
register_health =
    at "GET" "/liveness" liveness_probe
    ∷ at "GET" "/health" liveness_probe
    ∷ at "GET" "/readiness" readiness_probe
    ∷ []

-- RegisterMetrics
unfoldable pub register_metrics : List Mount
register_metrics = at "GET" "/metrics" metrics_scrape ∷ []

-- RegisterSwagger
unfoldable pub register_swagger : List Mount
register_swagger = at "GET" "/swagger/*any" swagger_ui ∷ []

module _ (join : (base relative : String) → String) where
  -- RegisterPprof
  unfoldable pub register_pprof : List Mount
  register_pprof =
      let g = join "/" "/debug/pprof" in
      at "GET" (join g "/") (profiling "Index")
      ∷ at "GET" (join g "/cmdline") (profiling "Cmdline")
      ∷ at "GET" (join g "/profile") (profiling "Profile")
      ∷ at "GET" (join g "/symbol") (profiling "Symbol")
      ∷ at "POST" (join g "/symbol") (profiling "Symbol")
      ∷ at "GET" (join g "/trace") (profiling "Trace")
      ∷ at "GET" (join g "/:profile") (profiling "Index")
      ∷ []

  -- AccountHandler.RegisterRoutes
  unfoldable pub register_routes : (group : String) → List Mount
  register_routes group =
      let g = join group "/accounts" in
      at "POST" (join g "") (account_api post_accounts)
      ∷ at "GET" (join g "/:id") (account_api get_account)
      ∷ at "GET" (join g "") (account_api get_accounts)
      ∷ at "PATCH" (join g "/:id") (account_api patch_account)
      ∷ at "DELETE" (join g "/:id") (account_api delete_account)
      ∷ []

  -- the routes of registerHTTP
  unfoldable pub register_http : (pprof_enabled swagger_enabled : Bool) → List Mount
  unfolding register_health register_metrics register_pprof register_swagger register_routes
  register_http pprof_enabled swagger_enabled =
      register_health
      ++ (register_metrics
          ++ ((if pprof_enabled then register_pprof else [])
              ++ ((if swagger_enabled then register_swagger else [])
                  ++ register_routes (join "/" "/api/v1"))))

-- what the checks of run call
pub record Backends (S : Type 0) : Type 1 where
  pub Db : Type 0
  -- Redis.Ping
  pub redis_ping : M S (Unit {0})
  -- GormDB.DB
  pub sql_db : M S Db
  pub ping_db : Db → M S (Unit {0})

abbrev pub Checks : Type 0 → Type 0
Checks S = List (String × M S (Unit {0}))

-- the checks of run, in one of the orders in which a map is ranged over
abbrev pub server_checks : {S : Type 0} → Backends S → Checks S
server_checks b = ("redis", b.redis_ping) ∷ ("postgres", (do db ← b.sql_db; b.ping_db db)) ∷ []

-- the calls of the checks
unfoldable pub run_checks : {S : Type 0} → Checks S → S → List (String × Result (Unit {0})) × S
run_checks [] s = ([], s)
run_checks ((name, check) ∷ rest) s =
    let (r, s1) = check s in let (results, s2) = run_checks rest s1 in ((name, r) ∷ results, s2)

module _ {C K S : Type 0} (lib : Library C) (request : Request C K) (values : Values K)
    (uc : AccountUseCase S) (checks : Checks S) (foreign : Endpoint → Handler C S) where
  -- the handlers that are mounted
  unfoldable pub serve_endpoint : Endpoint → Handler C S
  unfolding handle readiness run_checks
  serve_endpoint liveness_probe c s calls = ended (lib.gin.json 200 (status_body "ok") c) s calls
  serve_endpoint readiness_probe c s calls =
      let (results, s') = run_checks checks s in
      let report = readiness results in
      ended (lib.gin.json report.status (ready_body report.ready report.details) c) s' calls
  serve_endpoint (account_api route) c s calls =
      let (c', s') = handle lib uc route c s in ended c' s' calls
  serve_endpoint metrics_scrape c s calls = foreign metrics_scrape c s calls
  serve_endpoint (profiling name) c s calls = foreign (profiling name) c s calls
  serve_endpoint swagger_ui c s calls = foreign swagger_ui c s calls

  -- a request that Gin has routed, through the middleware of registerHTTP
  unfoldable pub serve_http :
      (uuid : String) (tracing : Handler C S → Handler C S) → Endpoint → Handler C S
  unfolding chain serve_endpoint
  serve_http uuid tracing endpoint =
      chain lib.gin request values uuid tracing (serve_endpoint endpoint)
