-- ===== src/Ginx.antt =====
-- internal/infra/ginx/middleware.go and internal/infra/correlation: the middleware of the HTTP
-- server, in the order in which internal/apps/server/server.go mounts it.
-- A handler takes the context, the state of the program and the calls that have been made of the
-- logger and of the metrics, the latest first; it ends or it panics. The context is a parameter;
-- uuid.NewString is an argument. Latencies are left out.
pub mod Ops
pub mod Contract
pub mod Chain
pub mod Observed
pub mod Served
pub mod Readiness
use go_clean_arch_template.Prelude.{
  ℕ, String, Bool, true, false, Option, none, some, List, [], ◌∷◌, ◌==◌, ◌||◌, ◌&&◌, if◌then◌else◌,
  leb, get_or,
}
use go_clean_arch_template.Prelude.Text.{byte_len, slice}
use go_clean_arch_template.Apperr.{Error}
use go_clean_arch_template.Http.{Gin, HttpError, Body, error_body, new_error, error_middleware}

-- the keys of opsPaths
abbrev pub ops_paths : List String
ops_paths = "/liveness" ∷ "/readiness" ∷ "/health" ∷ "/metrics" ∷ []

unfoldable pub is_key : String → List String → Bool
is_key path [] = false
is_key path (key ∷ rest) = key == path || is_key path rest

-- isOps
unfoldable pub is_ops : String → Bool
unfolding is_key
is_ops path =
    if is_key path ops_paths
    then true
    else leb 7 (byte_len path)
      && (slice path 0 7 == "/debug/" || leb 9 (byte_len path) && (slice path 0 9 == "/swagger/"))

-- correlation.HeaderKey
abbrev pub header_key : String
header_key = "X-Correlation-ID"

-- the values of a context.Context `K` under the key of the correlation id
pub record Values (K : Type 0) : Type 0 where
  pub value : K → Option String
  pub with_value : String → K → K

module _ {K : Type 0} (values : Values K) where
  -- `if id, ok := ...; ok && id != ""`
  abbrev pub ensured : (uuid : String) → K → Option String → K × String
  ensured uuid ctx none = (values.with_value uuid ctx, uuid)
  ensured uuid ctx (some id) = if id == "" then (values.with_value uuid ctx, uuid) else (ctx, id)

  -- correlation.Ensure
  unfoldable pub ensure : (uuid : String) → K → K × String
  ensure uuid ctx = ensured uuid ctx (values.value ctx)

  -- correlation.With
  unfoldable pub with_id : String → K → K
  with_id id ctx = if id == "" then ctx else values.with_value id ctx

  -- correlation.Get
  unfoldable pub get_id : K → String
  get_id ctx = get_or (values.value ctx) ""

-- what the middleware uses of *gin.Context beside what the handlers use
pub record Request (C K : Type 0) : Type 0 where
  pub method : C → String
  pub full_path : C → String
  pub get_header : String → C → String
  -- Request.Context()
  pub ctx : C → K
  -- Request.WithContext
  pub with_ctx : K → C → C
  -- Writer.Header().Set
  pub set_header : String → String → C → C
  -- Writer.Status
  pub written_status : C → ℕ
  -- AbortWithStatusJSON
  pub abort_json : ℕ → Body → C → C
  -- Abort
  pub abort : C → C

-- the attributes of the line that LoggerMiddleware logs
pub record Line : Type 0 where
  pub method : String
  pub path : String
  pub status : ℕ
  pub correlation_id : String

-- a call of the logger, or of metrics.ObserveHTTP
pub data Call : Type 0 where
  http_request : Line → Call
  panic_recovered : Call
  observe_http : (method path : String) (status : ℕ) → Call

-- A panic, as gin.CustomRecovery tells them apart: the error of a connection that the client has
-- left or of http.ErrAbortHandler, or any other value.
pub data Panic : Type 0 where
  lost_connection : Error → Panic
  raised : Panic

-- how a handler leaves the context, the state and the calls
pub data Ran (C S : Type 0) : Type 0 where
  ended : C → S → List Call → Ran C S
  panicked : Panic → C → S → List Call → Ran C S

abbrev pub Handler : Type 0 → Type 0 → Type 0
Handler C S = C → S → List Call → Ran C S

-- `c.Next()` and the code after it, which a panic skips
abbrev pub next_then : {C S : Type 0} → Ran C S → Handler C S → Ran C S
next_then (ended c s calls) after = after c s calls
next_then (panicked p c s calls) after = panicked p c s calls

-- ErrorMiddleware around the next handler
unfoldable pub errors_rendered : {C S : Type 0} → Gin C → Handler C S → Handler C S
unfolding error_middleware
errors_rendered gin next c s calls =
    next_then (next c s calls) (λ c' s' calls'. ended (error_middleware gin c') s' calls')

module _ {C K : Type 0} (gin : Gin C) (request : Request C K) (values : Values K) where
  -- the choice of the correlation id
  unfoldable pub chosen_id : (uuid : String) → C → K × String
  unfolding ensure with_id
  chosen_id uuid c =
      let id = request.get_header header_key c in
      if id == ""
      then ensure values uuid (request.ctx c)
      else (with_id values id (request.ctx c), id)

  -- the context that CorrelationMiddleware hands on
  unfoldable pub correlated : (uuid : String) → C → C
  unfolding chosen_id
  correlated uuid c =
      let (ctx, id) = chosen_id uuid c in request.set_header header_key id (request.with_ctx ctx c)

  -- the line that is logged
  abbrev pub line_of : C → Line
  line_of c = record {
    method = request.method c;
    path = request.full_path c;
    status = request.written_status c;
    correlation_id = get_id values (request.ctx c);
  }

  module _ {S : Type 0} where
    -- CorrelationMiddleware
    unfoldable pub correlation_middleware : (uuid : String) → Handler C S → Handler C S
    unfolding correlated
    correlation_middleware uuid next c s calls = next (correlated uuid c) s calls

    -- LoggerMiddleware
    unfoldable pub logger_middleware : Handler C S → Handler C S
    unfolding is_ops get_id
    logger_middleware next c s calls =
        if is_ops (request.full_path c)
        then next c s calls
        else next_then (next c s calls)
            (λ c' s' calls'. ended c' s' (http_request (line_of c') ∷ calls'))

    -- MetricsMiddleware
    unfoldable pub metrics_middleware : Handler C S → Handler C S
    unfolding is_ops
    metrics_middleware next c s calls =
        let path = request.full_path c in
        if path == "" || is_ops path
        then next c s calls
        else next_then (next c s calls) (λ c' s' calls'.
          ended c' s' (observe_http (request.method c') path (request.written_status c') ∷ calls'))

    -- what Recovery makes of what c.Next did; Gin does not call it for a connection that is lost
    unfoldable pub recover : Ran C S → Ran C S
    unfolding new_error
    recover (ended c s calls) = ended c s calls
    recover (panicked (lost_connection e) c s calls) = ended (request.abort (gin.error e c)) s calls
    recover (panicked raised c s calls) =
        let he = new_error none in
        ended (request.abort_json he.status (error_body he.body) c) s (panic_recovered ∷ calls)

    -- Recovery
    abbrev pub recovery : Handler C S → Handler C S
    recovery next c s calls = recover (next c s calls)

    -- the middleware of registerHTTP; `tracing` is otelgin's
    unfoldable pub chain :
        (uuid : String) (tracing : Handler C S → Handler C S) → Handler C S → Handler C S
    unfolding recover correlation_middleware logger_middleware metrics_middleware errors_rendered
    chain uuid tracing handler = recovery (
        correlation_middleware uuid
          (tracing (logger_middleware (metrics_middleware (errors_rendered gin handler)))))
