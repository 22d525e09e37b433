-- ===== src/Server/Routes.antt =====
-- The routes that registerHTTP mounts: their paths, and which of them are left out of the request
-- log and of the metrics.
use go_clean_arch_template.Prelude.{
  String, Bool, true, false, not, ◌≡◌, refl, sym, ap, ◌∙◌, List, [], ◌∷◌, ◌++◌, ◌==◌, ◌&&◌, ◌||◌,
  if◌then◌else◌, false≢true, Bool-cases, inl, inr,
}
use go_clean_arch_template.Prelude.Text.{◌^^◌, contains_code}
use go_clean_arch_template.Prelude.Lists.{All, nil, cons}
use go_clean_arch_template.Http.{
  Route, post_accounts, get_account, get_accounts, patch_account, delete_account,
}
use go_clean_arch_template.Ginx.{is_ops, is_key}
use go_clean_arch_template.Server.{
  profiling, account_api, liveness_probe, readiness_probe, metrics_scrape, swagger_ui, Mount, at,
  register_health, register_metrics, register_pprof, register_swagger, register_routes,
  register_http,
}

-- the name of a segment of a path, which cleaning a path leaves alone
abbrev pub is_plain : String → Bool
is_plain name = not (name == "" || contains_code b'/' name || contains_code b'.' name)

-- a path of such segments
pub data IsClean : String → Type 0 where
  segment : (name : String) → is_plain name ≡ true → IsClean ("/" ^^ name)
  under :
      (base name : String) → IsClean base → is_plain name ≡ true → IsClean (base ^^ ("/" ^^ name))

-- How Gin joins the path of a group and a relative one.
pub record IsJoin (join : String → String → String) : Type 0 where
  pub join-root : (path : String) → IsClean path → join "/" path ≡ path
  pub join-none : (base : String) → IsClean base → join base "" ≡ base
  pub join-slash : (base : String) → IsClean base → join base "/" ≡ base ^^ "/"
  pub join-segment :
      (base name : String)
      → IsClean base
      → is_plain name ≡ true
      → join base ("/" ^^ name) ≡ base ^^ ("/" ^^ name)

-- the path of each route of the API
abbrev pub api_path : Route → String
api_path post_accounts = "/api/v1/accounts"
api_path get_accounts = "/api/v1/accounts"
api_path get_account = "/api/v1/accounts/:id"
api_path patch_account = "/api/v1/accounts/:id"
api_path delete_account = "/api/v1/accounts/:id"

-- the method of each route of the API
abbrev pub api_method : Route → String
api_method post_accounts = "POST"
api_method get_accounts = "GET"
api_method get_account = "GET"
api_method patch_account = "PATCH"
api_method delete_account = "DELETE"

abbrev same_place : Mount → Mount → Bool
same_place m n = m.method == n.method && m.path == n.path

-- another handler is mounted at the place of this one
unfoldable pub is_taken : Mount → List Mount → Bool
is_taken m [] = false
is_taken m (n ∷ rest) = same_place m n || is_taken m rest

unfoldable pub distinct : List Mount → Bool
unfolding is_taken
distinct [] = true
distinct (m ∷ rest) = not (is_taken m rest) && distinct rest

pprof_mounts : List Mount
pprof_mounts =
    at "GET" "/debug/pprof/" (profiling "Index")
    ∷ at "GET" "/debug/pprof/cmdline" (profiling "Cmdline")
    ∷ at "GET" "/debug/pprof/profile" (profiling "Profile")
    ∷ at "GET" "/debug/pprof/symbol" (profiling "Symbol")
    ∷ at "POST" "/debug/pprof/symbol" (profiling "Symbol")
    ∷ at "GET" "/debug/pprof/trace" (profiling "Trace")
    ∷ at "GET" "/debug/pprof/:profile" (profiling "Index")
    ∷ []

unfoldable pub api_mount : Route → Mount
api_mount route = at (api_method route) (api_path route) (account_api route)

unfoldable pub api_mounts : List Mount
unfolding api_mount
api_mounts =
    api_mount post_accounts
    ∷ api_mount get_account
    ∷ api_mount get_accounts
    ∷ api_mount patch_account
    ∷ api_mount delete_account
    ∷ []

probe_mounts : List Mount
probe_mounts =
    at "GET" "/liveness" liveness_probe
    ∷ at "GET" "/health" liveness_probe
    ∷ at "GET" "/readiness" readiness_probe
    ∷ at "GET" "/metrics" metrics_scrape
    ∷ []

swagger_mounts : List Mount
swagger_mounts = at "GET" "/swagger/*any" swagger_ui ∷ []

-- The operational mounts: the probes and the metrics always, the profiles of net/http/pprof and
-- Swagger only if they are enabled.
pub operations_of : (pprof_enabled swagger_enabled : Bool) → List Mount
unfolding probe_mounts pprof_mounts swagger_mounts
operations_of pprof_enabled swagger_enabled =
    probe_mounts
    ++ ((if pprof_enabled then pprof_mounts else [])
        ++ (if swagger_enabled then swagger_mounts else []))

-- The mounts of the HTTP server: the operational ones for the two flags, then each route of the API,
-- which none of them hides.
pub record IsTable (pprof_enabled swagger_enabled : Bool) (mounts : List Mount) : Type 0 where
  pub split : mounts ≡ operations_of pprof_enabled swagger_enabled ++ api_mounts
  pub operational : All (λ m. is_ops m.path ≡ true) (operations_of pprof_enabled swagger_enabled)
  pub served : (route : Route) → is_ops (api_path route) ≡ false
  pub each_once : distinct mounts ≡ true

all_ops : List Mount → Bool
all_ops [] = true
all_ops (m ∷ rest) = is_ops m.path && all_ops rest

all_ops_lem : (l : List Mount) → all_ops l ≡ true → All (λ m. is_ops m.path ≡ true) l
unfolding all_ops
all_ops_lem [] h = nil
all_ops_lem (m ∷ rest) h = elim (Bool-cases (is_ops m.path)) [
  | inl held ↦ cons m rest held (all_ops_lem rest (sym (rw held refl) ∙ h))
  | inr failed ↦ absurd (false≢true (sym (rw failed refl) ∙ h))
]

pub api_path-is_ops : (route : Route) → is_ops (api_path route) ≡ false
unfolding is_ops is_key
api_path-is_ops post_accounts = refl
api_path-is_ops get_accounts = refl
api_path-is_ops get_account = refl
api_path-is_ops patch_account = refl
api_path-is_ops delete_account = refl

module _ (join : String → String → String) (laws : IsJoin join) where
  debug_pprof : IsClean "/debug/pprof"
  unfolding contains_code
  debug_pprof = under "/debug" "pprof" (segment "debug" refl) refl

  api_v1 : IsClean "/api/v1"
  unfolding contains_code
  api_v1 = under "/api" "v1" (segment "api" refl) refl

  accounts : IsClean "/api/v1/accounts"
  unfolding contains_code
  accounts = under "/api/v1" "accounts" api_v1 refl

  register_pprof_lem : register_pprof join ≡ pprof_mounts
  unfolding register_pprof pprof_mounts contains_code
  register_pprof_lem =
      rw
        (
          laws.join-root "/debug/pprof" debug_pprof,
          laws.join-slash "/debug/pprof" debug_pprof,
          laws.join-segment "/debug/pprof" "cmdline" debug_pprof refl,
          laws.join-segment "/debug/pprof" "profile" debug_pprof refl,
          laws.join-segment "/debug/pprof" "symbol" debug_pprof refl,
          laws.join-segment "/debug/pprof" "trace" debug_pprof refl,
          laws.join-segment "/debug/pprof" ":profile" debug_pprof refl,
        )
        refl

  register_routes_lem : register_routes join (join "/" "/api/v1") ≡ api_mounts
  unfolding register_routes api_mounts api_mount contains_code
  register_routes_lem =
      rw
        (
          laws.join-root "/api/v1" api_v1,
          laws.join-segment "/api/v1" "accounts" api_v1 refl,
          laws.join-none "/api/v1/accounts" accounts,
          laws.join-segment "/api/v1/accounts" ":id" accounts refl,
        )
        refl

  -- the body of registerHTTP, over what the two groups mount
  abbrev table : (p w : Bool) (profiles routes : List Mount) → List Mount
  table p w profiles routes =
      register_health
      ++ (register_metrics
          ++ ((if p then profiles else []) ++ ((if w then register_swagger else []) ++ routes)))

  table_split : (p w : Bool) → table p w pprof_mounts api_mounts ≡ operations_of p w ++ api_mounts
  unfolding operations_of register_health register_metrics register_swagger pprof_mounts
      probe_mounts swagger_mounts
  table_split true true = refl
  table_split true false = refl
  table_split false true = refl
  table_split false false = refl

  register_http_lem : (p w : Bool) → register_http join p w ≡ operations_of p w ++ api_mounts
  unfolding register_http
  register_http_lem p w =
      ap (λ x. table p w x (register_routes join (join "/" "/api/v1"))) register_pprof_lem
      ∙ ap (table p w pprof_mounts) register_routes_lem
      ∙ table_split p w

  table-distinct : (p w : Bool) → distinct (operations_of p w ++ api_mounts) ≡ true
  unfolding distinct operations_of api_mounts probe_mounts swagger_mounts pprof_mounts api_mount
  table-distinct true true = refl
  table-distinct true false = refl
  table-distinct false true = refl
  table-distinct false false = refl

  operations_of-operational : (p w : Bool) → All (λ m. is_ops m.path ≡ true) (operations_of p w)
  unfolding all_ops operations_of is_ops is_key probe_mounts swagger_mounts pprof_mounts
  operations_of-operational p w = all_ops_lem (operations_of p w) (every p w)
    where
      every : (p w : Bool) → all_ops (operations_of p w) ≡ true
      every true true = refl
      every true false = refl
      every false true = refl
      every false false = refl

  -- registerHTTP mounts the two liveness probes, the readiness probe and the metrics, the profiles if
  -- and only if profiling is enabled, Swagger if and only if it is enabled, all at paths that isOps
  -- holds of, and then each route of the API under /api/v1/accounts, at a path that it does not
  -- hold of; it mounts nothing else, and no two handlers have the same method and path.
  pub register_http-IsTable :
      (pprof_enabled swagger_enabled : Bool)
      → IsTable pprof_enabled swagger_enabled (register_http join pprof_enabled swagger_enabled)
  register_http-IsTable p w = record {
    split = register_http_lem p w;
    operational = operations_of-operational p w;
    served = api_path-is_ops;
    each_once = ap distinct (register_http_lem p w) ∙ table-distinct p w;
  }
