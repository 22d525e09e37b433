-- ===== src/Grpc/Options.antt =====
-- internal/infra/grpcserver/server.go: the options of New, with the ones that registerGRPC of
-- internal/apps/server/server.go passes. `I` are the unary interceptors, `H` the stats handlers.
use go_clean_arch_template.Prelude.{Bool, true, false, List, [], ◌∷◌, ◌++◌, map}

-- config
pub record GrpcConfig (I H : Type 0) : Type 0 where
  pub unary : List I
  pub stats : List H
  pub reflection : Bool

-- what grpc.NewServer is given
pub data ServerOption (I H : Type 0) : Type 0 where
  chain_unary_interceptor : List I → ServerOption I H
  stats_handler : H → ServerOption I H

-- what New builds; the health service is always registered
pub record Built (I H : Type 0) : Type 0 where
  pub options : List (ServerOption I H)
  pub reflection : Bool

-- Option
abbrev pub GrpcOption : Type 0 → Type 0 → Type 0
GrpcOption I H = GrpcConfig I H → GrpcConfig I H

module _ {I H : Type 0} where
  -- WithUnaryInterceptors
  abbrev pub with_unary_interceptors : List I → GrpcOption I H
  with_unary_interceptors i c = record c { unary = c.unary ++ i }

  -- WithStatsHandler
  abbrev pub with_stats_handler : H → GrpcOption I H
  with_stats_handler h c = record c { stats = c.stats ++ (h ∷ []) }

  -- WithReflection
  abbrev pub with_reflection : GrpcOption I H
  with_reflection c = record c { reflection = true }

  -- the loop over the options
  unfoldable pub configure : List (GrpcOption I H) → GrpcConfig I H → GrpcConfig I H
  configure [] c = c
  configure (opt ∷ rest) c = configure rest (opt c)

  -- `if len(c.unary) > 0`
  abbrev pub unary_options : List I → List (ServerOption I H)
  unary_options [] = []
  unary_options (i ∷ rest) = chain_unary_interceptor (i ∷ rest) ∷ []

  -- New
  unfoldable pub new_server : List (GrpcOption I H) → Built I H
  unfolding configure
  new_server opts =
      let c = configure opts (record { unary = []; stats = []; reflection = false }) in
      record {
        options = unary_options c.unary ++ map stats_handler c.stats;
        reflection = c.reflection;
      }

  -- the options of registerGRPC
  abbrev pub server_options : (otel : H) (errors validation : I) → List (GrpcOption I H)
  server_options otel errors validation =
      with_reflection
      ∷ with_stats_handler otel
      ∷ with_unary_interceptors (errors ∷ validation ∷ [])
      ∷ []
