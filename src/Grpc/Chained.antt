-- ===== src/Grpc/Chained.antt =====
-- The interceptors of the server that registerGRPC builds, around the handlers.
use go_clean_arch_template.Prelude.{List, [], ◌∷◌, ◌≡◌, ap, ◌∙◌}
use go_clean_arch_template.Effect.{M}
use go_clean_arch_template.Ports.{AccountUseCase}
use go_clean_arch_template.Grpc.{
  Library, Call, Response, handle, error_interceptor, validation_interceptor, serve,
}
use go_clean_arch_template.Grpc.Options.{
  ServerOption, chain_unary_interceptor, stats_handler, new_server, server_options, configure,
}

-- a unary interceptor, by what it makes of a handler
abbrev pub Interceptor : Type 0 → Type 0
Interceptor S = (Call → M S Response) → Call → M S Response

-- interceptors around a handler, the first one outermost
unfoldable pub outermost_first : {S : Type 0} → List (Interceptor S) → Interceptor S
outermost_first [] h = h
outermost_first (i ∷ rest) h = i (outermost_first rest h)

-- What grpc.NewServer makes of its options: a stats handler leaves results and the state alone.
pub record IsServing {S H : Type 0}
    (intercept : List (ServerOption (Interceptor S) H) → Interceptor S) : Type 0 where
  pub none : (h : Call → M S Response) → intercept [] h ≡ h
  pub stats :
      (x : H) (rest : List (ServerOption (Interceptor S) H)) (h : Call → M S Response)
      → intercept (stats_handler x ∷ rest) h ≡ intercept rest h
  pub chained :
      (is : List (Interceptor S)) (rest : List (ServerOption (Interceptor S) H))
      (h : Call → M S Response)
      → intercept (chain_unary_interceptor is ∷ rest) h ≡ outermost_first is (intercept rest h)

module _ {S H : Type 0} (intercept : List (ServerOption (Interceptor S) H) → Interceptor S)
    (laws : IsServing intercept) (lib : Library) (uc : AccountUseCase S) (otel : H) where
  -- the error interceptor as one of a server
  abbrev pub errors_of : Interceptor S
  errors_of h c = error_interceptor lib (h c)

  -- The gRPC server that registerGRPC builds answers a call as the handlers do under the error
  -- interceptor, which is outermost, and the one for validation: as `serve`.
  pub new_server-serve :
      intercept
        (new_server (server_options otel errors_of (validation_interceptor lib))).options
        (handle uc)
      ≡ serve lib uc
  unfolding new_server serve configure outermost_first
  new_server-serve =
      laws.chained (errors_of ∷ validation_interceptor lib ∷ []) (stats_handler otel ∷ [])
        (handle uc)
      ∙ ap (λ h. errors_of (validation_interceptor lib h))
          (laws.stats otel [] (handle uc) ∙ laws.none (handle uc))
