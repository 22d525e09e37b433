-- ===== src/Tests/Calls.antt =====
-- The theorems about the gRPC adapter, at calls against the small world.
use go_clean_arch_template.Prelude.{Bool, true, false, none, [], ◌∷◌, ◌≡◌, refl, map, arith}
use go_clean_arch_template.Prelude.Int.{pos}
use go_clean_arch_template.Apperr.{Error, grpc_status, wrapped, app, sentinel, other}
use go_clean_arch_template.Effect.{ok}
use go_clean_arch_template.Domain.{valid}
use go_clean_arch_template.Ports.{AccountUseCase}
use go_clean_arch_template.Gorm
use go_clean_arch_template.Gorm.{to_domain}
use go_clean_arch_template.Usecase
use go_clean_arch_template.Usecase.Inbound.{new_account_use_case}
use go_clean_arch_template.Grpc.{
  Library, ListAccountsRequest, ListAccountsResponse, listed, list_accounts, get_call, serve,
}
use go_clean_arch_template.Grpc.Wire.{
  AllValid, list_accounts-read_account, read_account, wire_fields,
}
use go_clean_arch_template.Grpc.Errors.{hiding, serve-hiding}
use go_clean_arch_template.Prelude.{List, String}
use go_clean_arch_template.Grpc.{handle, validation_interceptor}
use go_clean_arch_template.Grpc.Options.{
  ServerOption, stats_handler, chain_unary_interceptor, new_server, server_options,
}
use go_clean_arch_template.Grpc.Chained.{
  Interceptor, outermost_first, IsServing, errors_of, new_server-serve,
}
use go_clean_arch_template.Tests.World.{World, jane_world, jane_row}
use go_clean_arch_template.Tests.Wiring.{service}

abbrev uc : AccountUseCase World
uc = new_account_use_case service 9 "b2"

abbrev has_status : Error → Bool
has_status (grpc_status c m) = true
has_status (wrapped t e) = has_status e
has_status (app a) = false
has_status (sentinel n) = false
has_status (other k t) = false

abbrev library : Library
library = record { is_status = has_status; validate = λ call. ok tt }

serve-hiding_example :
    serve library (hiding library uc) (get_call "a1") jane_world
    ≡ serve library uc (get_call "a1") jane_world
serve-hiding_example = serve-hiding library refl uc (get_call "a1") jane_world

abbrev everything : ListAccountsRequest
everything = record { status = none; limit = pos 10; offset = pos 0 }

jane_listed :
    (uc.list (record { status = none; limit = pos 10; offset = pos 0 }) jane_world).0
    ≡ ok (to_domain jane_row ∷ [], pos 1)
unfolding Usecase.list Gorm.list
jane_listed = refl

jane_valid : AllValid (to_domain jane_row ∷ [])
unfolding valid to_domain
jane_valid = (refl, tt)

list_accounts-read_account_example :
    (resp : ListAccountsResponse) × ((list_accounts uc everything jane_world).0 ≡ ok (listed resp))
    × (resp.total ≡ pos 1)
    × (map read_account resp.accounts ≡ map wire_fields (to_domain jane_row ∷ []))
list_accounts-read_account_example =
    list_accounts-read_account uc everything jane_world (to_domain jane_row ∷ []) 1 jane_listed
      (omega arith) jane_valid

-- a server that only chains
abbrev intercept : List (ServerOption (Interceptor World) String) → Interceptor World
intercept [] h = h
intercept (stats_handler x ∷ rest) h = intercept rest h
intercept (chain_unary_interceptor is ∷ rest) h = outermost_first is (intercept rest h)

intercept-IsServing : IsServing intercept
intercept-IsServing = record {
  none = λ h. refl;
  stats = λ x rest h. refl;
  chained = λ is rest h. refl;
}

new_server-serve_example :
    intercept
      (new_server (
        server_options "otelgrpc"
          (errors_of intercept intercept-IsServing library uc "otelgrpc")
          (validation_interceptor library))).options
      (handle uc)
    ≡ serve library uc
new_server-serve_example = new_server-serve intercept intercept-IsServing library uc "otelgrpc"
