-- ===== src/Tests/Transports.antt =====
-- The theorem about the requests of both transports, from a stale cache on.
use go_clean_arch_template.Prelude.{List, [], ◌∷◌, refl, false}
use go_clean_arch_template.Effect.{ok}
use go_clean_arch_template.Prelude.Lists.{All, nil, cons}
use go_clean_arch_template.Http.{get_account}
use go_clean_arch_template.Grpc
use go_clean_arch_template.Ports.Contract.{IsRepository-IsStore}
use go_clean_arch_template.Gorm.Refines.{repository-IsRepository}
use go_clean_arch_template.Cached.Stale.{cached_use_case}
use go_clean_arch_template.Usecase.Invariant.{IsSound}
use go_clean_arch_template.Server.{server_checks}
use go_clean_arch_template.Server.Sound.{
  Inbound, http, rpc, IsRouted, routed, called, serve_requests, serve_requests-IsSound,
}
use go_clean_arch_template.Tests.World.{
  rows, entries, slot_db, map_cache, slot_tx, open_limiter, plain_passwords,
}
use go_clean_arch_template.Tests.Slot.{slot-IsGorm}
use go_clean_arch_template.Tests.Wiring.{stored, gorm_repo, map_cache-IsCache, service-IsWired}
use go_clean_arch_template.Tests.StaleCache.{stale_world, stale_world-IsSound}
use go_clean_arch_template.Tests.Server.{
  Context, server_request, values, reply_of, echo_of, span, incoming,
}
use go_clean_arch_template.Tests.Serving.{
  library, server-IsContext, span-IsTransparent, incoming-IsFresh, backends, foreign,
}
use go_clean_arch_template.Usecase.Disturbed.{disturbed}
use go_clean_arch_template.Tests.Racing.{others, slot_tx-IsIsolated, others-IsSound}

abbrev requests : List (Inbound Context)
requests =
    http
      (record { route = get_account; context = incoming; correlation = "u1"; now = 7; uuid = "b2" })
    ∷ rpc 8 "b3" (Grpc.delete_call "a1")
    ∷ []

requests-IsRouted : All (IsRouted library server_request) requests
requests-IsRouted =
    cons _ _ (routed _ incoming-IsFresh refl) (cons _ _ (called 8 "b3" (Grpc.delete_call "a1")) nil)

abbrev rpcs : Grpc.Library
rpcs = record { is_status = λ e. false; validate = λ call. ok tt }

serve_requests-IsSound_example : IsSound (
    stored (
      serve_requests library server_request values rpcs
        (disturbed others
          (cached_use_case gorm_repo map_cache 300 slot_tx open_limiter plain_passwords))
        (server_checks backends)
        foreign
        span
        requests
        stale_world))
serve_requests-IsSound_example =
    serve_requests-IsSound library server_request values reply_of echo_of server-IsContext rpcs
      (server_checks backends) foreign span span-IsTransparent gorm_repo map_cache 300 stored
      entries (IsRepository-IsStore (repository-IsRepository slot_db rows slot-IsGorm))
      map_cache-IsCache slot_tx open_limiter plain_passwords others slot_tx-IsIsolated
      service-IsWired.limiter (λ s h. others-IsSound s) requests stale_world requests-IsRouted
      stale_world-IsSound
