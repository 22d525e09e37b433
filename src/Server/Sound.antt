-- ===== src/Server/Sound.antt =====
-- The stored accounts behind the API process, after any requests of either transport.
use go_clean_arch_template.Prelude.{ℕ, String, ◌≡◌, List, [], ◌∷◌}
use go_clean_arch_template.Prelude.Lists.{All, nil, cons}
use go_clean_arch_template.Effect.{Result}
use go_clean_arch_template.Domain.{Account}
use go_clean_arch_template.Ports.{AccountRepository, TxManager, RateLimiter, PasswordService}
use go_clean_arch_template.Ports.Contract.{Accounts, IsStore, IsRateLimiter}
use go_clean_arch_template.Cache.{LibCache}
use go_clean_arch_template.Cache.Contract.{Entries, IsCache}
use go_clean_arch_template.Cached.Stale.{cached_use_case}
use go_clean_arch_template.Cached.Store.{cached_repository-IsStore}
use go_clean_arch_template.Usecase.Disturbed.{disturbed, IsIsolated, IsShared}
use go_clean_arch_template.Usecase.Races.{serve_disturbed-IsSound}
use go_clean_arch_template.Usecase.Invariant.{IsSound}
use go_clean_arch_template.Ginx.Contract.{Seen}
use go_clean_arch_template.Ginx.{Call}
use go_clean_arch_template.Http.{Library, Route}
use go_clean_arch_template.Http.Contract.{Reply, IsFresh}
use go_clean_arch_template.Usecase.{AccountUseCase, Command, after, serve}
use go_clean_arch_template.Usecase.Inbound.{new_account_use_case}
use go_clean_arch_template.Ginx.{Values, Request, Ran, ended, panicked, Handler}
use go_clean_arch_template.Server.{Endpoint, account_api, Checks, serve_http}
use go_clean_arch_template.Server.Contract.{IsContext, IsTransparent}
use go_clean_arch_template.Grpc
use go_clean_arch_template.Server.Routes.{api_path}
use go_clean_arch_template.Server.States.{answer_state, rpc_state}
use go_clean_arch_template.Server.Api.{IsServed, served, api-IsServed}

-- an HTTP request, with the instant at which it is handled, and the ids that are new then
pub record Incoming (C : Type 0) : Type 0 where
  pub route : Route
  pub context : C
  pub correlation : String
  pub now : ℕ
  pub uuid : String

-- a request of either transport
pub data Inbound (C : Type 0) : Type 0 where
  http : Incoming C → Inbound C
  rpc : (now : ℕ) (uuid : String) → Grpc.Call → Inbound C

-- the state that is left
abbrev pub state_of : {C S : Type 0} → Ran C S → S
state_of (ended c s calls) = s
state_of (panicked p c s calls) = s

module _ {C K S : Type 0} (lib : Library C) (request : Request C K) (values : Values K)
    (rpcs : Grpc.Library) (uc : AccountUseCase S) (checks : Checks S)
    (foreign : Endpoint → Handler C S) (tracing : Handler C S → Handler C S) where
  -- a request through its server, with the use case at its instant
  abbrev pub serve_one : Inbound C → S → S
  serve_one (rpc now uuid call) s = (Grpc.serve rpcs (new_account_use_case uc now uuid) call s).1
  serve_one (http i) s = state_of (
      serve_http lib request values (new_account_use_case uc i.now i.uuid) checks foreign
        i.correlation tracing (account_api i.route) i.context s [])

  -- requests one after the other
  unfoldable pub serve_requests : List (Inbound C) → S → S
  unfolding serve_http Grpc.serve
  serve_requests [] s = s
  serve_requests (i ∷ rest) s = serve_requests rest (serve_one i s)

-- Gin has just taken an HTTP request, and it has matched the route.
pub data IsRouted {C K : Type 0} (lib : Library C) (request : Request C K)
    : Inbound C → Type 0 where
  routed :
      (i : Incoming C)
      → IsFresh lib.gin i.context
      → request.full_path i.context ≡ api_path i.route
      → IsRouted lib request (http i)
  called : (now : ℕ) (uuid : String) (call : Grpc.Call) → IsRouted lib request (rpc now uuid call)

module _ {C K S : Type 0} (lib : Library C) (request : Request C K) (values : Values K)
    (reply : C → Reply) (echoed : C → String) (laws : IsContext lib.gin request values reply echoed)
    (rpcs : Grpc.Library) (uc : AccountUseCase S) (checks : Checks S)
    (foreign : Endpoint → Handler C S) (tracing : Handler C S → Handler C S)
    (tr : IsTransparent lib.gin request values reply echoed tracing) where
  served_state :
      (P : S → Type 0) (r : Seen) (calls : List Call) (q : Result Reply × S) (ran : Ran C S)
      → IsServed lib request values reply echoed laws r calls q ran
      → P q.1
      → P (state_of ran)
  served_state P r calls q _ (served c' kept sent) h = h

  serve_one_state :
      (P : S → Type 0)
      → ((c : Command) (s : S) → P s → P (after uc c s))
      → (i : Inbound C) (s : S) → IsRouted lib request i
      → P s
      → P (serve_one lib request values rpcs uc checks foreign tracing i s)
  serve_one_state P step _ s (called now uuid call) h = rpc_state rpcs uc P step now uuid call s h
  serve_one_state P step _ s (routed i fresh matched) h =
      served_state P _ [] _ _
        (api-IsServed lib request values reply echoed laws (new_account_use_case uc i.now i.uuid)
          checks foreign tracing tr i.correlation i.route i.context s [] fresh matched)
        (answer_state lib uc P step i.now i.uuid i.route i.context s h)

  pub serve_requests_state :
      (P : S → Type 0)
      → ((c : Command) (s : S) → P s → P (after uc c s))
      → (l : List (Inbound C)) (s : S) → All (IsRouted lib request) l
      → P s
      → P (serve_requests lib request values rpcs uc checks foreign tracing l s)
  unfolding serve_requests
  serve_requests_state P step _ s nil h = h
  serve_requests_state P step _ s (cons i rest fits all) h =
      serve_requests_state P step rest _ all (serve_one_state P step i s fits h)

module _ {C K S : Type 0} (lib : Library C) (request : Request C K) (values : Values K)
    (reply : C → Reply) (echoed : C → String) (laws : IsContext lib.gin request values reply echoed)
    (rpcs : Grpc.Library) (checks : Checks S) (foreign : Endpoint → Handler C S)
    (tracing : Handler C S → Handler C S)
    (tr : IsTransparent lib.gin request values reply echoed tracing) where
  -- Any HTTP requests for routes of the API and any RPCs, one after the other through the middleware
  -- or the interceptors, the handlers, the use case and the cached repository, whichever calls fail
  -- and whatever the cache holds, and with other processes that keep sound accounts sound at work
  -- between any two calls of a port, leave sound accounts sound: each stands under its own id with a
  -- status from 1 to 4 and an email with an "@", and no two have one email. A rollback undoes only
  -- the process's own writes.
  pub serve_requests-IsSound :
      (inner : AccountRepository S) (cache : LibCache S Account) (ttl : ℕ) (view : S → Accounts)
      (entries : S → Entries Account) (repo : IsStore inner view)
      (cached : IsCache cache entries view) (tx : TxManager S) (limiter : RateLimiter S)
      (passwords : PasswordService) (others : S → S)
      → IsIsolated tx view others
      → IsRateLimiter limiter view
      → ((s : S) → IsSound (view s) → IsSound (view (others s)))
      → (l : List (Inbound C)) (s : S) → All (IsRouted lib request) l
      → IsSound (view s)
      → IsSound (
          view (
            serve_requests lib request values rpcs
              (disturbed others (cached_use_case inner cache ttl tx limiter passwords))
              checks
              foreign
              tracing
              l
              s))
  unfolding serve
  serve_requests-IsSound inner cache ttl view entries repo cached tx limiter passwords others
        isolated limits sane l s fits sound =
      let uc = cached_use_case inner cache ttl tx limiter passwords in
      let shared : IsShared uc view others = record {
        repo = cached_repository-IsStore inner cache ttl view entries repo cached;
        limiter = limits;
        tx = isolated;
        others_sound = sane;
      } in
      serve_requests_state lib request values reply echoed laws rpcs (disturbed others uc) checks
        foreign tracing tr (λ t. IsSound (view t))
        (λ c t h. serve_disturbed-IsSound uc view others shared (c ∷ []) t h) l s fits sound
