-- ===== src/Tests/Serving.antt =====
-- The theorems about the whole server, at requests of a small context.
use text.Mathlib.TextLemmas.{append-nil}
use text.Mathlib.TextPositions.{len-append, slice_all, slice-zero-zero}
use go_clean_arch_template.Prelude.{
  Bool, if◌then◌else◌, ℕ, ◌≤◌, String, true, false, Option, none, some, List, [], ◌≡◌, refl, sym,
  ap, ◌∙◌, arith, nat_eq, if◌then◌else◌, ◌↔◌, false≢true, Bool-cases, inl, inr, leb,
}
use go_clean_arch_template.Prelude.Text.{◌^^◌, byte_len, slice}
use go_clean_arch_template.Prelude.Decimal.{decimal}
use go_clean_arch_template.Apperr.{other}
use go_clean_arch_template.Effect.{pure, fail}
use go_clean_arch_template.Ports.{AccountUseCase}
use go_clean_arch_template.Http.{Library, Body, get_account, ready_body}
use go_clean_arch_template.Http.Contract.{Reply, IsGin, IsFresh, answer}
use go_clean_arch_template.Ginx.Observed.{arrived}
use go_clean_arch_template.Ginx.Readiness.{readiness}
use go_clean_arch_template.Server.Checked.{Probed, Passing}
use go_clean_arch_template.Server.{
  Endpoint, account_api, readiness_probe, Backends, server_checks, run_checks, serve_http,
  register_http,
}
use go_clean_arch_template.Server.Contract.{IsContext, IsTransparent}
use go_clean_arch_template.Server.Routes.{
  IsJoin, IsClean, segment, under, IsTable, register_http-IsTable, is_plain,
}
use go_clean_arch_template.Server.Api.{IsServed, api-IsServed}
use go_clean_arch_template.Server.Probes.{IsProbed, readiness-IsProbed}
use go_clean_arch_template.Usecase.Inbound.{new_account_use_case}
use go_clean_arch_template.Ginx.{Handler, ended}
use go_clean_arch_template.Tests.World.{World, jane_world}
use go_clean_arch_template.Tests.Wiring.{service}
use go_clean_arch_template.Tests.Server.{
  Context, server_gin, values, server_request, reply_of, echo_of, server-IsRequest, span,
  span-IsTracing, incoming, is_some,
}

abbrev join : String → String → String
join base relative = if nat_eq (byte_len base) 1 then relative else base ^^ relative

empty : (name : String) → byte_len name ≡ 0 → name ≡ ""
empty name h = sym (slice_all name) ∙ ap (λ k. slice name 0 k) h ∙ slice-zero-zero name

plain_len : (name : String) → is_plain name ≡ true → 1 ≤ byte_len name
plain_len name h = elim (Bool-cases (leb 1 (byte_len name))) [
  | inl long ↦ ground arith
  | inr short ↦ absurd (false≢true (sym (ap is_plain (empty name (ground arith))) ∙ h))
]

clean_len : (path : String) → IsClean path → 2 ≤ byte_len path
clean_len _ (segment name h) = let l = plain_len name h in rw (len-append "/" name) (omega arith)
clean_len _ (under base name clean h) =
    let l = plain_len name h in
    rw (len-append base ("/" ^^ name), len-append "/" name) (omega arith)

joined : (base relative : String) → IsClean base → join base relative ≡ base ^^ relative
joined base relative clean = let l = clean_len base clean in ground arith

join-IsJoin : IsJoin join
join-IsJoin = record {
  join-root = λ path clean. refl;
  join-none = λ base clean. joined base "" clean ∙ append-nil base;
  join-slash = λ base clean. joined base "/" clean;
  join-segment = λ base name clean plain. joined base ("/" ^^ name) clean;
}

register_http-IsTable_example : IsTable true false (register_http join true false)
register_http-IsTable_example = register_http-IsTable join join-IsJoin true false

abbrev pub library : Library Context
library = record { gin = server_gin; format_time = λ z t. decimal t; atoi_error = other "num" }

server-IsGin : IsGin server_gin reply_of
server-IsGin = record {
  last_error-error = λ e c. refl;
  written-error = λ e c. refl;
  last_error-json = λ n b c. refl;
  reply-json = λ n b c h. refl;
  last_error-status = λ n c. refl;
  reply-status = λ n c h. unwritten n c.body h;
}
  where
    unwritten : (n : ℕ) (b : Option Body) → is_some b ≡ false → ◌≡◌ {A = Reply} (n, b) (n, none)
    unwritten n none h = refl
    unwritten n (some b) h = cc

pub server-IsContext : IsContext server_gin server_request values reply_of echo_of
server-IsContext = record {
  replies = server-IsGin;
  requests = server-IsRequest;
  seen-error = λ e c. refl;
  seen-status = λ n c. refl;
  asked-with_ctx = λ k c. refl;
  asked-set_header = λ n v c. ground arith;
}

pub span-IsTransparent :
    {S : Type 0} → IsTransparent server_gin server_request values reply_of echo_of (span {S = S})
span-IsTransparent = record { spans = span-IsTracing; asked-enter = λ c. refl }

pub incoming-IsFresh : IsFresh server_gin incoming
incoming-IsFresh = record { no_error = refl; not_written = refl }

abbrev uc : AccountUseCase World
uc = new_account_use_case service 9 "b2"

-- Redis does not answer
abbrev pub backends : Backends World
backends = record {
  Db = ℕ;
  redis_ping = fail (other "net" "refused");
  sql_db = pure 0;
  ping_db = λ db. pure tt;
}

abbrev pub foreign : Endpoint → Handler Context World
foreign e c s calls = ended c s calls

api-IsServed_example :
    IsServed library server_request values reply_of echo_of server-IsContext
      (arrived server_gin server_request values reply_of echo_of server-IsRequest "u1" incoming)
      []
      (answer library uc get_account incoming jane_world)
      (serve_http library server_request values uc
        (server_checks backends)
        foreign
        "u1"
        span
        (account_api get_account)
        incoming
        jane_world
        [])
api-IsServed_example =
    api-IsServed library server_request values reply_of echo_of server-IsContext uc
      (server_checks backends) foreign span span-IsTransparent "u1" get_account incoming jane_world
      [] incoming-IsFresh refl

abbrev probe : Context
probe = record incoming { path = "/readiness" }

probe-IsFresh : IsFresh server_gin probe
probe-IsFresh = record { no_error = refl; not_written = refl }

readiness-IsProbed_example :
    (out : Bool × List (String × String)) × (t : World) × Probed
      (server_checks backends)
      jane_world
      true
      []
      out
      t
    × IsProbed library server_request values reply_of echo_of server-IsContext
        (arrived server_gin server_request values reply_of echo_of server-IsRequest "u1" probe)
        []
        (if out.0 then 200 else 503)
        (ready_body out.0 out.1)
        t
        (serve_http library server_request values uc
          (server_checks backends)
          foreign
          "u1"
          span
          readiness_probe
          probe
          jane_world
          [])
    × ((out.0 ≡ true) ↔ Passing (server_checks backends) jane_world)
readiness-IsProbed_example =
    readiness-IsProbed library server_request values reply_of echo_of server-IsContext uc
      (server_checks backends) foreign span span-IsTransparent "u1" probe jane_world []
      probe-IsFresh refl

status_test : (readiness (run_checks (server_checks backends) jane_world).0).status ≡ 503
unfolding readiness run_checks
status_test = refl
