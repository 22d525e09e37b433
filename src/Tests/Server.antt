-- ===== src/Tests/Server.antt =====
-- The theorems about the middleware, at a request for an account.
use go_clean_arch_template.Prelude.{
  ℕ, ◌+◌, String, Bool, true, false, Option, none, some, [], refl, arith, ◌==◌, if◌then◌else◌,
}
use go_clean_arch_template.Apperr.{Error, other}
use go_clean_arch_template.Effect.{err}
use go_clean_arch_template.Http.{Gin, Body, error_middleware}
use go_clean_arch_template.Http.Contract.{Reply}
use go_clean_arch_template.Ginx.{
  Values, Request, ended, panicked, raised, Handler, header_key, chain, correlated,
}
use go_clean_arch_template.Ginx.Contract.{IsRequest, IsTracing, deferred}
use go_clean_arch_template.Ginx.Observed.{Answered, Recovered, arrived}
use go_clean_arch_template.Ginx.Served.{chain-Answered, chain-Recovered}

pub record Context : Type 0 where
  pub path : String
  pub header : String
  pub own : Option String
  pub echoed : String
  pub errors : Option Error
  pub status : ℕ
  pub body : Option Body

abbrev pub is_some : Option Body → Bool
is_some none = false
is_some (some b) = true

abbrev pub server_gin : Gin Context
server_gin = record {
  bind_create = λ c. err (other "json" "EOF");
  bind_update = λ c. err (other "json" "EOF");
  param = λ name c. "a1";
  query = λ name c. "";
  error = λ e c. record c { errors = some e };
  json = λ n b c. record c { status = n; body = some b };
  status = λ n c. record c { status = n };
  last_error = λ c. c.errors;
  written = λ c. is_some c.body;
}

abbrev pub values : Values (Option String)
values = record { value = λ k. k; with_value = λ id k. some id }

abbrev set_echo : String → String → Context → Context
set_echo n v c = if n == header_key then record c { echoed = v } else c

abbrev pub server_request : Request Context (Option String)
server_request = record {
  method = λ c. "GET";
  full_path = λ c. c.path;
  get_header = λ n c. c.header;
  ctx = λ c. c.own;
  with_ctx = λ k c. record c { own = k };
  set_header = set_echo;
  written_status = λ c. c.status;
  abort_json = λ n b c. record c { status = n; body = some b };
  abort = λ c. c;
}

abbrev pub reply_of : Context → Reply
reply_of c = (c.status, c.body)

abbrev pub echo_of : Context → String
echo_of c = c.echoed

pub server-IsRequest : IsRequest server_gin server_request values reply_of echo_of
server-IsRequest = record {
  value-with_value = λ id k. refl;
  ctx-with_ctx = λ k c. refl;
  method-with_ctx = λ k c. refl;
  path-with_ctx = λ k c. refl;
  ctx-set_header = λ n v c. ground arith;
  method-set_header = λ n v c. refl;
  path-set_header = λ n v c. ground arith;
  echoed-set_header = λ v c. refl;
  seen-json = λ n b c. refl;
  seen-abort_json = λ n b c. refl;
  reply-abort_json = λ n b c h. refl;
  written_status-reply = λ c. refl;
}

abbrev pub span : {S : Type 0} → Handler Context S → Handler Context S
span h c s calls = deferred (λ d. d) (h c s calls)

abbrev pub span-IsTracing :
    {S : Type 0} → IsTracing server_gin server_request values reply_of echo_of (span {S = S})
span-IsTracing = record {
  enter = λ c. c;
  leave = λ c. c;
  wraps = λ h c s calls. refl;
  seen-enter = λ c. refl;
  seen-leave = λ c. refl;
  reply-leave = λ c. refl;
  written-leave = λ c. refl;
}

abbrev pub incoming : Context
incoming = record {
  path = "/api/v1/accounts/:id";
  header = "";
  own = none;
  echoed = "";
  errors = none;
  status = 200;
  body = none;
}

-- a handler that fails with an error, and one that panics
abbrev fails : Handler Context ℕ
fails c n calls = ended (server_gin.error (other "db" "down") c) (n + 1) calls

abbrev breaks : Handler Context ℕ
breaks c n calls = panicked raised c (n + 1) calls

abbrev entered : Context
entered = record incoming { own = some "u1"; echoed = "u1" }

chain-Answered_example :
    Answered server_gin server_request values reply_of echo_of server-IsRequest
      (arrived server_gin server_request values reply_of echo_of server-IsRequest "u1" incoming)
      (error_middleware server_gin (server_gin.error (other "db" "down") entered))
      1
      []
      (chain server_gin server_request values "u1" span fails incoming 0 [])
unfolding correlated
chain-Answered_example =
    chain-Answered server_gin server_request values reply_of echo_of server-IsRequest span
      span-IsTracing "u1" fails incoming 0 1 _ [] [] refl refl

chain-Recovered_example :
    Recovered server_gin server_request values reply_of echo_of server-IsRequest
      (arrived server_gin server_request values reply_of echo_of server-IsRequest "u1" incoming)
      1
      []
      (chain server_gin server_request values "u1" span breaks incoming 0 [])
unfolding correlated
chain-Recovered_example =
    chain-Recovered server_gin server_request values reply_of echo_of server-IsRequest span
      span-IsTracing "u1" breaks incoming 0 1 entered [] [] refl refl refl
