-- ===== src/Ginx/Contract.antt =====
-- What the middleware relies on of Gin, of context.Context and of otelgin's middleware.
use go_clean_arch_template.Prelude.{ℕ, String, false, ◌≡◌, some}
use go_clean_arch_template.Http.{Gin, Body}
use go_clean_arch_template.Http.Contract.{Reply}
use go_clean_arch_template.Ginx.{Values, Request, Ran, ended, panicked, Handler, header_key, get_id}

-- what stays of a request while it is handled; `echoed` is the correlation id in the reply's header
pub record Seen : Type 0 where
  pub method : String
  pub path : String
  pub correlation_id : String
  pub echoed : String

module _ {C K : Type 0} (request : Request C K) (values : Values K) (echoed : C → String) where
  abbrev pub seen : C → Seen
  seen c = record {
    method = request.method c;
    path = request.full_path c;
    correlation_id = get_id values (request.ctx c);
    echoed = echoed c;
  }

-- `reply` is what the client gets from a context.
pub record IsRequest {C K : Type 0} (gin : Gin C) (request : Request C K) (values : Values K)
    (reply : C → Reply) (echoed : C → String) : Type 0 where
  pub value-with_value : (id : String) (k : K) → values.value (values.with_value id k) ≡ some id
  pub ctx-with_ctx : (k : K) (c : C) → request.ctx (request.with_ctx k c) ≡ k
  pub method-with_ctx : (k : K) (c : C) → request.method (request.with_ctx k c) ≡ request.method c
  pub path-with_ctx :
      (k : K) (c : C) → request.full_path (request.with_ctx k c) ≡ request.full_path c
  pub ctx-set_header :
      (n v : String) (c : C) → request.ctx (request.set_header n v c) ≡ request.ctx c
  pub method-set_header :
      (n v : String) (c : C) → request.method (request.set_header n v c) ≡ request.method c
  pub path-set_header :
      (n v : String) (c : C) → request.full_path (request.set_header n v c) ≡ request.full_path c
  pub echoed-set_header : (v : String) (c : C) → echoed (request.set_header header_key v c) ≡ v
  pub seen-json :
      (n : ℕ) (b : Body) (c : C)
      → seen request values echoed (gin.json n b c) ≡ seen request values echoed c
  pub seen-abort_json :
      (n : ℕ) (b : Body) (c : C)
      → seen request values echoed (request.abort_json n b c) ≡ seen request values echoed c
  pub reply-abort_json :
      (n : ℕ) (b : Body) (c : C)
      → gin.written c ≡ false
      → reply (request.abort_json n b c) ≡ (n, some b)
  pub written_status-reply : (c : C) → request.written_status c ≡ (reply c).0

-- the code of a middleware after c.Next that runs in a `defer`
abbrev pub deferred : {C S : Type 0} → (C → C) → Ran C S → Ran C S
deferred leave (ended c s calls) = ended (leave c) s calls
deferred leave (panicked p c s calls) = panicked p (leave c) s calls

-- A middleware that only wraps a span around c.Next, in the context of the request.
pub record IsTracing {C K S : Type 0} (gin : Gin C) (request : Request C K) (values : Values K)
    (reply : C → Reply) (echoed : C → String) (tracing : Handler C S → Handler C S) : Type 0 where
  pub enter : C → C
  pub leave : C → C
  pub wraps :
      (h : Handler C S) (c : C) (s : S) (calls : _)
      → tracing h c s calls ≡ deferred leave (h (enter c) s calls)
  pub seen-enter : (c : C) → seen request values echoed (enter c) ≡ seen request values echoed c
  pub seen-leave : (c : C) → seen request values echoed (leave c) ≡ seen request values echoed c
  pub reply-leave : (c : C) → reply (leave c) ≡ reply c
  pub written-leave : (c : C) → gin.written (leave c) ≡ gin.written c
