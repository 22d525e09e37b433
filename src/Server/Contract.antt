-- ===== src/Server/Contract.antt =====
-- What a request through the server relies on of Gin's context beside Http.Contract and
-- Ginx.Contract: the middleware leaves what the handlers read alone, and the handlers what the
-- middleware reads.
use go_clean_arch_template.Prelude.{ℕ, String, Bool, Option, ◌≡◌}
use go_clean_arch_template.Apperr.{Error}
use go_clean_arch_template.Effect.{Result}
use go_clean_arch_template.Http.{Gin, CreateAccountRequest, UpdateAccountRequest}
use go_clean_arch_template.Http.Contract.{Reply, IsGin}
use go_clean_arch_template.Ginx.{Values, Request, Handler}
use go_clean_arch_template.Ginx.Contract.{seen, IsRequest, IsTracing}

-- what a handler reads of a request, and whether one has replied or failed already
pub record Asked : Type 0 where
  pub create : Result CreateAccountRequest
  pub update : Result UpdateAccountRequest
  pub param : String → String
  pub query : String → String
  pub last_error : Option Error
  pub written : Bool

abbrev pub asked : {C : Type 0} → Gin C → C → Asked
asked gin c = record {
  create = gin.bind_create c;
  update = gin.bind_update c;
  param = λ name. gin.param name c;
  query = λ name. gin.query name c;
  last_error = gin.last_error c;
  written = gin.written c;
}

pub record IsContext {C K : Type 0} (gin : Gin C) (request : Request C K) (values : Values K)
    (reply : C → Reply) (echoed : C → String) : Type 0 where
  pub replies : IsGin gin reply
  pub requests : IsRequest gin request values reply echoed
  pub seen-error :
      (e : Error) (c : C)
      → seen request values echoed (gin.error e c) ≡ seen request values echoed c
  pub seen-status :
      (n : ℕ) (c : C) → seen request values echoed (gin.status n c) ≡ seen request values echoed c
  pub asked-with_ctx : (k : K) (c : C) → asked gin (request.with_ctx k c) ≡ asked gin c
  pub asked-set_header : (n v : String) (c : C) → asked gin (request.set_header n v c) ≡ asked gin c

-- a tracing middleware that leaves what the handlers read alone
pub record IsTransparent {C K S : Type 0} (gin : Gin C) (request : Request C K) (values : Values K)
    (reply : C → Reply) (echoed : C → String) (tracing : Handler C S → Handler C S) : Type 0 where
  pub spans : IsTracing gin request values reply echoed tracing
  pub asked-enter : (c : C) → asked gin (spans.enter c) ≡ asked gin c
