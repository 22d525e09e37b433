-- ===== src/Http/Contract.antt =====
-- What the HTTP adapter relies on of Gin's context, and what a route's reply is by the use case.
use go_clean_arch_template.Prelude.{ℕ, false, Option, none, some, ◌≡◌, map}
use go_clean_arch_template.Prelude.Int.{pos}
use go_clean_arch_template.Apperr.{Error, with_cause}
use go_clean_arch_template.Effect.{Result, ok, err, M, pure, lift, map_err, ◌>>=◌, ◌>>◌}
use go_clean_arch_template.Ports.{AccountUseCase}
use go_clean_arch_template.Http.{
  Gin, Library, invalid_body, Body, account_body, accounts_body, error_body, HttpError, Route,
  post_accounts, get_account, get_accounts, patch_account, delete_account, create_to_domain,
  update_to_domain, from_domain, utc, stored_location, status_filter, new_error,
}
use go_clean_arch_template.Http.Atoi.{atoi_default}

-- a status and a body, none for a reply without one
abbrev pub Reply : Type 0
Reply = ℕ × Option Body

-- `reply` is what the client gets from a context.
pub record IsGin {C : Type 0} (gin : Gin C) (reply : C → Reply) : Type 0 where
  pub last_error-error : (e : Error) (c : C) → gin.last_error (gin.error e c) ≡ some e
  pub written-error : (e : Error) (c : C) → gin.written (gin.error e c) ≡ gin.written c
  pub last_error-json :
      (n : ℕ) (b : Body) (c : C) → gin.last_error (gin.json n b c) ≡ gin.last_error c
  pub reply-json :
      (n : ℕ) (b : Body) (c : C) → gin.written c ≡ false → reply (gin.json n b c) ≡ (n, some b)
  pub last_error-status : (n : ℕ) (c : C) → gin.last_error (gin.status n c) ≡ gin.last_error c
  pub reply-status : (n : ℕ) (c : C) → gin.written c ≡ false → reply (gin.status n c) ≡ (n, none)

-- a request that no handler has touched
pub record IsFresh {C : Type 0} (gin : Gin C) (c : C) : Type 0 where
  pub no_error : gin.last_error c ≡ none
  pub not_written : gin.written c ≡ false

abbrev pub error_reply : HttpError → Reply
error_reply he = (he.status, some (error_body he.body))

-- the reply for what a request returned
abbrev pub render : Result Reply → Reply
render (ok r) = r
render (err e) = error_reply (new_error (some e))

module _ {C S : Type 0} (lib : Library C) (uc : AccountUseCase S) where
  -- what each route asks of the use case, and its reply if that succeeds
  unfoldable pub answer : Route → C → M S Reply
  unfolding from_domain create_to_domain update_to_domain status_filter atoi_default with_cause
  answer post_accounts c = do
    req ← map_err invalid_body (lift (lib.gin.bind_create c))
    a ← uc.create (create_to_domain req)
    pure (201, some (account_body (from_domain lib.format_time utc a)))
  answer get_account c = do
    a ← uc.get (lib.gin.param "id" c)
    pure (200, some (account_body (from_domain lib.format_time stored_location a)))
  answer get_accounts c = do
    status ← lift (status_filter lib.atoi_error (lib.gin.query "status" c))
    page ← uc.list (record {
      status = status;
      limit = atoi_default (lib.gin.query "limit" c) (pos 0);
      offset = atoi_default (lib.gin.query "offset" c) (pos 0);
    })
    pure (
      200,
      some (
          accounts_body (record {
            accounts = map (from_domain lib.format_time stored_location) page.0;
            total = page.1;
          })),
    )
  answer patch_account c = do
    req ← map_err invalid_body (lift (lib.gin.bind_update c))
    a ← uc.update (update_to_domain (lib.gin.param "id" c) req)
    pure (200, some (account_body (from_domain lib.format_time stored_location a)))
  answer delete_account c = do uc.delete (lib.gin.param "id" c); pure (204, none)
