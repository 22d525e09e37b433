-- ===== src/Http/Replies.antt =====
-- Each route's reply, through its handler and the error middleware.
use go_clean_arch_template.Prelude.{
  ℕ, String, none, some, List, [], ◌∷◌, ◌≡◌, refl, subst, ap, ◌∙◌, map,
}
use go_clean_arch_template.Apperr.{Error}
use go_clean_arch_template.Prelude.Int.{ℤ, pos}
use go_clean_arch_template.Effect.{Result, M, map_result, ok, err, continue, pure}
use go_clean_arch_template.Domain.{Account}
use go_clean_arch_template.Ports.{AccountUseCase}
use go_clean_arch_template.Http.{
  Library, Body, Route, post_accounts, get_account, get_accounts, patch_account, delete_account,
  Location, utc, stored_location, from_domain, from_domain_list, finish, error_middleware,
  new_error, respond, status_filter, get, delete, invalid_body, account_body, write_account,
  read_first, create, update, list, create_to_domain, update_to_domain, write_page, accounts_body,
}
use go_clean_arch_template.Http.Atoi.{atoi_default}
use go_clean_arch_template.Http.Contract.{Reply, IsGin, IsFresh, error_reply, render, answer}

pub from_domain_list-map :
    (format_time : Location → ℕ → String) (z : Location) (page : List Account)
    → from_domain_list format_time z page ≡ map (from_domain format_time z) page
unfolding from_domain_list
from_domain_list-map f z [] = refl
from_domain_list-map f z (a ∷ rest) =
    ap (λ l. from_domain f z a ∷ l) (from_domain_list-map f z rest)

module _ {C : Type 0} (lib : Library C) (reply : C → Reply) (isGin : IsGin lib.gin reply) (c : C)
    (fresh : IsFresh lib.gin c) where
  pub reply-json_sent :
      (n : ℕ) (b : Body) → reply (error_middleware lib.gin (lib.gin.json n b c)) ≡ (n, some b)
  unfolding error_middleware
  reply-json_sent n b =
      rw (isGin.last_error-json n b c, fresh.no_error) (isGin.reply-json n b c fresh.not_written)

  reply-status_sent : (n : ℕ) → reply (error_middleware lib.gin (lib.gin.status n c)) ≡ (n, none)
  unfolding error_middleware
  reply-status_sent n =
      rw (isGin.last_error-status n c, fresh.no_error) (isGin.reply-status n c fresh.not_written)

  reply-error_sent :
      (e : Error)
      → reply (error_middleware lib.gin (lib.gin.error e c)) ≡ error_reply (new_error (some e))
  unfolding error_middleware
  reply-error_sent e =
      rw (isGin.last_error-error e c, isGin.written-error e c, fresh.not_written)
        (isGin.reply-json _ _ (lib.gin.error e c) (isGin.written-error e c ∙ fresh.not_written))

  -- A context and a state that are what `answer` describes.
  abbrev Same : {S : Type 0} → C × S → Result Reply × S → Type 0
  Same p q = (reply (error_middleware lib.gin p.0) ≡ render q.0) × (p.1 ≡ q.1)

  module _ {S A : Type 0} (uc : AccountUseCase S) where
    finish-Same :
        (write : A → C → C) (f : A → Reply)
        → ((a : A) → reply (error_middleware lib.gin (write a c)) ≡ f a)
        → (r : Result A) (s : S)
        → Same (finish lib uc write c (r, s)) (continue r (λ a. pure (f a)) s)
    finish-Same write f h (ok a) s = (h a, refl)
    finish-Same write f h (err e) s = (reply-error_sent e, refl)

    read_first-Same :
        (k : A → C × S) (g : A → M S Reply) (s : S)
        → ((a : A) → Same (k a) (g a s))
        → (r : Result A) → Same (read_first lib uc c s r k) (continue r g s)
    read_first-Same k g s h (ok a) = h a
    read_first-Same k g s h (err e) = (reply-error_sent e, refl)

  page_body : List Account × ℤ → Reply
  page_body page = (
    200,
    some (
        accounts_body (record {
          accounts = map (from_domain lib.format_time stored_location) page.0;
          total = page.1;
        })),
  )

  module _ {S : Type 0} (uc : AccountUseCase S) where
    page_sent :
        (page : List Account × ℤ)
        → reply (error_middleware lib.gin (write_page lib uc page c)) ≡ page_body page
    unfolding page_body
    page_sent (page, total) =
        subst
          (λ l.
            reply (error_middleware lib.gin (write_page lib uc (page, total) c))
            ≡ (200, some (accounts_body (record { accounts = l; total = total }))))
          (from_domain_list-map lib.format_time stored_location page) (reply-json_sent 200 _)

    account_body_of : Location → ℕ → Account → Reply
    account_body_of z n a = (n, some (account_body (from_domain lib.format_time z a)))

    account-Same :
        (z : Location) (n : ℕ) (r : Result Account × S)
        → Same
            (finish lib uc (write_account lib uc z n) c r)
            (continue r.0 (λ a. pure (account_body_of z n a)) r.1)
    unfolding account_body_of
    account-Same z n r =
        finish-Same uc (write_account lib uc z n) (account_body_of z n) (λ a. reply-json_sent n _)
          r.0 r.1

    -- Through its handler and the error middleware a route makes the calls of the use case that
    -- `answer` lists, and no other, and replies with the response that `answer` returns or, where
    -- the body is not valid, the query is not, or the use case fails, with httpx's rendering of
    -- that error. The request is one that Gin has just taken.
    pub respond-answer :
        (route : Route) (s : S)
        → (reply (respond lib uc route c s).0 ≡ render (answer lib uc route c s).0)
          × ((respond lib uc route c s).1 ≡ (answer lib uc route c s).1)
    unfolding respond answer create update list get delete account_body_of page_body
    respond-answer post_accounts s =
        read_first-Same uc _ _ s (λ req. account-Same utc 201 (uc.create (create_to_domain req) s))
          (map_result invalid_body (lib.gin.bind_create c))
    respond-answer get_account s =
        account-Same stored_location 200 (uc.get (lib.gin.param "id" c) s)
    respond-answer get_accounts s =
        read_first-Same uc _ _ s
          (λ status.
            let r =
              uc.list
                (record {
                  status = status;
                  limit = atoi_default (lib.gin.query "limit" c) (pos 0);
                  offset = atoi_default (lib.gin.query "offset" c) (pos 0);
                })
                s in
            finish-Same uc (write_page lib uc) page_body page_sent r.0 r.1)
          (status_filter lib.atoi_error (lib.gin.query "status" c))
    respond-answer patch_account s =
        read_first-Same uc _ _ s
          (λ req.
            account-Same stored_location 200
              (uc.update (update_to_domain (lib.gin.param "id" c) req) s))
          (map_result invalid_body (lib.gin.bind_update c))
    respond-answer delete_account s =
        let r = uc.delete (lib.gin.param "id" c) s in
        finish-Same uc (λ _. lib.gin.status 204) (λ _. (204, none)) (λ _. reply-status_sent 204) r.0
          r.1
