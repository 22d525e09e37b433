-- ===== src/Http/Secrets.antt =====
-- What the HTTP replies do not show.
use go_clean_arch_template.Prelude.{
  ℕ, String, Option, none, some, List, [], ◌∷◌, ◌≡◌, refl, ap, sym, ◌∙◌, map,
}
use go_clean_arch_template.Prelude.Int.{ℤ, pos}
use go_clean_arch_template.Apperr.{AppError, Error, app, app_error, as_app}
use go_clean_arch_template.Apperr.Catalog.{err_internal}
use go_clean_arch_template.Effect.{Result, ok, err, M, continue, pure, map_result}
use go_clean_arch_template.Domain.{Account}
use go_clean_arch_template.Ports.{AccountUseCase}
use go_clean_arch_template.Ports.Hidden.{hide_account, hide_accounts, without_cause}
use go_clean_arch_template.Http.{
  Library, Route, post_accounts, get_account, get_accounts, patch_account, delete_account, Location,
  utc, stored_location, from_domain, new_error, respond, status_filter, create_to_domain,
  update_to_domain, invalid_body, account_body, accounts_body,
}
use go_clean_arch_template.Http.Atoi.{atoi_default}
use go_clean_arch_template.Http.Contract.{Reply, error_reply, IsGin, IsFresh, render, answer}
use go_clean_arch_template.Http.Replies.{respond-answer}

abbrev public_part : Option AppError → Error
public_part none = app err_internal
public_part (some ae) = app (without_cause ae)

-- only the first AppError of the chain, without its cause
abbrev pub hide_error : Error → Error
hide_error e = public_part (as_app e)

abbrev hidden : {A : Type 0} → (A → A) → Result A → Result A
hidden f (ok a) = ok (f a)
hidden f (err e) = err (hide_error e)

abbrev hide_call : {S A : Type 0} → (A → A) → M S A → M S A
hide_call f m s = (hidden f (m s).0, (m s).1)

-- the use case, with every password hash and every cause taken out of what it returns
abbrev pub hiding : {S : Type 0} → AccountUseCase S → AccountUseCase S
hiding uc = record {
  create = λ req. hide_call hide_account (uc.create req);
  get = λ id. hide_call hide_account (uc.get id);
  list = λ f. hide_call (λ page. (hide_accounts page.0, page.1)) (uc.list f);
  update = λ req. hide_call hide_account (uc.update req);
  delete = λ id. hide_call (λ u. u) (uc.delete id);
}

public_part-new_error :
    (e : Error) (o : Option AppError)
    → as_app e ≡ o
    → new_error (some (public_part o)) ≡ new_error (some e)
unfolding new_error
public_part-new_error e none h = rw h
public_part-new_error e (some (app_error c m k g d meta)) h = rw h

from_domain_list-hide :
    (format_time : Location → ℕ → String) (z : Location) (page : List Account)
    → map (from_domain format_time z) (hide_accounts page) ≡ map (from_domain format_time z) page
unfolding from_domain
from_domain_list-hide f z [] = refl
from_domain_list-hide f z (a ∷ rest) =
    ap (λ l. from_domain f z a ∷ l) (from_domain_list-hide f z rest)

module _ {S : Type 0} where
  hidden-render :
      {A : Type 0} (hide : A → A) (f : A → Reply)
      → ((a : A) → f (hide a) ≡ f a)
      → (r : Result A) (s : S)
      → render (continue (hidden hide r) (λ a. pure (f a)) s).0
        ≡ render (continue r (λ a. pure (f a)) s).0
  hidden-render hide f h (ok a) s = h a
  hidden-render hide f h (err e) s = ap error_reply (public_part-new_error e (as_app e) refl)

  read-render :
      {A : Type 0} (k l : A → M S Reply) (s : S)
      → ((a : A) → render (k a s).0 ≡ render (l a s).0)
      → (r : Result A) → render (continue r k s).0 ≡ render (continue r l s).0
  read-render k l s h (ok a) = h a
  read-render k l s h (err e) = refl

module _ {C S : Type 0} (lib : Library C) (reply : C → Reply) (isGin : IsGin lib.gin reply) (c : C)
    (fresh : IsFresh lib.gin c) (uc : AccountUseCase S) where
  account_hidden :
      (z : Location) (n : ℕ) (r : Result Account × S)
      → render
          (continue
            (hidden hide_account r.0)
            (λ a. pure (n, some (account_body (from_domain lib.format_time z a))))
            r.1).0
        ≡ render
            (continue r.0
              (λ a. pure (n, some (account_body (from_domain lib.format_time z a))))
              r.1).0
  unfolding from_domain
  account_hidden z n r =
      hidden-render hide_account (λ a. (n, some (account_body (from_domain lib.format_time z a))))
        (λ a. refl) r.0 r.1

  answer-hiding :
      (route : Route) (s : S)
      → render (answer lib (hiding uc) route c s).0 ≡ render (answer lib uc route c s).0
  unfolding answer
  answer-hiding post_accounts s =
      read-render _ _ s (λ req. account_hidden utc 201 (uc.create (create_to_domain req) s))
        (map_result invalid_body (lib.gin.bind_create c))
  answer-hiding get_account s = account_hidden stored_location 200 (uc.get (lib.gin.param "id" c) s)
  answer-hiding get_accounts s =
      read-render _ _ s
        (λ status.
          let r =
            uc.list
              (record {
                status = status;
                limit = atoi_default (lib.gin.query "limit" c) (pos 0);
                offset = atoi_default (lib.gin.query "offset" c) (pos 0);
              })
              s in
          hidden-render {A = List Account × ℤ} _
            (λ page. (
              200,
              some (
                  accounts_body (record {
                    accounts = map (from_domain lib.format_time stored_location) page.0;
                    total = page.1;
                  })),
            ))
            (λ page.
              ap (λ l. (200, some (accounts_body (record { accounts = l; total = page.1 }))))
                (from_domain_list-hide lib.format_time stored_location page.0))
            r.0 r.1)
        (status_filter lib.atoi_error (lib.gin.query "status" c))
  answer-hiding patch_account s =
      read-render _ _ s
        (λ req.
          account_hidden stored_location 200
            (uc.update (update_to_domain (lib.gin.param "id" c) req) s))
        (map_result invalid_body (lib.gin.bind_update c))
  answer-hiding delete_account s =
      let r = uc.delete (lib.gin.param "id" c) s in
      hidden-render (λ u. u) (λ _. (204, none)) (λ u. refl) r.0 r.1

  -- Every route's reply to a request that Gin has just taken is the one it would be if the use
  -- case returned its accounts without password hashes and its errors without causes, an error
  -- that holds no AppError as the plain internal error.
  pub respond-hiding :
      (route : Route) (s : S)
      → reply (respond lib (hiding uc) route c s).0 ≡ reply (respond lib uc route c s).0
  respond-hiding route s =
      (respond-answer lib reply isGin c fresh (hiding uc) route s).0
      ∙ answer-hiding route s
      ∙ sym (respond-answer lib reply isGin c fresh uc route s).0
