-- ===== src/Http/ReadBack.antt =====
-- A POST and a later GET through the handlers, the use case and a repository.
use go_clean_arch_template.Prelude.{ℕ, String, ◌≡◌, some, false}
use go_clean_arch_template.Apperr.{Error, app, is_error}
use go_clean_arch_template.Apperr.Catalog.{err_account_not_found}
use go_clean_arch_template.Domain.{Account}
use go_clean_arch_template.Domain
use go_clean_arch_template.Usecase
use go_clean_arch_template.Http.{
  AccountResponse, Location, utc, stored_location, account_body, from_domain, new_error,
}
use go_clean_arch_template.Http.Contract.{Reply, error_reply}

abbrev created_body : AccountResponse → Reply
created_body r = (201, some (account_body r))

-- The reply to a GET of the account that is shown by `r`.
pub data Shown (r : AccountResponse) : Reply → Type 0 where
  shows : {x : Reply} → x ≡ (200, some (account_body r)) → Shown r x
  fails :
      {x : Reply} (e : Error)
      → is_error e (app err_account_not_found) ≡ false
      → x ≡ error_reply (new_error (some e))
      → Shown r x

-- What a GET of an account shows after a POST that showed it as `r`: the same account, with its
-- times in the location of what the repository reads.
pub data ShownAgain (format_time : Location → ℕ → String) (r : AccountResponse) (x : Reply)
    : Type 0 where
  shown_again_as :
      (a : Account)
      → from_domain format_time utc a ≡ r
      → Shown (from_domain format_time stored_location a) x
      → ShownAgain format_time r x
