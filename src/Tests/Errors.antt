-- ===== src/Tests/Errors.antt =====
-- The theorems about errors and statuses.
use go_clean_arch_template.Prelude.{◌≡◌, true, ◌↔◌}
use go_clean_arch_template.Apperr.{Error, app, sentinel, wrapped, with_cause, is_error}
use go_clean_arch_template.Apperr.Catalog.{err_account_not_found, err_internal}
use go_clean_arch_template.Apperr.Matching.{HasCode, is_error_iff}

abbrev driver_error : Error
driver_error = sentinel "gorm: record not found"

is_error_iff_example :
    (is_error
        (wrapped "get" (app (with_cause err_internal (app err_account_not_found))))
        (app err_account_not_found)
      ≡ true)
    ↔ HasCode "account_not_found"
        (wrapped "get" (app (with_cause err_internal (app err_account_not_found))))
is_error_iff_example =
    is_error_iff (wrapped "get" (app (with_cause err_internal (app err_account_not_found))))
      err_account_not_found
