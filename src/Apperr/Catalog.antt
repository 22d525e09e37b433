-- ===== src/Apperr/Catalog.antt =====
-- internal/infra/apperr/catalog.go, with the HTTP and gRPC codes that it names
use go_clean_arch_template.Prelude.{Bool, true, false, Option, none, some, List, [], ◌∷◌}
use go_clean_arch_template.Apperr.{AppError, Error, new, with_cause, as_app}

abbrev pub err_invalid_request : AppError
err_invalid_request = new "invalid_request" "the request is invalid" 400 3

abbrev pub err_unauthorized : AppError
err_unauthorized = new "unauthorized" "authentication required" 401 16

abbrev pub err_forbidden : AppError
err_forbidden = new "forbidden" "operation not permitted" 403 7

abbrev pub err_not_found : AppError
err_not_found = new "not_found" "resource not found" 404 5

abbrev pub err_already_exists : AppError
err_already_exists = new "already_exists" "resource already exists" 409 6

abbrev pub err_conflict : AppError
err_conflict = new "conflict" "resource conflict" 409 10

abbrev pub err_too_many_requests : AppError
err_too_many_requests = new "too_many_requests" "rate limit exceeded" 429 8

abbrev pub err_internal : AppError
err_internal = new "internal" "internal server error" 500 13

abbrev pub err_account_not_found : AppError
err_account_not_found = new "account_not_found" "account not found" 404 5

abbrev pub err_account_already_exists : AppError
err_account_already_exists = new "account_already_exists" "account already exists" 409 6

abbrev pub err_invalid_email : AppError
err_invalid_email = new "invalid_email" "invalid email" 400 3

abbrev pub err_invalid_status : AppError
err_invalid_status = new "invalid_status" "invalid account status" 400 3

abbrev pub err_weak_password : AppError
err_weak_password = new "weak_password" "password does not meet strength requirements" 400 3

abbrev pub err_invalid_credentials : AppError
err_invalid_credentials = new "invalid_credentials" "invalid credentials" 401 16

abbrev pub err_account_blocked : AppError
err_account_blocked = new "account_blocked" "account is blocked" 403 7

abbrev given : Error → Option AppError → AppError × Bool
given err (some ae) = (ae, true)
given err none = (with_cause err_internal err, false)

-- FromError at an error that is not nil
unfoldable pub from_error : Error → AppError × Bool
unfolding as_app with_cause
from_error err = given err (as_app err)

abbrev pub catalog : List AppError
catalog =
    err_invalid_request ∷ err_unauthorized ∷ err_forbidden ∷ err_not_found ∷ err_already_exists
    ∷ err_conflict ∷ err_too_many_requests ∷ err_internal ∷ err_account_not_found
    ∷ err_account_already_exists ∷ err_invalid_email ∷ err_invalid_status ∷ err_weak_password
    ∷ err_invalid_credentials ∷ err_account_blocked ∷ []
