-- ===== src/Usecase.antt =====
-- internal/core/usecase/account/account.go and internal/core/services/password.go.
-- The clock, uuid.NewString and bcrypt are arguments; log lines are left out.
pub mod Outcome
pub mod Create
pub mod Change
pub mod Steps
pub mod Invariant
pub mod Disturbed
pub mod Races
pub mod ReadBack
pub mod Inbound
use go_clean_arch_template.Prelude.{
  ℕ, String, Bool, false, Option, none, some, List, [], ◌∷◌, ◌==◌, not, ◌||◌, ◌&&◌, if◌then◌else◌,
  leb,
}
use go_clean_arch_template.Prelude.Text.{byte_len, to_lower, contains_code}
use go_clean_arch_template.Prelude.Int.{ℤ}
use go_clean_arch_template.Prelude.Decimal.{duration_text}
use go_clean_arch_template.Apperr.{
  AppError, Error, app, with_cause, with_message, with_metadata, is_error,
}
use go_clean_arch_template.Apperr.Catalog.{
  err_internal, err_invalid_request, err_too_many_requests, err_account_not_found,
  err_account_already_exists, err_invalid_email, err_invalid_status, err_weak_password,
}
use go_clean_arch_template.Effect.{
  Result, ok, err, M, pure, fail, lift, map_err, guard, ◌>>=◌, ◌>>◌,
}
use go_clean_arch_template.Domain.{
  AccountStatus, active, valid, min_password_length, Account, CreateAccountRequest,
  UpdateAccountRequest, UpdateAccountParams, ListAccountFilter, LimitRequest, create_account_action,
}
use go_clean_arch_template.Ports.{AccountRepository, RateLimiter, TxManager, PasswordService}

-- PasswordService.IsValidPassword
unfoldable pub is_valid_password : String → Result Bool
is_valid_password password = ok (leb min_password_length (byte_len password))

-- NewPasswordService; `generate` is bcrypt.GenerateFromPassword at the default cost
abbrev pub password_service : (String → Result String) → PasswordService
password_service generate = record { is_valid_password = is_valid_password; hash = generate }

-- AccountUseCase
pub record AccountUseCase (S : Type 0) : Type 1 where
  pub repo : AccountRepository S
  pub tx : TxManager S
  pub limiter : RateLimiter S
  pub passwords : PasswordService

-- apperr.ErrInternal.Cause(err)
abbrev pub internal : Error → Error
internal e = app (with_cause err_internal e)

-- `account id is required`
unfoldable pub id_required : Error
unfolding with_message
id_required = app (with_message err_invalid_request "account id is required")

-- what Create asks the limiter
unfoldable pub limit_request : CreateAccountRequest → LimitRequest
unfolding to_lower
limit_request req = record { action = create_account_action; key = to_lower req.email }

-- validateEmail
unfoldable pub validate_email : String → Result (Unit {0})
unfolding contains_code
validate_email email =
    if email == "" || not (contains_code b'@' email)
    then err (app (with_metadata err_invalid_email "email" email))
    else ok tt

-- the account that Create builds
unfoldable pub new_account : (now : ℕ) (uuid hashed : String) → CreateAccountRequest → Account
new_account now uuid hashed req = record {
  id = uuid;
  email = req.email;
  first_name = req.first_name;
  last_name = req.last_name;
  password_hash = hashed;
  status = if not (valid req.status) then active else req.status;
  created_at = now;
  updated_at = now;
  deleted_at = none;
}

-- `req.Status != nil && !req.Status.Valid()`
abbrev pub bad_status : Option AccountStatus → Bool
bad_status none = false
bad_status (some s) = not (valid s)

abbrev pub update_params : (now : ℕ) → UpdateAccountRequest → UpdateAccountParams
update_params now req = record {
  id = req.id;
  first_name = req.first_name;
  last_name = req.last_name;
  status = req.status;
  updated_at = now;
}

-- the switch of ensureEmailFree on the result of GetByEmail
unfoldable pub email_verdict : {S : Type 0} → String → Result Account → M S (Unit {0})
email_verdict email (ok a) = fail (app (with_metadata err_account_already_exists "email" email))
email_verdict email (err e) = if is_error e (app err_account_not_found) then pure tt else fail e

module _ {S : Type 0} (uc : AccountUseCase S) where
  -- ensureStrongPassword
  unfoldable pub ensure_strong_password : String → M S (Unit {0})
  ensure_strong_password password = do
    strong ← map_err internal (lift (uc.passwords.is_valid_password password))
    guard strong (app err_weak_password)

  -- ensureEmailFree
  unfoldable pub ensure_email_free : String → M S (Unit {0})
  unfolding email_verdict
  ensure_email_free email s =
      let (found, s') = uc.repo.get_by_email email s in email_verdict email found s'

  -- the closure of Create's transaction
  unfoldable pub create_in_tx : Account → M S String
  unfolding ensure_email_free
  create_in_tx account = do ensure_email_free account.email; uc.repo.create account

  -- Create
  unfoldable pub create : (now : ℕ) (uuid : String) → CreateAccountRequest → M S Account
  unfolding validate_email ensure_strong_password new_account create_in_tx limit_request
  create now uuid req = do
    verdict ← map_err internal (uc.limiter.limit (limit_request req))
    guard verdict.allowed (
        app (with_metadata err_too_many_requests "retry_after" (duration_text verdict.retry_after)))
    lift (validate_email req.email)
    ensure_strong_password req.password
    hashed ← map_err internal (lift (uc.passwords.hash req.password))
    let account = new_account now uuid hashed req
    id ← uc.tx.with_tx (create_in_tx account)
    pure (record account { id = id })

  -- Get
  unfoldable pub get : String → M S Account
  get id = if id == "" then fail id_required else uc.repo.get_by_id id

  -- List
  unfoldable pub list : ListAccountFilter → M S (List Account × ℤ)
  list filter = uc.repo.list filter

  -- the closure of Update's transaction
  unfoldable pub update_in_tx : (now : ℕ) → UpdateAccountRequest → M S Account
  update_in_tx now req = do uc.repo.update (update_params now req); uc.repo.get_by_id req.id

  -- Update
  unfoldable pub update : (now : ℕ) → UpdateAccountRequest → M S Account
  unfolding update_in_tx
  update now req =
      if req.id == ""
      then fail id_required
      else if bad_status req.status
      then fail (app err_invalid_status)
      else uc.tx.with_tx (update_in_tx now req)

  -- Delete
  unfoldable pub delete : String → M S (Unit {0})
  delete id = if id == "" then fail id_required else uc.tx.with_tx (uc.repo.delete id)

-- A call of the use case's interface; the clock and the new id are inputs of a call.
pub data Command : Type 0 where
  create_with : (now : ℕ) (uuid : String) → CreateAccountRequest → Command
  get_with : String → Command
  list_with : ListAccountFilter → Command
  update_with : (now : ℕ) → UpdateAccountRequest → Command
  delete_with : String → Command

module _ {S : Type 0} (uc : AccountUseCase S) where
  -- the state after one call, whatever it returned
  unfoldable pub after : Command → S → S
  after (create_with now uuid req) s = (create uc now uuid req s).1
  after (get_with id) s = (get uc id s).1
  after (list_with f) s = (list uc f s).1
  after (update_with now req) s = (update uc now req s).1
  after (delete_with id) s = (delete uc id s).1

  unfoldable pub serve : List Command → S → S
  unfolding after
  serve [] s = s
  serve (c ∷ rest) s = serve rest (after c s)
