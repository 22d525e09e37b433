-- ===== src/Http.antt =====
-- internal/adapter/http, internal/infra/httpx and ErrorMiddleware of internal/infra/ginx.
-- Gin's context is a parameter: its state `C`, what the handlers read of the request and what they
-- write. Timestamps are formatted by `format_time`, which is Time.Format(RFC3339).
pub mod Atoi
pub mod Contract
pub mod Replies
pub mod Secrets
pub mod ReadBack
use go_clean_arch_template.Prelude.{
  ℕ, String, Bool, Option, none, some, List, [], ◌∷◌, ◌==◌, if◌then◌else◌,
}
use go_clean_arch_template.Prelude.Int.{ℤ, pos}
use go_clean_arch_template.Apperr.{
  Error, app, AppError, Metadata, code, message, http_status, metadata, with_cause, with_message,
}
use go_clean_arch_template.Apperr.Catalog.{err_internal, err_invalid_request, from_error}
use go_clean_arch_template.Effect.{Result, ok, err, map_result}
use go_clean_arch_template.Domain.{
  Account, AccountStatus, ListAccountFilter, full_name, status_text,
}
use go_clean_arch_template.Domain
use go_clean_arch_template.Ports.{AccountUseCase}
use Atoi.{atoi, atoi_default}

-- the wire types
pub record AccountResponse : Type 0 where
  pub id : String
  pub email : String
  pub first_name : String
  pub last_name : String
  pub full_name : String
  pub status : String
  pub created_at : String
  pub updated_at : String

pub record CreateAccountRequest : Type 0 where
  pub email : String
  pub password : String
  pub first_name : String
  pub last_name : String
  pub status : ℤ

pub record UpdateAccountRequest : Type 0 where
  pub first_name : Option String
  pub last_name : Option String
  pub status : Option ℤ

pub record ListAccountsResponse : Type 0 where
  pub accounts : List AccountResponse
  pub total : ℤ

-- httpx.ErrorResponse; no metadata is the empty map
pub record ErrorResponse : Type 0 where
  pub code : String
  pub message : String
  pub metadata : Metadata

pub record HttpError : Type 0 where
  pub status : ℕ
  pub body : ErrorResponse

-- what c.JSON is given
pub data Body : Type 0 where
  account_body : AccountResponse → Body
  accounts_body : ListAccountsResponse → Body
  error_body : ErrorResponse → Body
  -- of the probes
  status_body : String → Body
  ready_body : (ready : Bool) (details : List (String × String)) → Body

-- *gin.Context
pub record Gin (C : Type 0) : Type 0 where
  -- ShouldBindJSON into each of the request types
  pub bind_create : C → Result CreateAccountRequest
  pub bind_update : C → Result UpdateAccountRequest
  pub param : String → C → String
  pub query : String → C → String
  -- Error
  pub error : Error → C → C
  -- JSON
  pub json : ℕ → Body → C → C
  -- Status
  pub status : ℕ → C → C
  -- Errors.Last, nothing if there are none
  pub last_error : C → Option Error
  -- Writer.Written
  pub written : C → Bool

-- apperr.ErrInvalidRequest.Cause(err)
abbrev pub invalid_body : Error → Error
invalid_body e = app (with_cause err_invalid_request e)

-- CreateAccountRequest.toDomain
unfoldable pub create_to_domain : CreateAccountRequest → Domain.CreateAccountRequest
create_to_domain r = record {
  email = r.email;
  password = r.password;
  first_name = r.first_name;
  last_name = r.last_name;
  status = r.status;
}

-- UpdateAccountRequest.toDomain
unfoldable pub update_to_domain : String → UpdateAccountRequest → Domain.UpdateAccountRequest
update_to_domain id r = record {
  id = id;
  first_name = r.first_name;
  last_name = r.last_name;
  status = r.status;
}

abbrev new_error_of : AppError → HttpError
new_error_of ae = record {
  status = http_status ae;
  body = record { code = code ae; message = message ae; metadata = metadata ae };
}

-- httpx.NewError; a nil error is `none`
unfoldable pub new_error : Option Error → HttpError
unfolding metadata from_error
new_error none = new_error_of (from_error (app err_internal)).0
new_error (some e) = new_error_of (from_error e).0

-- the status filter of List; `atoi_error` is the error of strconv.Atoi at a text that it refuses
unfoldable pub status_filter :
    (atoi_error : String → Error) → String → Result (Option AccountStatus)
unfolding atoi with_cause with_message
status_filter atoi_error raw = if raw == "" then ok none else elim (atoi raw) [
  | none ↦
      err (app (with_message (with_cause err_invalid_request (atoi_error raw)) "invalid status"))
  | some v ↦ ok (some v)
]

-- The location of a time, which Format prints: UTC of what time.Now().UTC() made, or the one that
-- the repository gives what it reads.
pub data Location : Type 0 where
  utc : Location
  stored_location : Location

module _ (format_time : Location → ℕ → String) (location : Location) where
  -- fromDomain, at an account that is not nil and whose times have this location
  unfoldable pub from_domain : Account → AccountResponse
  unfolding full_name status_text
  from_domain a = record {
    id = a.id;
    email = a.email;
    first_name = a.first_name;
    last_name = a.last_name;
    full_name = full_name a;
    status = status_text a.status;
    created_at = format_time location a.created_at;
    updated_at = format_time location a.updated_at;
  }

  -- fromDomainList
  unfoldable pub from_domain_list : List Account → List AccountResponse
  unfolding from_domain
  from_domain_list [] = []
  from_domain_list (a ∷ rest) = from_domain a ∷ from_domain_list rest

-- what the handlers take of the packages that they call
pub record Library (C : Type 0) : Type 0 where
  pub gin : Gin C
  pub format_time : Location → ℕ → String
  pub atoi_error : String → Error

module _ {C S : Type 0} (lib : Library C) (uc : AccountUseCase S) where
  -- `if err != nil { c.Error(err); return }`, else the reply
  abbrev pub finish : {A : Type 0} → (A → C → C) → C → Result A × S → C × S
  finish write c (ok a, s) = (write a c, s)
  finish write c (err e, s) = (lib.gin.error e c, s)

  -- the same around the code that reads the request
  abbrev pub read_first : {A : Type 0} → C → S → Result A → (A → C × S) → C × S
  read_first c s (ok a) rest = rest a
  read_first c s (err e) rest = (lib.gin.error e c, s)

  -- the reply with an account, whose times have the location that the use case's call gives them:
  -- Create returns the account that it built, the others what they read
  abbrev pub write_account : Location → ℕ → Account → C → C
  write_account location n a =
      lib.gin.json n (account_body (from_domain lib.format_time location a))

  abbrev pub write_page : List Account × ℤ → C → C
  write_page (page, total) = lib.gin.json 200 (
      accounts_body (record {
        accounts = from_domain_list lib.format_time stored_location page;
        total = total;
      }))

  -- AccountHandler.Create
  unfoldable pub create : C → S → C × S
  unfolding from_domain create_to_domain with_cause
  create c s =
      read_first c s (map_result invalid_body (lib.gin.bind_create c))
        (λ req. finish (write_account utc 201) c (uc.create (create_to_domain req) s))

  -- AccountHandler.Get
  unfoldable pub get : C → S → C × S
  unfolding from_domain
  get c s = finish (write_account stored_location 200) c (uc.get (lib.gin.param "id" c) s)

  -- AccountHandler.List
  unfoldable pub list : C → S → C × S
  unfolding from_domain_list status_filter atoi_default
  list c s =
      let limit = atoi_default (lib.gin.query "limit" c) (pos 0) in
      let offset = atoi_default (lib.gin.query "offset" c) (pos 0) in
      read_first c s (status_filter lib.atoi_error (lib.gin.query "status" c)) (λ status.
        finish write_page c
          (uc.list (record { status = status; limit = limit; offset = offset }) s))

  -- AccountHandler.Update
  unfoldable pub update : C → S → C × S
  unfolding from_domain update_to_domain with_cause
  update c s = read_first c s (map_result invalid_body (lib.gin.bind_update c)) (λ req.
      finish (write_account stored_location 200) c
        (uc.update (update_to_domain (lib.gin.param "id" c) req) s))

  -- AccountHandler.Delete
  unfoldable pub delete : C → S → C × S
  delete c s = finish (λ _. lib.gin.status 204) c (uc.delete (lib.gin.param "id" c) s)

module _ {C : Type 0} (gin : Gin C) where
  abbrev render_last : Option Error → C → C
  render_last none c = c
  render_last (some e) c =
      if gin.written c
      then c
      else gin.json (new_error (some e)).status (error_body (new_error (some e)).body) c

  -- ErrorMiddleware, after c.Next
  unfoldable pub error_middleware : C → C
  unfolding new_error
  error_middleware c = render_last (gin.last_error c) c

-- RegisterRoutes
pub data Route : Type 0 where
  post_accounts : Route
  get_account : Route
  get_accounts : Route
  patch_account : Route
  delete_account : Route

module _ {C S : Type 0} (lib : Library C) (uc : AccountUseCase S) where
  unfoldable pub handle : Route → C → S → C × S
  unfolding create get list update delete
  handle post_accounts = create lib uc
  handle get_account = get lib uc
  handle get_accounts = list lib uc
  handle patch_account = update lib uc
  handle delete_account = delete lib uc

  -- a request through the error middleware
  unfoldable pub respond : Route → C → S → C × S
  unfolding handle error_middleware
  respond route c s = let (c', s') = handle route c s in (error_middleware lib.gin c', s')
