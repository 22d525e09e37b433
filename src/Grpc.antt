-- ===== src/Grpc.antt =====
-- internal/adapter/grpc and internal/infra/grpcx: the handlers and the two interceptors.
-- A generated request type is a record of what its getters return. protovalidate and
-- status.FromError are parameters; status.Error is the constructor `grpc_status`.
pub mod Options
pub mod Chained
pub mod Wire
pub mod Errors
use go_clean_arch_template.Prelude.{
  ℕ, String, Bool, true, false, Option, none, some, List, [], ◌∷◌, if◌then◌else◌,
}
use go_clean_arch_template.Prelude.Int.{ℤ, pos, to_int32}
use go_clean_arch_template.Apperr.{Error, AppError, grpc_status, grpc_code, message, error_text}
use go_clean_arch_template.Apperr.Catalog.{from_error}
use go_clean_arch_template.Effect.{Result, ok, err, M, pure, fail, ◌>>=◌, ◌>>◌}
use go_clean_arch_template.Domain.{Account, AccountStatus, ListAccountFilter}
use go_clean_arch_template.Domain
use go_clean_arch_template.Ports.{AccountUseCase}

-- accountv1.Account; a timestamp is the instant
pub record ProtoAccount : Type 0 where
  pub id : String
  pub email : String
  pub first_name : String
  pub last_name : String
  pub status : ℤ
  pub created_at : ℕ
  pub updated_at : ℕ

pub record CreateAccountRequest : Type 0 where
  pub email : String
  pub password : String
  pub first_name : String
  pub last_name : String

-- limit and offset are int32
pub record ListAccountsRequest : Type 0 where
  pub status : Option ℤ
  pub limit : ℤ
  pub offset : ℤ

pub record ListAccountsResponse : Type 0 where
  pub accounts : List ProtoAccount
  pub total : ℤ

pub record UpdateAccountRequest : Type 0 where
  pub id : String
  pub first_name : Option String
  pub last_name : Option String
  pub status : Option ℤ

-- toProtoStatus: an int as the int32 of the enumeration
unfoldable pub to_proto_status : AccountStatus → ℤ
to_proto_status s = to_int32 s

-- toDomainStatus: an int32 as an int
unfoldable pub to_domain_status : ℤ → AccountStatus
to_domain_status s = s

abbrev pub status_given : Option ℤ → Option AccountStatus
status_given none = none
status_given (some s) = some (to_domain_status s)

-- toProtoAccount, at an account that is not nil
unfoldable pub to_proto_account : Account → ProtoAccount
unfolding to_proto_status
to_proto_account a = record {
  id = a.id;
  email = a.email;
  first_name = a.first_name;
  last_name = a.last_name;
  status = to_proto_status a.status;
  created_at = a.created_at;
  updated_at = a.updated_at;
}

unfoldable pub to_proto_accounts : List Account → List ProtoAccount
unfolding to_proto_account
to_proto_accounts [] = []
to_proto_accounts (a ∷ rest) = to_proto_account a ∷ to_proto_accounts rest

-- the RPCs of accountv1.AccountServiceServer, with their requests
pub data Call : Type 0 where
  create_call : CreateAccountRequest → Call
  get_call : (id : String) → Call
  list_call : ListAccountsRequest → Call
  update_call : UpdateAccountRequest → Call
  delete_call : (id : String) → Call

pub data Response : Type 0 where
  created : (id : String) → Response
  got : ProtoAccount → Response
  listed : ListAccountsResponse → Response
  updated : ProtoAccount → Response
  deleted : Response

module _ {S : Type 0} (uc : AccountUseCase S) where
  -- CreateAccount
  unfoldable pub create_account : CreateAccountRequest → M S Response
  create_account req = do
    a ← uc.create (record {
      email = req.email;
      password = req.password;
      first_name = req.first_name;
      last_name = req.last_name;
      status = pos 0;
    })
    pure (created a.id)

  -- GetAccount
  unfoldable pub get_account : (id : String) → M S Response
  unfolding to_proto_account
  get_account id = do a ← uc.get id; pure (got (to_proto_account a))

  -- ListAccounts
  unfoldable pub list_accounts : ListAccountsRequest → M S Response
  unfolding to_domain_status to_proto_accounts
  list_accounts req = do
    page ←
        uc.list
          (record { status = status_given req.status; limit = req.limit; offset = req.offset })
    pure (listed (record { accounts = to_proto_accounts page.0; total = to_int32 page.1 }))

  -- UpdateAccount
  unfoldable pub update_account : UpdateAccountRequest → M S Response
  unfolding to_domain_status to_proto_account
  update_account req = do
    a ← uc.update (record {
      id = req.id;
      first_name = req.first_name;
      last_name = req.last_name;
      status = status_given req.status;
    })
    pure (updated (to_proto_account a))

  -- DeleteAccount
  unfoldable pub delete_account : (id : String) → M S Response
  delete_account id = do uc.delete id; pure deleted

  unfoldable pub handle : Call → M S Response
  unfolding create_account get_account list_accounts update_account delete_account
  handle (create_call req) = create_account req
  handle (get_call id) = get_account id
  handle (list_call req) = list_accounts req
  handle (update_call req) = update_account req
  handle (delete_call id) = delete_account id

-- what the interceptors call
pub record Library : Type 0 where
  -- the isStatus of status.FromError
  pub is_status : Error → Bool
  -- protovalidate's Validate
  pub validate : Call → Result (Unit {0})

module _ (lib : Library) where
  abbrev pub status_or_internal : Bool → Error → Error
  status_or_internal true e = e
  status_or_internal false e = grpc_status 13 "internal server error"

  abbrev pub status_of : AppError × Bool → Error → Error
  status_of (ae, true) e = grpc_status (grpc_code ae) (message ae)
  status_of (ae, false) e = status_or_internal (lib.is_status e) e

  -- the error that the interceptor returns for an error of its handler
  unfoldable pub convert : Error → Error
  unfolding from_error
  convert e = status_of (from_error e) e

  abbrev pub converted : {A : Type 0} → Result A → Result A
  converted (ok a) = ok a
  converted (err e) = err (convert e)

  -- NewErrorInterceptor
  unfoldable pub error_interceptor : {S A : Type 0} → M S A → M S A
  unfolding convert
  error_interceptor handler s = let (r, s') = handler s in (converted r, s')

  abbrev pub validated : {S A : Type 0} → Result (Unit {0}) → M S A → M S A
  validated (ok u) handler s = handler s
  validated (err e) handler s = (err (grpc_status 3 (error_text e)), s)

  -- NewValidationInterceptor, whose requests are all proto messages
  unfoldable pub validation_interceptor : {S : Type 0} → (Call → M S Response) → Call → M S Response
  unfolding error_text
  validation_interceptor handler req = validated (lib.validate req) (handler req)

  -- a call through the interceptors, the one for errors outermost
  unfoldable pub serve : {S : Type 0} → AccountUseCase S → Call → M S Response
  unfolding error_interceptor validation_interceptor handle
  serve uc req = error_interceptor (validation_interceptor (handle uc) req)
