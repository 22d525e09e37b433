-- ===== src/Sqlc.antt =====
-- internal/adapter/repo/sqlc: the account repository over the queries that sqlc generates, and its
-- mappers. The generated queries, bound to the connection of the context, are a parameter, and so
-- is what errors.As finds of a *pgconn.PgError.
pub mod ReadBack
pub mod Refines
use go_clean_arch_template.Prelude.{
  ℕ, String, Bool, true, false, Option, none, some, List, [], ◌∷◌, ◌==◌, if◌then◌else◌, map, nat_eq,
}
use go_clean_arch_template.Prelude.Int.{ℤ, pos, to_int32}
use go_clean_arch_template.Apperr.{Error, app, wrapped, sentinel, with_cause, is_error}
use go_clean_arch_template.Apperr.Catalog.{
  err_internal, err_account_not_found, err_account_already_exists,
}
use go_clean_arch_template.Effect.{Result, ok, err, M, pure, fail, map_err, ◌>>=◌, ◌>>◌}
use go_clean_arch_template.Domain
use go_clean_arch_template.Domain.{Account, AccountStatus, ListAccountFilter}
use go_clean_arch_template.Ports.{AccountRepository}

-- pgtype.Timestamptz
pub record Timestamptz : Type 0 where
  pub time : ℕ
  pub valid : Bool

-- sqlcgen.Account
pub record Row : Type 0 where
  pub id : String
  pub email : String
  pub first_name : String
  pub last_name : String
  pub password_hash : String
  pub status : ℤ
  pub created_at : Timestamptz
  pub updated_at : Timestamptz
  pub deleted_at : Timestamptz

pub record CreateAccountParams : Type 0 where
  pub id : String
  pub email : String
  pub first_name : String
  pub last_name : String
  pub password_hash : String
  pub status : ℤ
  pub created_at : Timestamptz
  pub updated_at : Timestamptz

pub record UpdateAccountParams : Type 0 where
  pub first_name : Option String
  pub last_name : Option String
  pub status : Option ℤ
  pub updated_at : Timestamptz
  pub id : String

pub record ListAccountsParams : Type 0 where
  pub status : Option ℤ
  pub row_offset : ℤ
  pub row_limit : ℤ

-- *sqlcgen.Queries
pub record Queries (S : Type 0) : Type 0 where
  pub create_account : CreateAccountParams → M S (Unit {0})
  pub get_account_by_id : String → M S Row
  pub get_account_by_email : String → M S Row
  pub update_account : UpdateAccountParams → M S ℕ
  pub delete_account : String → M S ℕ
  pub list_accounts : ListAccountsParams → M S (List Row)
  pub count_accounts : Option ℤ → M S ℕ

-- pgx.ErrNoRows
abbrev pub err_no_rows : Error
err_no_rows = sentinel "no rows in result set"

-- uniqueViolationCode
abbrev pub unique_violation_code : String
unique_violation_code = "23505"

abbrev pub timestamp : ℕ → Timestamptz
timestamp t = record { time = t; valid = true }

abbrev pub time_given : Timestamptz → Option ℕ
time_given t = if t.valid then some t.time else none

-- toDomain
unfoldable pub to_domain : Row → Account
to_domain row = record {
  id = row.id;
  email = row.email;
  first_name = row.first_name;
  last_name = row.last_name;
  password_hash = row.password_hash;
  status = row.status;
  created_at = row.created_at.time;
  updated_at = row.updated_at.time;
  deleted_at = time_given row.deleted_at;
}

-- toCreateParams
unfoldable pub to_create_params : Account → CreateAccountParams
to_create_params e = record {
  id = e.id;
  email = e.email;
  first_name = e.first_name;
  last_name = e.last_name;
  password_hash = e.password_hash;
  status = to_int32 e.status;
  created_at = timestamp e.created_at;
  updated_at = timestamp e.updated_at;
}

-- statusFilter
unfoldable pub status_filter : Option AccountStatus → Option ℤ
status_filter none = none
status_filter (some s) = some (to_int32 s)

-- toUpdateParams
unfoldable pub to_update_params : Domain.UpdateAccountParams → UpdateAccountParams
unfolding status_filter
to_update_params p = record {
  first_name = p.first_name;
  last_name = p.last_name;
  status = status_filter p.status;
  updated_at = timestamp p.updated_at;
  id = p.id;
}

-- mapReadErr
unfoldable pub map_read_err : Error → Error
unfolding with_cause
map_read_err e =
    if is_error e err_no_rows
    then app (with_cause err_account_not_found e)
    else app (with_cause err_internal e)

abbrev pub is_unique_violation : Option String → Bool
is_unique_violation none = false
is_unique_violation (some code) = code == unique_violation_code

-- ErrInternal with fmt.Errorf(text + ": %w")
abbrev pub internal_in : String → Error → Error
internal_in text e = app (with_cause err_internal (wrapped text e))

-- `if rows == 0`
abbrev pub some_rows : {S : Type 0} → ℕ → M S (Unit {0})
some_rows n = if nat_eq n 0 then fail (app err_account_not_found) else pure tt

module _ {S : Type 0} (queries : Queries S) (pg_code : Error → Option String) where
  -- mapWriteErr
  unfoldable pub map_write_err : Error → Error
  unfolding with_cause
  map_write_err e =
      if is_unique_violation (pg_code e)
      then app (with_cause err_account_already_exists e)
      else app (with_cause err_internal e)

  unfoldable pub create : Account → M S String
  unfolding to_create_params map_write_err
  create e = do map_err map_write_err (queries.create_account (to_create_params e)); pure e.id

  unfoldable pub get_by_id : String → M S Account
  unfolding to_domain map_read_err
  get_by_id id = do row ← map_err map_read_err (queries.get_account_by_id id); pure (to_domain row)

  unfoldable pub get_by_email : String → M S Account
  unfolding to_domain map_read_err
  get_by_email email = do
    row ← map_err map_read_err (queries.get_account_by_email email)
    pure (to_domain row)

  unfoldable pub update : Domain.UpdateAccountParams → M S (Unit {0})
  unfolding to_update_params map_write_err
  update p = do
    rows ← map_err map_write_err (queries.update_account (to_update_params p))
    some_rows rows

  unfoldable pub delete : String → M S (Unit {0})
  delete id = do
    rows ← map_err (internal_in "delete account") (queries.delete_account id)
    some_rows rows

  unfoldable pub list : ListAccountFilter → M S (List Account × ℤ)
  unfolding to_domain status_filter
  list f = do
    rows ← map_err (internal_in "list accounts") (
        queries.list_accounts (record {
          status = status_filter f.status;
          row_offset = to_int32 f.offset;
          row_limit = to_int32 f.limit;
        }))
    total ← map_err (internal_in "count accounts") (queries.count_accounts (status_filter f.status))
    pure (map to_domain rows, pos total)

  -- NewAccountRepository
  abbrev pub repository : AccountRepository S
  repository = record {
    create = create;
    get_by_id = get_by_id;
    get_by_email = get_by_email;
    update = update;
    delete = delete;
    list = list;
  }
