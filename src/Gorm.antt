-- ===== src/Gorm.antt =====
-- internal/adapter/repo/gorm: the account repository over GORM, and its row type.
-- GORM is a parameter: what `Provider.GetDB(ctx)` hands out, as one operation for each chain of
-- GORM calls that the repository makes.
pub mod Contract
pub mod Mapping
pub mod Faults
pub mod Refines
pub mod Paging
use go_clean_arch_template.Prelude.{
  ℕ, String, Bool, Option, none, some, List, [], ◌∷◌, ◌++◌, map, nat_eq, if◌then◌else◌,
}
use go_clean_arch_template.Prelude.Int.{ℤ, pos, is_positive}
use go_clean_arch_template.Apperr.{Error, app, sentinel, with_cause, is_error}
use go_clean_arch_template.Apperr.Catalog.{
  err_internal, err_account_not_found, err_account_already_exists,
}
use go_clean_arch_template.Effect.{Result, ok, err, M, pure, fail, map_err, ◌>>=◌, ◌>>◌}
use go_clean_arch_template.Domain.{Account, AccountStatus, UpdateAccountParams, ListAccountFilter}
use go_clean_arch_template.Ports.{AccountRepository}

-- AccountModel
pub record AccountModel : Type 0 where
  pub id : String
  pub email : String
  pub first_name : String
  pub last_name : String
  pub password_hash : String
  pub status : ℤ
  pub created_at : ℕ
  pub updated_at : ℕ
  pub deleted_at : Option ℕ

-- toModel, at an entity that is not nil
unfoldable pub to_model : Account → AccountModel
to_model e = record {
  id = e.id;
  email = e.email;
  first_name = e.first_name;
  last_name = e.last_name;
  password_hash = e.password_hash;
  status = e.status;
  created_at = e.created_at;
  updated_at = e.updated_at;
  deleted_at = e.deleted_at;
}

-- toDomain
unfoldable pub to_domain : AccountModel → Account
to_domain m = record {
  id = m.id;
  email = m.email;
  first_name = m.first_name;
  last_name = m.last_name;
  password_hash = m.password_hash;
  status = m.status;
  created_at = m.created_at;
  updated_at = m.updated_at;
  deleted_at = m.deleted_at;
}

-- a value of the map that Updates takes
pub data Column : Type 0 where
  text_column : String → Column
  int_column : ℤ → Column
  time_column : ℕ → Column

pub record GormDb (S : Type 0) : Type 0 where
  -- Create(m).Error
  pub create : AccountModel → M S (Unit {0})
  -- Where(query, arg).First(&m)
  pub first : (query arg : String) → M S AccountModel
  -- Model(&AccountModel{}).Where("id = ?", id).Updates(columns), with RowsAffected
  pub updates : (id : String) → List (String × Column) → M S ℕ
  -- Where("id = ?", id).Delete(&AccountModel{}), with RowsAffected
  pub delete : (id : String) → M S ℕ
  -- Where("status = ?", status) if it is given, then Count
  pub count : (status : Option ℤ) → M S ℕ
  -- the same rows, with Limit and Offset if they are given, then Find
  pub find : (status limit offset : Option ℤ) → M S (List AccountModel)

-- gorm.ErrDuplicatedKey
abbrev pub err_duplicated_key : Error
err_duplicated_key = sentinel "gorm: duplicated key not allowed"

-- gorm.ErrRecordNotFound
abbrev pub err_record_not_found : Error
err_record_not_found = sentinel "gorm: record not found"

unfoldable pub write_error : Error → Error
unfolding with_cause
write_error e =
    if is_error e err_duplicated_key
    then app (with_cause err_account_already_exists e)
    else app (with_cause err_internal e)

unfoldable pub read_error : Error → Error
unfolding with_cause
read_error e =
    if is_error e err_record_not_found
    then app (with_cause err_account_not_found e)
    else app (with_cause err_internal e)

abbrev pub internal_error : Error → Error
internal_error e = app (with_cause err_internal e)

abbrev pub set_column {ℓ} : {A : Type ℓ} → String → (A → Column) → Option A → List (String × Column)
set_column name column none = []
set_column name column (some a) = (name, column a) ∷ []

-- the map of Update: a nil pointer has no entry
unfoldable pub columns : UpdateAccountParams → List (String × Column)
columns p =
    ("updated_at", time_column p.updated_at)
    ∷ (set_column "first_name" text_column p.first_name
        ++ (set_column "last_name" text_column p.last_name
            ++ set_column "status" int_column p.status))

-- `if res.RowsAffected == 0`
abbrev pub affected : {S : Type 0} → ℕ → M S (Unit {0})
affected n = if nat_eq n 0 then fail (app err_account_not_found) else pure tt

-- `if n > 0`
abbrev pub when_positive : ℤ → Option ℤ
when_positive n = if is_positive n then some n else none

module _ {S : Type 0} (db : GormDb S) where
  unfoldable pub create : Account → M S String
  unfolding to_model write_error
  create e = do map_err write_error (db.create (to_model e)); pure (to_model e).id

  -- getOne
  unfoldable pub get_one : (query arg : String) → M S Account
  unfolding to_domain read_error
  get_one query arg = do m ← map_err read_error (db.first query arg); pure (to_domain m)

  unfoldable pub get_by_id : String → M S Account
  unfolding get_one
  get_by_id id = get_one "id = ?" id

  unfoldable pub get_by_email : String → M S Account
  unfolding get_one
  get_by_email email = get_one "email = ?" email

  unfoldable pub update : UpdateAccountParams → M S (Unit {0})
  unfolding columns write_error
  update p = do n ← map_err write_error (db.updates p.id (columns p)); affected n

  unfoldable pub delete : String → M S (Unit {0})
  delete id = do n ← map_err internal_error (db.delete id); affected n

  unfoldable pub list : ListAccountFilter → M S (List Account × ℤ)
  unfolding to_domain
  list f = do
    total ← map_err internal_error (db.count f.status)
    rows ←
        map_err internal_error (db.find f.status (when_positive f.limit) (when_positive f.offset))
    pure (map to_domain rows, pos total)

  -- NewAccountRepository
  abbrev pub repository : AccountRepository S
  repository = record {
    create = create;
    get_by_id = get_by_id;
    get_by_email = get_by_email;
    update = update;
    delete = delete;
    list = list;
  }
