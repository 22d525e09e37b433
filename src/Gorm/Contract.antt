-- ===== src/Gorm/Contract.antt =====
-- What the repository relies on of GORM over the accounts table, as GORM and PostgreSQL document
-- it: the primary key and the unique index on email, single statements that are atomic, the two
-- sentinels of GORM, and errors that hold no AppError. Any statement may fail.
use go_clean_arch_template.Prelude.{
  ℕ, String, ◌≡◌, ◌≢◌, true, false, Option, none, some, List, [], ◌∷◌, ◌==◌, if◌then◌else◌,
}
use go_clean_arch_template.Prelude.Int.{ℤ}
use go_clean_arch_template.Apperr.{AppError, Error, app, is_error}
use go_clean_arch_template.Effect.{Result, ok, err}
use go_clean_arch_template.Gorm.{
  AccountModel, Column, text_column, int_column, time_column, GormDb, err_record_not_found,
}

-- The rows by primary key.
abbrev pub Rows : Type 0
Rows = String → Option AccountModel

abbrev pub put : String → Option AccountModel → Rows → Rows
put id row t j = if id == j then row else t j

-- `SET name = value`
abbrev pub assign : String → Column → AccountModel → AccountModel
assign name (text_column v) m =
    if name == "first_name"
    then record m { first_name = v }
    else if name == "last_name"
    then record m { last_name = v }
    else m
assign name (int_column v) m = if name == "status" then record m { status = v } else m
assign name (time_column v) m = if name == "updated_at" then record m { updated_at = v } else m

abbrev pub assign_all : List (String × Column) → AccountModel → AccountModel
assign_all [] m = m
assign_all ((name, value) ∷ rest) m = assign_all rest (assign name value m)

-- An error of GORM or the driver: no AppError is in its chain.
abbrev pub IsForeign : Error → Type 0
IsForeign e = (t : AppError) → is_error e (app t) ≡ false

pub data Inserts (m : AccountModel) (t u : Rows) : Result (Unit {0}) → Type 0 where
  inserts :
      t m.id ≡ none
      → ((id : String) (n : AccountModel) → t id ≡ some n → n.email ≢ m.email)
      → u ≡ put m.id (some m) t
      → Inserts m t u (ok tt)
  insert_fails : (e : Error) → IsForeign e → u ≡ t → Inserts m t u (err e)

-- First of the rows for which `P` holds.
pub data Selects (P : AccountModel → Type 0) (t : Rows) : Result AccountModel → Type 0 where
  selects : (m : AccountModel) → t m.id ≡ some m → P m → Selects P t (ok m)
  selects_none :
      (e : Error)
      → ((id : String) (m : AccountModel) → t id ≡ some m → P m → ⊥)
      → IsForeign e
      → is_error e err_record_not_found ≡ true
      → Selects P t (err e)
  select_fails :
      (e : Error) → IsForeign e → is_error e err_record_not_found ≡ false → Selects P t (err e)

-- UPDATE and DELETE by primary key, to `row` of the row that is there; the result is RowsAffected.
pub data Changes (id : String) (row : AccountModel → Option AccountModel) (t u : Rows)
    : Result ℕ → Type 0 where
  changes : (m : AccountModel) → t id ≡ some m → u ≡ put id (row m) t → Changes id row t u (ok 1)
  changes_none : t id ≡ none → u ≡ t → Changes id row t u (ok 0)
  change_fails : (e : Error) → IsForeign e → u ≡ t → Changes id row t u (err e)

pub record IsGorm {S : Type 0} (db : GormDb S) (rows : S → Rows) : Type 0 where
  pub create :
      (m : AccountModel) (s : S) → Inserts m (rows s) (rows (db.create m s).1) (db.create m s).0
  -- a row stands under its primary key
  pub keyed : (s : S) (id : String) (m : AccountModel) → rows s id ≡ some m → m.id ≡ id
  pub first_id :
      (id : String) (s : S) → Selects (λ m. m.id ≡ id) (rows s) (db.first "id = ?" id s).0
  pub first_email :
      (email : String) (s : S)
      → Selects (λ m. m.email ≡ email) (rows s) (db.first "email = ?" email s).0
  pub first_reads : (query arg : String) (s : S) → rows (db.first query arg s).1 ≡ rows s
  pub updates :
      (id : String) (cs : List (String × Column)) (s : S)
      → Changes id
          (λ m. some (assign_all cs m))
          (rows s)
          (rows (db.updates id cs s).1)
          (db.updates id cs s).0
  pub delete :
      (id : String) (s : S)
      → Changes id (λ m. none) (rows s) (rows (db.delete id s).1) (db.delete id s).0
  pub count_reads : (status : Option ℤ) (s : S) → rows (db.count status s).1 ≡ rows s
  pub find_reads :
      (status limit offset : Option ℤ) (s : S) → rows (db.find status limit offset s).1 ≡ rows s
