-- ===== src/Ports/Table.antt =====
-- What the adapters of internal/adapter/repo rely on of a database: a table of rows by primary key,
-- with a unique email, and statements that are atomic and may fail. `dom` reads a row as an account.
pub mod Keeps
use go_clean_arch_template.Prelude.{
  ℕ, String, ◌≡◌, ◌≢◌, true, false, Option, none, some, ◌==◌, if◌then◌else◌, nat_eq,
}
use go_clean_arch_template.Apperr.{AppError, Error, app, is_error}
use go_clean_arch_template.Apperr.Catalog.{err_account_not_found}
use go_clean_arch_template.Effect.{Result, ok, err, M, pure, fail}
use go_clean_arch_template.Domain.{Account}

-- An error of a database or its driver: no AppError is in its chain.
abbrev pub IsForeign : Error → Type 0
IsForeign e = (t : AppError) → is_error e (app t) ≡ false

abbrev pub Table : Type 0 → Type 0
Table R = String → Option R

module _ {R : Type 0} where
  abbrev pub put : String → Option R → Table R → Table R
  put id row t j = if id == j then row else t j

  -- UPDATE and DELETE by primary key, to `row` of the row that is there; the result is the count.
  pub data Changes (id : String) (row : R → Option R) (t u : Table R) : Result ℕ → Type 0 where
    changes : (r : R) → t id ≡ some r → u ≡ put id (row r) t → Changes id row t u (ok 1)
    changes_none : t id ≡ none → u ≡ t → Changes id row t u (ok 0)
    change_fails : (e : Error) → IsForeign e → u ≡ t → Changes id row t u (err e)

  -- One of the rows for which `P` holds; `no_rows` is the driver's sentinel.
  pub data Selects (no_rows : Error) (P : R → Type 0) (t : Table R) : Result R → Type 0 where
    selects : (id : String) (r : R) → t id ≡ some r → P r → Selects no_rows P t (ok r)
    selects_none :
        (e : Error)
        → ((id : String) (r : R) → t id ≡ some r → P r → ⊥)
        → IsForeign e
        → is_error e no_rows ≡ true
        → Selects no_rows P t (err e)
    select_fails :
        (e : Error) → IsForeign e → is_error e no_rows ≡ false → Selects no_rows P t (err e)

-- what the repositories do with the count of a statement: no row is ErrAccountNotFound
abbrev pub counted : {S : Type 0} → ℕ → M S (Unit {0})
counted n = if nat_eq n 0 then fail (app err_account_not_found) else pure tt

module _ {R : Type 0} (dom : R → Account) where
  -- INSERT under the primary key `id`
  pub data Inserts (id : String) (row : R) (t u : Table R) : Result (Unit {0}) → Type 0 where
    inserts :
        t id ≡ none
        → ((j : String) (r : R) → t j ≡ some r → (dom r).email ≢ (dom row).email)
        → u ≡ put id (some row) t
        → Inserts id row t u (ok tt)
    insert_fails : (e : Error) → IsForeign e → u ≡ t → Inserts id row t u (err e)

  abbrev pub row_account : Option R → Option Account
  row_account none = none
  row_account (some r) = some (dom r)

  -- The accounts that the rows hold.
  unfoldable pub accounts_of : Table R → String → Option Account
  accounts_of t id = row_account (t id)

  -- A row stands under its primary key.
  abbrev pub IsKeyed : Table R → Type 0
  IsKeyed t = (id : String) (r : R) → t id ≡ some r → (dom r).id ≡ id
