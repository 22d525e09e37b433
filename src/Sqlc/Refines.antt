-- ===== src/Sqlc/Refines.antt =====
-- The sqlc repository and the contract of a repository, for the accounts that the statements of
-- internal/adapter/repo/sqlc/query/account.sql can store: statuses are int32 columns, and INSERT
-- writes no deleted_at.
use go_clean_arch_template.Prelude.{false, String, ◌≡◌, refl, ap, Option, none, some, get_or}
use go_clean_arch_template.Prelude.Int.{to_int32}
use go_clean_arch_template.Apperr.{Error, app, with_cause, is_error, app_is}
use go_clean_arch_template.Apperr.Catalog.{err_account_not_found}
use go_clean_arch_template.Effect.{err, map_err}
use go_clean_arch_template.Effect.Keeps.{Keeps, bind-Keeps}
use go_clean_arch_template.Domain
use go_clean_arch_template.Domain.{Account, AccountStatus, ListAccountFilter}
use go_clean_arch_template.Ports.Contract.{
  Accounts, patch, Created, Fetched, FetchedBy, Updated, Deleted,
}
use go_clean_arch_template.Ports.Table.{Table, Inserts, Selects, Changes, IsKeyed, accounts_of}
use go_clean_arch_template.Ports.Table.Keeps.{
  Hides, Created-lem, Created-fault, Fetched-lem, FetchedBy-lem, Updated-lem, Deleted-lem, Hides-if,
  Reads-if,
}
use go_clean_arch_template.Sqlc.{
  Row, Queries, CreateAccountParams, UpdateAccountParams, err_no_rows, to_domain, to_create_params,
  to_update_params, map_read_err, map_write_err, internal_in, is_unique_violation, status_filter,
  create, get_by_id, get_by_email, update, delete, list, ListAccountsParams,
}
use go_clean_arch_template.Sqlc.ReadBack.{inserted, to_domain-inserted}

-- `COALESCE($n, column)` and `updated_at = $4` of UpdateAccount
abbrev pub coalesced : UpdateAccountParams → Row → Row
coalesced p r = record r {
  first_name = get_or p.first_name r.first_name;
  last_name = get_or p.last_name r.last_name;
  status = get_or p.status r.status;
  updated_at = p.updated_at;
}

-- What the repository relies on of PostgreSQL under the generated statements.
pub record IsPostgres {S : Type 0} (queries : Queries S) (rows : S → Table Row) : Type 0 where
  pub keyed : (s : S) → IsKeyed to_domain (rows s)
  pub create_account :
      (p : CreateAccountParams) (s : S)
      → Inserts to_domain p.id
          (inserted p)
          (rows s)
          (rows (queries.create_account p s).1)
          (queries.create_account p s).0
  pub get_account_by_id :
      (id : String) (s : S)
      → Selects err_no_rows (λ r. r.id ≡ id) (rows s) (queries.get_account_by_id id s).0
  pub get_account_by_email :
      (email : String) (s : S)
      → Selects err_no_rows (λ r. r.email ≡ email) (rows s) (queries.get_account_by_email email s).0
  -- SELECT changes no row
  pub by_id_reads : (id : String) (s : S) → rows (queries.get_account_by_id id s).1 ≡ rows s
  pub by_email_reads :
      (email : String) (s : S) → rows (queries.get_account_by_email email s).1 ≡ rows s
  pub list_reads : (p : ListAccountsParams) (s : S) → rows (queries.list_accounts p s).1 ≡ rows s
  pub count_reads :
      (status : Option AccountStatus) (s : S) → rows (queries.count_accounts status s).1 ≡ rows s
  pub update_account :
      (p : UpdateAccountParams) (s : S)
      → Changes p.id
          (λ r. some (coalesced p r))
          (rows s)
          (rows (queries.update_account p s).1)
          (queries.update_account p s).0
  pub delete_account :
      (id : String) (s : S)
      → Changes id
          (λ r. none)
          (rows s)
          (rows (queries.delete_account id s).1)
          (queries.delete_account id s).0

-- an optional status that an int32 can hold
abbrev pub FitsInt32 : Option AccountStatus → Type 0
FitsInt32 none = Unit {0}
FitsInt32 (some st) = to_int32 st ≡ st

Hides-internal_in : (text : String) → Hides (internal_in text)
unfolding is_error app_is with_cause
Hides-internal_in text e foreign = foreign err_account_not_found

get_or-status_filter :
    (o : Option AccountStatus) (st : AccountStatus)
    → FitsInt32 o
    → get_or (status_filter o) st ≡ get_or o st
unfolding status_filter
get_or-status_filter none st h = refl
get_or-status_filter (some x) st h = h

to_domain-coalesced :
    (p : Domain.UpdateAccountParams)
    → FitsInt32 p.status
    → (r : Row) → to_domain (coalesced (to_update_params p) r) ≡ patch p (to_domain r)
unfolding to_domain to_update_params
to_domain-coalesced p h r =
    ap (λ st. record (patch p (to_domain r)) { status = st })
      (get_or-status_filter p.status r.status h)

module _ {S : Type 0} (queries : Queries S) (pg_code : Error → Option String) (rows : S → Table Row)
    (laws : IsPostgres queries rows) where
  abbrev pub view : S → Accounts
  view s = accounts_of to_domain (rows s)

  Hides-map_write_err : Hides (map_write_err queries pg_code)
  unfolding map_write_err
  Hides-map_write_err = Hides-if (λ e. is_unique_violation (pg_code e))

  get_by_id_reads : (id : String) → Keeps rows (get_by_id queries pg_code id)
  unfolding get_by_id
  get_by_id_reads id =
      bind-Keeps rows _ (map_err map_read_err (queries.get_account_by_id id)) (laws.by_id_reads id)
        λ row s. refl

  get_by_email_reads : (email : String) → Keeps rows (get_by_email queries pg_code email)
  unfolding get_by_email
  get_by_email_reads email =
      bind-Keeps rows _ (map_err map_read_err (queries.get_account_by_email email))
        (laws.by_email_reads email) λ row s. refl

  list-Keeps : (f : ListAccountFilter) → Keeps rows (list queries pg_code f)
  unfolding list
  list-Keeps f =
      bind-Keeps rows _ (map_err (internal_in "list accounts") (queries.list_accounts _))
        (laws.list_reads _)
        λ found.
          bind-Keeps rows _
            (map_err (internal_in "count accounts")
              (queries.count_accounts (status_filter f.status)))
            (laws.count_reads (status_filter f.status)) λ total s. refl

  -- The sqlc repository keeps the contract of a repository for an account that is not marked
  -- deleted and statuses that fit in an int32: Create inserts under a new id and a free email, the
  -- two reads return what is stored or ErrAccountNotFound, they and List change nothing, Update
  -- replaces exactly the given fields, Delete removes one account, every failed statement changes
  -- nothing, and a failure of the database is never ErrAccountNotFound.
  pub sqlc_repository_keeps :
      (a : Account) (p : Domain.UpdateAccountParams) (id email : String) (f : ListAccountFilter)
      (s : S)
      → a.deleted_at ≡ none
      → to_int32 a.status ≡ a.status
      → FitsInt32 p.status
      → Created a (view s) (view (create queries pg_code a s).1) (create queries pg_code a s).0
        × ((e : Error)
            → (create queries pg_code a s).0 ≡ err e
            → is_error e (app err_account_not_found) ≡ false)
        × Fetched (view s id) (get_by_id queries pg_code id s).0
        × FetchedBy email (view s) (get_by_email queries pg_code email s).0
        × Updated p (view s) (view (update queries pg_code p s).1) (update queries pg_code p s).0
        × Deleted id (view s) (view (delete queries pg_code id s).1) (delete queries pg_code id s).0
        × (view (get_by_id queries pg_code id s).1 ≡ view s)
        × (view (get_by_email queries pg_code email s).1 ≡ view s)
        × (view (list queries pg_code f s).1 ≡ view s)
  unfolding create get_by_id get_by_email update delete map_read_err to_create_params
      to_update_params to_domain
  sqlc_repository_keeps a p id email f s gone fits small = (
    Created-lem to_domain rows a (inserted (to_create_params a)) (map_write_err queries pg_code)
        (rows s) _ _ (to_domain-inserted a gone fits) (laws.create_account (to_create_params a) s),
    Created-fault to_domain rows a (inserted (to_create_params a)) (map_write_err queries pg_code)
        (rows s) _ _ Hides-map_write_err (laws.create_account (to_create_params a) s),
    Fetched-lem to_domain rows err_no_rows id map_read_err (rows s) _ _ (Reads-if err_no_rows)
        (laws.keyed s) (laws.get_account_by_id id s),
    FetchedBy-lem to_domain rows err_no_rows email map_read_err (rows s) _ _ (Reads-if err_no_rows)
        (laws.keyed s) (laws.get_account_by_email email s),
    Updated-lem to_domain rows p (coalesced (to_update_params p)) (map_write_err queries pg_code)
        (rows s) _ _ Hides-map_write_err (to_domain-coalesced p small)
        (laws.update_account (to_update_params p) s),
    Deleted-lem to_domain rows id (internal_in "delete account") (rows s) _ _
        (Hides-internal_in "delete account") (laws.delete_account id s),
    ap (accounts_of to_domain) (get_by_id_reads id s),
    ap (accounts_of to_domain) (get_by_email_reads email s),
    ap (accounts_of to_domain) (list-Keeps f s),
  )
