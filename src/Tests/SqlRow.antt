-- ===== src/Tests/SqlRow.antt =====
-- The contract of the sqlc repository, over a table of one row at most.
use go_clean_arch_template.Prelude.{String, ◌≡◌, refl, Option, none, some, [], ◌==◌, eq_iff, false}
use go_clean_arch_template.Prelude.Int.{pos}
use go_clean_arch_template.Apperr.{Error, app, is_error}
use go_clean_arch_template.Apperr.Catalog.{err_account_not_found}
use go_clean_arch_template.Effect.{ok, err}
use go_clean_arch_template.Domain.{Account, UpdateAccountParams, ListAccountFilter}
use go_clean_arch_template.Gorm
use go_clean_arch_template.Ports.Contract.{Created, Fetched, FetchedBy, Updated, Deleted}
use go_clean_arch_template.Ports.Table.{accounts_of}
use go_clean_arch_template.Sqlc.{
  Row, Queries, err_no_rows, to_domain, create, get_by_id, get_by_email, update, delete, list,
  to_create_params,
}
use go_clean_arch_template.Sqlc.ReadBack.{inserted}
use go_clean_arch_template.Sqlc.Refines.{coalesced, IsPostgres, sqlc_repository_keeps}
use go_clean_arch_template.Tests.World.{jane_row}
use go_clean_arch_template.Tests.OneRow.{
  row_at, insert, choose, modify, row_at-IsKeyed, insert-Inserts, choose-Selects, modify-Changes,
}

abbrev sql_row : Queries (Option Row)
sql_row = record {
  create_account = λ p. insert to_domain (inserted p);
  get_account_by_id = λ id s. (choose to_domain err_no_rows (λ r. r.id == id) s, s);
  get_account_by_email = λ email s. (choose to_domain err_no_rows (λ r. r.email == email) s, s);
  update_account = λ p. modify to_domain p.id (λ r. some (coalesced p r));
  delete_account = λ id. modify to_domain id (λ r. none);
  list_accounts = λ p s. (ok [], s);
  count_accounts = λ status s. (ok 0, s);
}

sql_row-IsPostgres : IsPostgres sql_row (row_at to_domain)
unfolding to_domain
sql_row-IsPostgres = record {
  keyed = row_at-IsKeyed to_domain;
  create_account = λ p. insert-Inserts to_domain (inserted p);
  get_account_by_id = λ id.
      choose-Selects to_domain "no rows in result set" (λ r. r.id ≡ id) (λ r. r.id == id)
        (λ r. (eq_iff r.id id).0) (λ r. (eq_iff r.id id).1);
  get_account_by_email = λ email.
      choose-Selects to_domain "no rows in result set" (λ r. r.email ≡ email)
        (λ r. r.email == email) (λ r. (eq_iff r.email email).0) (λ r. (eq_iff r.email email).1);
  update_account = λ p. modify-Changes to_domain p.id (λ r. some (coalesced p r)) (λ r h. h);
  by_id_reads = λ id s. refl;
  by_email_reads = λ email s. refl;
  list_reads = λ p s. refl;
  count_reads = λ status s. refl;
  delete_account = λ id. modify-Changes to_domain id (λ r. none) (λ r h. tt);
}

abbrev jane_account : Account
jane_account = Gorm.to_domain jane_row

abbrev block : UpdateAccountParams
block = record {
  id = "a1";
  first_name = none;
  last_name = none;
  status = some (pos 3);
  updated_at = 8;
}

abbrev no_code : Error → Option String
no_code e = none

abbrev accounts : Option Row → String → Option Account
accounts s = accounts_of to_domain (row_at to_domain s)

abbrev jane_stored : Option Row
jane_stored = some (inserted (to_create_params jane_account))

abbrev everyone : ListAccountFilter
everyone = record { status = none; limit = pos 10; offset = pos 0 }

jane_is_there : accounts jane_stored "a1" ≡ some jane_account
unfolding accounts_of to_domain to_create_params Gorm.to_domain
jane_is_there = refl

sqlc_repository_keeps_example :
    Created jane_account
      (accounts jane_stored)
      (accounts (create sql_row no_code jane_account jane_stored).1)
      (create sql_row no_code jane_account jane_stored).0
    × ((e : Error)
        → (create sql_row no_code jane_account jane_stored).0 ≡ err e
        → is_error e (app err_account_not_found) ≡ false)
    × Fetched (accounts jane_stored "a1") (get_by_id sql_row no_code "a1" jane_stored).0
    × FetchedBy "jane@example.com"
        (accounts jane_stored)
        (get_by_email sql_row no_code "jane@example.com" jane_stored).0
    × Updated block
        (accounts jane_stored)
        (accounts (update sql_row no_code block jane_stored).1)
        (update sql_row no_code block jane_stored).0
    × Deleted "a1"
        (accounts jane_stored)
        (accounts (delete sql_row no_code "a1" jane_stored).1)
        (delete sql_row no_code "a1" jane_stored).0
    × (accounts (get_by_id sql_row no_code "a1" jane_stored).1 ≡ accounts jane_stored)
    × (accounts (get_by_email sql_row no_code "jane@example.com" jane_stored).1
        ≡ accounts jane_stored)
    × (accounts (list sql_row no_code everyone jane_stored).1 ≡ accounts jane_stored)
unfolding Gorm.to_domain
sqlc_repository_keeps_example =
    sqlc_repository_keeps sql_row no_code (row_at to_domain) sql_row-IsPostgres jane_account block
      "a1" "jane@example.com" everyone jane_stored refl refl refl
