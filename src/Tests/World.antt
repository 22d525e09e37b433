-- ===== src/Tests/World.antt =====
-- A world in which every parameter of the model runs: a table that holds one row at most, a cache
-- that forgets nothing, a limiter that lets everything pass.
use go_clean_arch_template.Prelude.{
  ℕ, String, true, Option, none, some, List, [], ◌∷◌, ◌==◌, if◌then◌else◌, ◌||◌, length,
}
use go_clean_arch_template.Prelude.Int.{ℤ, pos, int_eq}
use go_clean_arch_template.Apperr.{other}
use go_clean_arch_template.Effect.{Result, ok, err}
use go_clean_arch_template.Domain.{Account, CreateAccountRequest}
use go_clean_arch_template.Ports.{RateLimiter, TxManager, PasswordService}
use go_clean_arch_template.Usecase.{password_service}
use go_clean_arch_template.Gorm.{AccountModel, GormDb, err_duplicated_key, err_record_not_found}
use go_clean_arch_template.Gorm.Contract.{Rows, assign_all}
use go_clean_arch_template.Gorm.Paging.{limited, skipped}
use go_clean_arch_template.Cache.{LibCache}
use go_clean_arch_template.Cache.Contract.{Entries, entry_put}

pub record World : Type 0 where
  pub row : Option AccountModel
  pub cached : Entries Account

abbrev pub row_at : Option AccountModel → Rows
row_at none id = none
row_at (some m) id = if m.id == id then some m else none

abbrev pub rows : World → Rows
rows w = row_at w.row

abbrev pub entries : World → Entries Account
entries w = w.cached

-- a second row does not fit
abbrev pub insert : AccountModel → Option AccountModel → Result (Unit {0}) × Option AccountModel
insert m none = (ok tt, some m)
insert m (some n) = (
  err (if n.id == m.id || (n.email == m.email) then err_duplicated_key else other "driver" "full"),
  some n,
)

abbrev pub select : String → String → Option AccountModel → Result AccountModel
select query arg none = err err_record_not_found
select query arg (some m) =
    if query == "id = ?"
    then (if m.id == arg then ok m else err err_record_not_found)
    else if m.email == arg
    then ok m
    else err err_record_not_found

abbrev pub modify :
    String → (AccountModel → Option AccountModel) → Option AccountModel → ℕ × Option AccountModel
modify id f none = (0, none)
modify id f (some m) = if m.id == id then (1, f m) else (0, some m)

abbrev pub matching : Option ℤ → Option AccountModel → List AccountModel
matching status none = []
matching none (some m) = m ∷ []
matching (some s) (some m) = if int_eq m.status s then m ∷ [] else []

abbrev pub slot_db : GormDb World
slot_db = record {
  create = λ m w. let (r, row) = insert m w.row in (r, record w { row = row });
  first = λ query arg w. (select query arg w.row, w);
  updates = λ id cs w.
      let (n, row) = modify id (λ m. some (assign_all cs m)) w.row in
      (ok n, record w { row = row });
  delete = λ id w. let (n, row) = modify id (λ m. none) w.row in (ok n, record w { row = row });
  count = λ status w. (ok (length (matching status w.row)), w);
  find = λ status limit offset w. (ok (limited limit (skipped offset (matching status w.row))), w);
}

abbrev pub found : Option Account → Result Account
found none = err (other "store" "value not found")
found (some a) = ok a

abbrev pub map_cache : LibCache World Account
map_cache = record {
  get = λ k w. (found (w.cached k), w);
  set = λ k v ttl w. (ok tt, record w { cached = entry_put k (some v) w.cached });
  delete = λ k w. (ok tt, record w { cached = entry_put k none w.cached });
}

-- a transaction that commits what its closure did, and rolls back the row if the closure failed
abbrev pub settle : {A : Type 0} → World → Result A → World → Result A × World
settle before (ok a) w = (ok a, w)
settle before (err e) w = (err e, record w { row = before.row })

abbrev pub slot_tx : TxManager World
slot_tx = record { with_tx = λ m w. let (r, w') = m w in settle w r w' }

abbrev pub open_limiter : RateLimiter World
open_limiter = record {
  limit = λ q w. (ok (record { allowed = true; remaining = pos 4; retry_after = pos 0 }), w);
}

abbrev pub plain_passwords : PasswordService
plain_passwords = password_service (λ p. ok "hashed")

abbrev pub empty_world : World
empty_world = record { row = none; cached = λ k. none }

abbrev pub jane : CreateAccountRequest
jane = record {
  email = "jane@example.com";
  password = "s3cretpw";
  first_name = "Jane";
  last_name = "Doe";
  status = pos 0;
}

abbrev pub jane_row : AccountModel
jane_row = record {
  id = "a1";
  email = "jane@example.com";
  first_name = "Jane";
  last_name = "Doe";
  password_hash = "hashed";
  status = pos 1;
  created_at = 7;
  updated_at = 7;
  deleted_at = none;
}

abbrev pub jane_world : World
jane_world = record { row = some jane_row; cached = λ k. none }
