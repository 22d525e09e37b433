-- ===== src/Tests/Migrations.antt =====
-- A database with three migrations, at the first of them.
use go_clean_arch_template.Prelude.{ℕ, ◌+◌, ◌-◌, ◌≡◌, refl, nat_eq, if◌then◌else◌, arith}
use go_clean_arch_template.Effect.{Result, ok, err}
use go_clean_arch_template.Migrate.{Library, err_no_change, run}
use go_clean_arch_template.Migrate.Applied.{IsMigrating, Migrated, target, run-Migrated}

pub record Schema : Type 0 where
  pub version : ℕ
  pub open_dbs : ℕ

-- the driver says that there is nothing to do where the schema is at the version already
abbrev go_to : ℕ → Schema → Result (Unit {0}) × Schema
go_to v s = if nat_eq s.version v then (err err_no_change, s) else (ok tt, record s { version = v })

abbrev pub migrations : Library Schema
migrations = record {
  Db = Unit {0};
  Source = Unit {0};
  Driver = Unit {0};
  Migrator = Unit {0};
  open_db = λ d dsn s. (ok tt, record s { open_dbs = s.open_dbs + 1 });
  close_db = λ db s. (ok tt, record s { open_dbs = s.open_dbs - 1 });
  iofs_new = λ path s. (ok tt, s);
  postgres_driver = λ db s. (ok tt, s);
  new_with_instance = λ a src b d s. (ok tt, s);
  migrate_to = λ m v s. go_to v s;
  up = λ m s. go_to 3 s;
}

go_to_done : (v : ℕ) (s : Schema) → (go_to v s).1.version ≡ v
go_to_done v s = ground arith

go_to_open : (v : ℕ) (s : Schema) → (go_to v s).1.open_dbs ≡ s.open_dbs
go_to_open v s = ground arith

pub migrations-IsMigrating : IsMigrating migrations (λ s. s.version) (λ s. s.open_dbs) 3
migrations-IsMigrating = record {
  open_ok = λ d dsn s db h. omega arith;
  open_err = λ d dsn s e h. cc;
  close_handles = λ db s. refl;
  close_schema = λ db s. refl;
  iofs_handles = λ path s. refl;
  driver_handles = λ db s. refl;
  new_handles = λ a b src d s. refl;
  migrate_handles = λ m v s. go_to_open v s;
  up_handles = λ m s. go_to_open 3 s;
  migrate_done = λ m v s h. go_to_done v s;
  up_done = λ m s h. go_to_done 3 s;
}

abbrev pub old : Schema
old = record { version = 1; open_dbs = 0 }

run_test : run migrations "postgres://" 2 old ≡ (ok tt, record { version = 2; open_dbs = 0 })
unfolding run
run_test = refl

run-Migrated_example :
    Migrated migrations
      (target 3 0)
      (run migrations "postgres://" 0 old).1.version
      (run migrations "postgres://" 0 old).0
    × ((run migrations "postgres://" 0 old).1.open_dbs ≡ 0)
run-Migrated_example =
    run-Migrated migrations (λ s. s.version) (λ s. s.open_dbs) 3 migrations-IsMigrating
      "postgres://" 0 old
