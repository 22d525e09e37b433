-- ===== src/Migrate.antt =====
-- internal/infra/db/migrate.go and internal/apps/migrate/migrate.go. database/sql and golang-migrate
-- are parameters, and so are the configured DSN and version; log lines are left out.
pub mod Applied
use go_clean_arch_template.Prelude.{ℕ, String, Bool, if◌then◌else◌, ltb}
use go_clean_arch_template.Apperr.{Error, wrapped, sentinel, is_error}
use go_clean_arch_template.Effect.{Result, ok, err, M, map_err, ◌>>=◌}

-- what is used of database/sql and golang-migrate
pub record Library (S : Type 0) : Type 1 where
  pub Db : Type 0
  pub Source : Type 0
  pub Driver : Type 0
  pub Migrator : Type 0
  -- sql.Open
  pub open_db : (driver dsn : String) → M S Db
  pub close_db : Db → M S (Unit {0})
  -- iofs.New of the embedded files
  pub iofs_new : (path : String) → M S Source
  -- postgres.WithInstance
  pub postgres_driver : Db → M S Driver
  -- migrate.NewWithInstance
  pub new_with_instance :
      (source_name : String) → Source → (db_name : String) → Driver → M S Migrator
  -- Migrate and Up
  pub migrate_to : Migrator → (version : ℕ) → M S (Unit {0})
  pub up : Migrator → M S (Unit {0})

-- migrate.ErrNoChange
abbrev pub err_no_change : Error
err_no_change = sentinel "no change"

-- `if err != nil && !errors.Is(err, migrate.ErrNoChange)`
abbrev pub unless_no_change : Result (Unit {0}) → Result (Unit {0})
unless_no_change (ok u) = ok u
unless_no_change (err e) =
    if is_error e err_no_change then ok tt else err (wrapped "migrate: apply" e)

module _ {S : Type 0} (lib : Library S) where
  -- the choice between Migrate and Up
  abbrev pub apply : lib.Migrator → (version : ℕ) → M S (Unit {0})
  apply m version = if ltb 0 version then lib.migrate_to m version else lib.up m

  abbrev pub applied : lib.Migrator → (version : ℕ) → M S (Unit {0})
  applied m version s = let (r, s') = apply m version s in (unless_no_change r, s')

  -- RunMigrations
  unfoldable pub run_migrations : lib.Db → (version : ℕ) → M S (Unit {0})
  run_migrations db version = do
    src ← map_err (wrapped "migrate: iofs source") (lib.iofs_new ".")
    driver ← map_err (wrapped "migrate: postgres driver") (lib.postgres_driver db)
    m ←
        map_err (wrapped "migrate: new instance")
          (lib.new_with_instance "iofs" src "postgres" driver)
    applied m version

  -- `defer sqlDB.Close()`
  abbrev pub closing : lib.Db → M S (Unit {0}) → M S (Unit {0})
  closing db m s = let (r, s') = m s in (r, (lib.close_db db s').1)

  -- Run
  unfoldable pub run : (dsn : String) (version : ℕ) → M S (Unit {0})
  unfolding run_migrations
  run dsn version = do
    db ← map_err (wrapped "open postgres") (lib.open_db "pgx" dsn)
    closing db (run_migrations db version)
