-- ===== src/Infra/Database.antt =====
-- NewGormDB of internal/apps/provider.go, over the migrations of Migrate. GORM, its PostgreSQL
-- driver and database/sql are parameters.
use go_clean_arch_template.Prelude.{String, if◌then◌else◌}
use go_clean_arch_template.Prelude.Int.{ℤ}
use go_clean_arch_template.Effect.{M, pure, ◌>>=◌, ◌>>◌}
use go_clean_arch_template.Migrate
use go_clean_arch_template.Migrate.{run_migrations}
use go_clean_arch_template.Infra.Config.{PostgresConfig}

-- what is used of GORM and of database/sql
pub record Library {S : Type 0} (migrations : Migrate.Library S) : Type 1 where
  pub GormDb : Type 0
  -- gorm.Open, with the logger of `log_level` and TranslateError
  pub gorm_open : (dsn log_level : String) → M S GormDb
  -- DB
  pub sql_db : GormDb → M S migrations.Db
  pub set_max_open_conns : migrations.Db → ℤ → S → S
  pub set_max_idle_conns : migrations.Db → ℤ → S → S
  pub set_conn_max_lifetime : migrations.Db → ℤ → S → S

module _ {S : Type 0} (migrations : Migrate.Library S) (lib : Library migrations) where
  abbrev pub act : (S → S) → M S (Unit {0})
  act f s = pure tt (f s)

  -- the three settings of the pool
  abbrev pub limited : PostgresConfig → migrations.Db → S → S
  limited cfg db s = lib.set_conn_max_lifetime db cfg.conn_max_lifetime (
      lib.set_max_idle_conns db cfg.max_idle_conns (lib.set_max_open_conns db cfg.max_open_conns s))

  abbrev pub migrated : PostgresConfig → migrations.Db → M S (Unit {0})
  migrated cfg db =
      if cfg.migrate then run_migrations migrations db cfg.migrate_version else pure tt

  -- NewGormDB
  unfoldable pub new_gorm_db : PostgresConfig → M S lib.GormDb
  unfolding run_migrations
  new_gorm_db cfg = do
    gorm_db ← lib.gorm_open cfg.dsn "warn"
    sql_db ← lib.sql_db gorm_db
    act (limited cfg sql_db)
    migrated cfg sql_db
    pure gorm_db
