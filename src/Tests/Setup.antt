-- ===== src/Tests/Setup.antt =====
-- The theorems about the set-up, at a small environment and the database of Migrations.
use go_clean_arch_template.Prelude.{ℕ, zero, suc, ◌+◌, ◌≡◌, refl, some, arith}
use go_clean_arch_template.Prelude.Int.{pos}
use go_clean_arch_template.Apperr.{other}
use go_clean_arch_template.Effect.{ok, err, M}
use go_clean_arch_template.Gorm.{err_record_not_found}
use go_clean_arch_template.Infra.Config.{
  Config, config_defaults, postgres_defaults, get_config, unread,
}
use go_clean_arch_template.Infra.Once.{first, later, after_calls, get_config-once}
use go_clean_arch_template.Infra.Database.{Library, new_gorm_db}
use go_clean_arch_template.Infra.Opened.{IsOpening, Opened, new_gorm_db-Opened}
use go_clean_arch_template.Infra.QueryLog.{Query, trace, new_gorm_logger}
use go_clean_arch_template.Infra.Logged.{Written, trace-Written}
use go_clean_arch_template.Tests.Migrations.{migrations, migrations-IsMigrating, old}

-- the world counts the reads of the environment, and only the first one succeeds
abbrev parse : M ℕ (Config ℕ)
parse zero = (ok (config_defaults 1), 1)
parse (suc n) = (err (other "env" "read already"), suc (suc n))

get_config-once_example :
    ((get_config parse (unread parse 0)).0 ≡ first parse (parse 0).0)
    × (((get_config parse (after_calls parse 3 (unread parse 0))).0 ≡ later parse (parse 0).0)
        × ((get_config parse (after_calls parse 3 (unread parse 0))).1.world ≡ 1))
get_config-once_example = get_config-once parse 0 2

abbrev gorm : Library migrations
gorm = record {
  GormDb = Unit {0};
  gorm_open = λ dsn level s. (ok tt, record s { open_dbs = s.open_dbs + 1 });
  sql_db = λ db s. (ok tt, s);
  set_max_open_conns = λ db n s. s;
  set_max_idle_conns = λ db n s. s;
  set_conn_max_lifetime = λ db n s. s;
}

gorm-IsOpening : IsOpening migrations gorm (λ s. s.version) (λ s. s.open_dbs)
gorm-IsOpening = record {
  open_schema = λ dsn level s. refl;
  open_ok = λ dsn level s db h. omega arith;
  sql_schema = λ db s. refl;
  sql_handles = λ db s. refl;
  max_open_schema = λ db n s. refl;
  max_open_handles = λ db n s. refl;
  max_idle_schema = λ db n s. refl;
  max_idle_handles = λ db n s. refl;
  lifetime_schema = λ db n s. refl;
  lifetime_handles = λ db n s. refl;
}

new_gorm_db-Opened_example :
    Opened migrations gorm
      (λ s. s.version)
      (λ s. s.open_dbs)
      3
      migrations-IsMigrating
      gorm-IsOpening
      postgres_defaults
      old
      (new_gorm_db migrations gorm postgres_defaults old)
new_gorm_db-Opened_example =
    new_gorm_db-Opened migrations gorm (λ s. s.version) (λ s. s.open_dbs) 3 migrations-IsMigrating
      gorm-IsOpening postgres_defaults old

new_gorm_db_test :
    new_gorm_db migrations gorm postgres_defaults old
    ≡ (ok tt, record { version = 3; open_dbs = 1 })
unfolding new_gorm_db
new_gorm_db_test = refl

abbrev query : Query
query = record { sql = "SELECT 1"; rows = pos 1; elapsed = 300000000 }

trace-Written_example :
    Written query
      (some err_record_not_found)
      (trace (new_gorm_logger "warn") query (some err_record_not_found))
trace-Written_example = trace-Written query (some err_record_not_found)
