-- ===== src/Infra/Opened.antt =====
-- What NewGormDB leaves behind: the schema, and the databases that are open.
use go_clean_arch_template.Prelude.{
  ℕ, suc, String, Bool, true, false, ◌≡◌, refl, sym, ◌∙◌, subst, Bool-cases, inl, inr,
  if◌then◌else◌,
}
use go_clean_arch_template.Prelude.Int.{ℤ}
use go_clean_arch_template.Apperr.{Error, wrapped}
use go_clean_arch_template.Effect.{Result, ok, err, M, pure, continue, ◌>>◌}
use go_clean_arch_template.Effect.Rules.{bind_cases}
use go_clean_arch_template.Effect.Keeps.{Keeps}
use go_clean_arch_template.Migrate
use go_clean_arch_template.Migrate.{run_migrations}
use go_clean_arch_template.Migrate.Applied.{
  IsMigrating, Migrated, reached, failed, Raised, target, run_migrations-IsOutcome,
}
use go_clean_arch_template.Infra.Config.{PostgresConfig}
use go_clean_arch_template.Infra.Database.{Library, new_gorm_db, migrated, limited}

-- What is relied on: `schema` and `handles` are those of the migrations.
pub record IsOpening {S : Type 0} (migrations : Migrate.Library S) (lib : Library migrations)
    (schema handles : S → ℕ) : Type 0 where
  pub open_schema : (dsn level : String) → Keeps schema (lib.gorm_open dsn level)
  pub open_ok :
      (dsn level : String) (s : S) (db : lib.GormDb)
      → (lib.gorm_open dsn level s).0 ≡ ok db
      → handles (lib.gorm_open dsn level s).1 ≡ suc (handles s)
  pub sql_schema : (db : lib.GormDb) → Keeps schema (lib.sql_db db)
  pub sql_handles : (db : lib.GormDb) → Keeps handles (lib.sql_db db)
  -- the settings of the pool change neither
  pub max_open_schema :
      (db : migrations.Db) (n : ℤ) (s : S) → schema (lib.set_max_open_conns db n s) ≡ schema s
  pub max_open_handles :
      (db : migrations.Db) (n : ℤ) (s : S) → handles (lib.set_max_open_conns db n s) ≡ handles s
  pub max_idle_schema :
      (db : migrations.Db) (n : ℤ) (s : S) → schema (lib.set_max_idle_conns db n s) ≡ schema s
  pub max_idle_handles :
      (db : migrations.Db) (n : ℤ) (s : S) → handles (lib.set_max_idle_conns db n s) ≡ handles s
  pub lifetime_schema :
      (db : migrations.Db) (n : ℤ) (s : S) → schema (lib.set_conn_max_lifetime db n s) ≡ schema s
  pub lifetime_handles :
      (db : migrations.Db) (n : ℤ) (s : S) → handles (lib.set_conn_max_lifetime db n s) ≡ handles s

-- the schema that the configuration asks for, `now` if it asks for none
abbrev pub wanted : (latest : ℕ) → PostgresConfig → (now : ℕ) → ℕ
wanted latest cfg now = if cfg.migrate then target latest cfg.migrate_version else now

module _ {S : Type 0} (migrations : Migrate.Library S) (lib : Library migrations)
    (schema handles : S → ℕ) (latest : ℕ) (migrating : IsMigrating migrations schema handles latest)
    (laws : IsOpening migrations lib schema handles) where
  -- NewGormDB opened the database at the schema that is wanted; or it could not open it; or it
  -- failed later, with an error of GORM or of the migrations, and left the database open.
  pub data Opened (cfg : PostgresConfig) (s : S) : Result lib.GormDb × S → Type 0 where
    opened :
        (db : lib.GormDb) (t : S)
        → schema t ≡ wanted latest cfg (schema s)
        → handles t ≡ suc (handles s)
        → Opened cfg s (ok db, t)
    unopened :
        (e : Error) (t : S)
        → (lib.gorm_open cfg.dsn "warn" s).0 ≡ err e
        → (lib.gorm_open cfg.dsn "warn" s).1 ≡ t
        → schema t ≡ schema s
        → Opened cfg s (err e, t)
    no_pool :
        (e : Error) (db : lib.GormDb) (u t : S)
        → (lib.sql_db db u).0 ≡ err e
        → schema t ≡ schema s
        → handles t ≡ suc (handles s)
        → Opened cfg s (err e, t)
    unmigrated :
        (text : String) (e : Error) (t : S)
        → cfg.migrate ≡ true
        → Raised migrations e
        → handles t ≡ suc (handles s)
        → Opened cfg s (err (wrapped text e), t)

  limited-schema :
      (cfg : PostgresConfig) (db : migrations.Db) (s : S)
      → schema (limited migrations lib cfg db s) ≡ schema s
  limited-schema cfg db s =
      laws.lifetime_schema db _ _ ∙ laws.max_idle_schema db _ _ ∙ laws.max_open_schema db _ s

  limited-handles :
      (cfg : PostgresConfig) (db : migrations.Db) (s : S)
      → handles (limited migrations lib cfg db s) ≡ handles s
  limited-handles cfg db s =
      laws.lifetime_handles db _ _ ∙ laws.max_idle_handles db _ _ ∙ laws.max_open_handles db _ s

  -- the result of the migrations as that of NewGormDB
  finished :
      (cfg : PostgresConfig) (s t : S) (db : lib.GormDb) (r : Result (Unit {0}))
      → cfg.migrate ≡ true
      → Migrated migrations (target latest cfg.migrate_version) (schema t) r
      → handles t ≡ suc (handles s)
      → Opened cfg s (continue r (λ u. pure db) t)
  finished cfg s t db _ asked (reached h) n = opened db t (h ∙ sym (rw asked refl)) n
  finished cfg s t db _ asked (failed text e raised) n = unmigrated text e t asked raised n

  rest-Opened :
      (cfg : PostgresConfig) (s u : S) (db : lib.GormDb) (sql : migrations.Db)
      → schema u ≡ schema s
      → handles u ≡ suc (handles s)
      → Opened cfg s ((migrated migrations lib cfg sql >> pure db) u)
  rest-Opened cfg s u db sql same n = elim (Bool-cases cfg.migrate) [
    | inl asked ↦
        let o =
          run_migrations-IsOutcome migrations schema handles latest migrating sql
            cfg.migrate_version (suc (handles s)) u n in
        subst (λ m. Opened cfg s ((m >> pure db) u))
          (sym (chosen true asked (run_migrations migrations sql cfg.migrate_version)))
          (finished cfg s _ db _ asked o.result o.open_dbs)
    | inr left ↦
        subst (λ m. Opened cfg s ((m >> pure db) u))
          (sym (chosen false left (run_migrations migrations sql cfg.migrate_version)))
          (opened db u (same ∙ sym (rw left refl)) n)
  ]
    where
      chosen :
          (b : Bool)
          → cfg.migrate ≡ b
          → (m : M S (Unit {0})) → (if cfg.migrate then m else pure tt) ≡ (if b then m else pure tt)
      chosen b h m = rw h refl

  -- NewGormDB either returns an open database whose schema, if the configuration has it migrated,
  -- is at the configured version, the latest if that is zero, and else is as it was; or it returns
  -- an error: that of gorm.Open, and everything is as gorm.Open left it, or a later one, of the pool
  -- or of the migrations, and then the database that it had opened is still open.
  pub new_gorm_db-Opened :
      (cfg : PostgresConfig) (s : S) → Opened cfg s (new_gorm_db migrations lib cfg s)
  unfolding new_gorm_db
  new_gorm_db-Opened cfg s =
      bind_cases (Opened cfg s) _ (lib.gorm_open cfg.dsn "warn") s
        (λ db fine.
          bind_cases (Opened cfg s) _ (lib.sql_db db) _
            (λ sql _.
              rest-Opened cfg s _ db sql
                (limited-schema cfg sql _ ∙ laws.sql_schema db _ ∙ laws.open_schema _ _ s)
                (limited-handles cfg sql _ ∙ laws.sql_handles db _ ∙ laws.open_ok _ _ s db fine))
            (λ e bad.
              no_pool e db _ _ bad (laws.sql_schema db _ ∙ laws.open_schema _ _ s)
                (laws.sql_handles db _ ∙ laws.open_ok _ _ s db fine)))
        (λ e bad. unopened e _ bad refl (laws.open_schema _ _ s))
