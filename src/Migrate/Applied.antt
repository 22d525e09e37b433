-- ===== src/Migrate/Applied.antt =====
-- What a successful run of the migrations guarantees, and that it leaves no connection behind.
use go_clean_arch_template.Prelude.{
  ℕ, suc, ◌-◌, String, Bool-cases, true, false, ◌≡◌, refl, sym, ap, ◌∙◌, subst, ltb, if◌then◌else◌,
  inl, inr, arith,
}
use go_clean_arch_template.Apperr.{Error, wrapped, is_error}
use go_clean_arch_template.Effect.{Result, ok, err}
use go_clean_arch_template.Effect.Rules.{map_err_cases}
use go_clean_arch_template.Effect.Keeps.{Keeps}
use go_clean_arch_template.Migrate.{
  Library, err_no_change, unless_no_change, apply, applied, run_migrations, run,
}

-- The migrations ended without an error, or said that there was nothing to do.
pub data IsDone : Result (Unit {0}) → Type 0 where
  changed : IsDone (ok tt)
  unchanged : (e : Error) → is_error e err_no_change ≡ true → IsDone (err e)

-- What is relied on: `schema` is the version that the database is at, `latest` that of the last
-- embedded migration, `handles` the number of databases that are open.
pub record IsMigrating {S : Type 0} (lib : Library S) (schema handles : S → ℕ) (latest : ℕ)
    : Type 0 where
  pub open_ok :
      (d dsn : String) (s : S) (db : lib.Db)
      → (lib.open_db d dsn s).0 ≡ ok db
      → handles (lib.open_db d dsn s).1 ≡ suc (handles s)
  pub open_err :
      (d dsn : String) (s : S) (e : Error)
      → (lib.open_db d dsn s).0 ≡ err e
      → handles (lib.open_db d dsn s).1 ≡ handles s
  pub close_handles : (db : lib.Db) (s : S) → handles (lib.close_db db s).1 ≡ handles s - 1
  pub close_schema : (db : lib.Db) → Keeps schema (lib.close_db db)
  pub iofs_handles : (path : String) → Keeps handles (lib.iofs_new path)
  pub driver_handles : (db : lib.Db) → Keeps handles (lib.postgres_driver db)
  pub new_handles :
      (a b : String) (src : lib.Source) (d : lib.Driver)
      → Keeps handles (lib.new_with_instance a src b d)
  pub migrate_handles : (m : lib.Migrator) (v : ℕ) → Keeps handles (lib.migrate_to m v)
  pub up_handles : (m : lib.Migrator) → Keeps handles (lib.up m)
  pub migrate_done :
      (m : lib.Migrator) (v : ℕ) (s : S)
      → IsDone (lib.migrate_to m v s).0
      → schema (lib.migrate_to m v s).1 ≡ v
  pub up_done : (m : lib.Migrator) (s : S) → IsDone (lib.up m s).0 → schema (lib.up m s).1 ≡ latest

-- The version that is asked for: zero is the latest.
abbrev pub target : (latest version : ℕ) → ℕ
target latest version = if ltb 0 version then version else latest

-- A call of the libraries failed with this error, and not because there was nothing to do.
pub data Raised {S : Type 0} (lib : Library S) (e : Error) : Type 0 where
  opening : (dsn : String) (u : S) → (lib.open_db "pgx" dsn u).0 ≡ err e → Raised lib e
  reading : (u : S) → (lib.iofs_new "." u).0 ≡ err e → Raised lib e
  connecting : (db : lib.Db) (u : S) → (lib.postgres_driver db u).0 ≡ err e → Raised lib e
  preparing :
      (src : lib.Source) (d : lib.Driver) (u : S)
      → (lib.new_with_instance "iofs" src "postgres" d u).0 ≡ err e
      → Raised lib e
  migrating :
      (m : lib.Migrator) (version : ℕ) (u : S)
      → (apply lib m version u).0 ≡ err e
      → is_error e err_no_change ≡ false
      → Raised lib e

-- A result, with the schema after it: success at the version that is asked for, or the failure of a
-- library.
pub data Migrated {S : Type 0} (lib : Library S) (target now : ℕ) : Result (Unit {0}) → Type 0 where
  reached : now ≡ target → Migrated lib target now (ok tt)
  failed :
      (text : String) (e : Error) → Raised lib e → Migrated lib target now (err (wrapped text e))

module _ {S : Type 0} (lib : Library S) (schema handles : S → ℕ) (latest : ℕ)
    (laws : IsMigrating lib schema handles latest) where
  -- the outcome of the migrations in a process that has `n` databases open
  pub record IsOutcome (version n : ℕ) (t : Result (Unit {0}) × S) : Type 0 where
    pub result : Migrated lib (target latest version) (schema t.1) t.0
    pub open_dbs : handles t.1 ≡ n

  of_IsDone :
      (goal now : ℕ) (r : Result (Unit {0}))
      → (IsDone r → now ≡ goal)
      → ((e : Error) → r ≡ err e → is_error e err_no_change ≡ false → Raised lib e)
      → Migrated lib goal now (unless_no_change r)
  of_IsDone goal now (ok u) done fault = reached (done changed)
  of_IsDone goal now (err e) done fault = elim (Bool-cases (is_error e err_no_change)) [
    | inl none ↦ rw none (reached (done (unchanged e none)))
    | inr broken ↦ rw broken (Migrated.failed "migrate: apply" e (fault e refl broken))
  ]

  applied-IsOutcome :
      (m : lib.Migrator) (version n : ℕ) (s : S)
      → handles s ≡ n
      → IsOutcome version n (applied lib m version s)
  applied-IsOutcome m version n s h = elim (Bool-cases (ltb 0 version)) [
    | inl exact ↦ rw exact (record {
      result = rw exact (
          of_IsDone version _ _ (laws.migrate_done m version s)
            (λ e r other. migrating m version s (rw exact r) other));
      open_dbs = laws.migrate_handles m version s ∙ h;
    })
    | inr newest ↦ rw newest (record {
      result = rw newest (
          of_IsDone latest _ _ (laws.up_done m s)
            (λ e r other. migrating m version s (rw newest r) other));
      open_dbs = laws.up_handles m s ∙ h;
    })
  ]

  pub run_migrations-IsOutcome :
      (db : lib.Db) (version n : ℕ) (s : S)
      → handles s ≡ n
      → IsOutcome version n (run_migrations lib db version s)
  unfolding run_migrations
  run_migrations-IsOutcome db version n s h =
      map_err_cases (IsOutcome version n) _ (wrapped "migrate: iofs source") (lib.iofs_new ".") s
        (λ src _.
          map_err_cases (IsOutcome version n) _ (wrapped "migrate: postgres driver")
            (lib.postgres_driver db) (lib.iofs_new "." s).1
            (λ driver _.
              map_err_cases (IsOutcome version n) _ (wrapped "migrate: new instance")
                (lib.new_with_instance "iofs" src "postgres" driver)
                (lib.postgres_driver db (lib.iofs_new "." s).1).1
                (λ m _. applied-IsOutcome m version n _ (laws.new_handles _ _ _ _ _ ∙ two))
                (λ e bad. record {
                  result = Migrated.failed _ e (preparing src driver _ bad);
                  open_dbs = laws.new_handles _ _ _ _ _ ∙ two;
                }))
            (λ e bad. record {
              result = Migrated.failed _ e (connecting db _ bad);
              open_dbs = two;
            }))
        (λ e bad. record { result = Migrated.failed _ e (reading _ bad); open_dbs = one })
    where
      one : handles (lib.iofs_new "." s).1 ≡ n
      one = laws.iofs_handles "." s ∙ h

      two : handles (lib.postgres_driver db (lib.iofs_new "." s).1).1 ≡ n
      two = laws.driver_handles db (lib.iofs_new "." s).1 ∙ one

  closing-IsOutcome :
      (db : lib.Db) (version n : ℕ) (r : Result (Unit {0})) (t : S)
      → IsOutcome version (suc n) (r, t)
      → IsOutcome version n (r, (lib.close_db db t).1)
  closing-IsOutcome db version n r t h = record {
    result =
        subst (λ x. Migrated lib (target latest version) x r) (sym (laws.close_schema db t))
          h.result;
    open_dbs = laws.close_handles db t ∙ ap (λ x. x - 1) h.open_dbs ∙ back;
  }
    where
      back : suc n - 1 ≡ n
      back = omega arith

  -- Run either succeeds, and the schema is at the version that is configured, the latest if that is
  -- zero; or a call of a library failed, with an error other than ErrNoChange, which Run returns
  -- wrapped. In both cases, and at whatever step it failed, as many databases are open as before.
  pub run-Migrated :
      (dsn : String) (version : ℕ) (s : S)
      → Migrated lib
          (target latest version)
          (schema (run lib dsn version s).1)
          (run lib dsn version s).0
        × (handles (run lib dsn version s).1 ≡ handles s)
  unfolding run
  run-Migrated dsn version s =
      let o : IsOutcome version (handles s) (run lib dsn version s) =
        map_err_cases (IsOutcome version (handles s)) _ (wrapped "open postgres")
          (lib.open_db "pgx" dsn) s
          (λ db opened.
            let p = run_migrations lib db version (lib.open_db "pgx" dsn s).1 in
            closing-IsOutcome db version (handles s) p.0 p.1 (
              run_migrations-IsOutcome db version (suc (handles s)) _
                (laws.open_ok "pgx" dsn s db opened)))
          (λ e failed. record {
            result = Migrated.failed _ e (opening dsn s failed);
            open_dbs = laws.open_err "pgx" dsn s e failed;
          }) in
      (o.result, o.open_dbs)
