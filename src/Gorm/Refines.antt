-- ===== src/Gorm/Refines.antt =====
-- The GORM repository keeps the contract of a repository.
use go_clean_arch_template.Prelude.{
  false, ℕ, String, ◌≡◌, ◌≢◌, refl, sym, ap, ◌∙◌, Option, none, some, List,
}
use go_clean_arch_template.Apperr.{Error, app, is_error}
use go_clean_arch_template.Apperr.Catalog.{err_account_not_found}
use go_clean_arch_template.Effect.{Result, ok, err, continue, map_result, pure}
use go_clean_arch_template.Effect.Rules.{map_err_cases}
use go_clean_arch_template.Prelude.Int.{ℤ}
use go_clean_arch_template.Domain.{Account, UpdateAccountParams, ListAccountFilter}
use go_clean_arch_template.Ports.Contract.{
  Accounts, store, IsFree, Created, inserted, refused, Fetched, FetchedBy, Updated, Deleted,
  IsRepository,
}
use go_clean_arch_template.Gorm
use go_clean_arch_template.Gorm.Mapping.{
  row_to_domain, accounts_of, accounts_of-put, to_domain-assign_all, row_of_account,
}
use go_clean_arch_template.Gorm.Faults.{
  write_error-is_other, read_error-none, read_error-is_other, internal-is_other, IsNotFound-is,
}
use go_clean_arch_template.Gorm.{
  when_positive, get_one, AccountModel, GormDb, to_model, to_domain, columns, read_error,
  write_error, internal_error, repository, affected, err_record_not_found, err_duplicated_key,
}
use go_clean_arch_template.Gorm.Contract.{
  Rows, assign_all, Inserts, inserts, insert_fails, Selects, selects, selects_none, select_fails,
  Changes, changes, changes_none, change_fails, IsGorm,
}

module _ {S : Type 0} (db : GormDb S) (rows : S → Rows) (laws : IsGorm db rows) where
  abbrev view : S → Accounts
  view s = accounts_of (rows s)

  -- a row that no model has is a free email
  IsFree-of_rows :
      (email : String) (t : Rows)
      → ((id : String) (m : AccountModel) → t id ≡ some m → m.email ≢ email)
      → IsFree email (accounts_of t)
  unfolding accounts_of to_domain
  IsFree-of_rows email t free id b h e =
      let (m, at, same) = row_of_account (t id) b h in free id m at (ap (λ x. x.email) same ∙ e)

  create-Created :
      (a : Account) (t : Rows) (r : Result (Unit {0})) (s : S)
      → Inserts (to_model a) t (rows s) r
      → let u : Result String × S = continue (map_result write_error r) (λ _. pure a.id) s in
        Created a (accounts_of t) (view u.1) u.0
  unfolding accounts_of to_model to_domain
  create-Created a t _ s (inserts new free stored) =
      inserted (ap row_to_domain new) (IsFree-of_rows a.email t free)
        (ap accounts_of stored ∙ accounts_of-put a.id (some (to_model a)) t)
  create-Created a t _ s (insert_fails e foreign same) =
      refused (write_error e) (ap accounts_of same)

  create-fault :
      (a : Account) (t : Rows) (r : Result (Unit {0})) (s : S)
      → Inserts (to_model a) t (rows s) r
      → (e : Error) → (continue (map_result write_error r) (λ _. pure {S = S} a.id) s).0 ≡ err e
      → is_error e (app err_account_not_found) ≡ false
  create-fault a t _ s (inserts new free stored) e h = cc
  create-fault a t _ s (insert_fails fault foreign same) e h =
      let hidden = write_error-is_other fault foreign in cc

  fetched :
      (id : String) (t : Rows) (r : Result AccountModel) (s : S)
      → ((m : AccountModel) → t id ≡ some m → m.id ≡ id)
      → Selects (λ m. m.id ≡ id) t r
      → Fetched
          (accounts_of t id)
          (continue (map_result read_error r) (λ m. pure (to_domain m)) s).0
  unfolding accounts_of
  fetched id t _ s key (selects m at p) =
      Fetched.hit (to_domain m) (ap (λ j. row_to_domain (t j)) (sym p) ∙ ap row_to_domain at)
  fetched id t _ s key (selects_none e no_row foreign nf) =
      Fetched.miss (read_error e) (no_account (t id) key (no_row id)) (read_error-none e nf)
    where
      no_account :
          (o : Option AccountModel)
          → ((m : AccountModel) → o ≡ some m → m.id ≡ id)
          → ((m : AccountModel) → o ≡ some m → m.id ≡ id → ⊥)
          → row_to_domain o ≡ none
      no_account none k n = refl
      no_account (some m) k n = absurd (n m refl (k m refl))
  fetched id t _ s key (select_fails e foreign other) =
      Fetched.broken (read_error e) (read_error-is_other e foreign other)

  fetched_by :
      (email : String) (t : Rows) (r : Result AccountModel) (s : S)
      → Selects (λ m. m.email ≡ email) t r
      → FetchedBy email
          (accounts_of t)
          (continue (map_result read_error r) (λ m. pure (to_domain m)) s).0
  unfolding accounts_of to_domain
  fetched_by email t _ s (selects m at p) = FetchedBy.hit (to_domain m) (ap row_to_domain at) p
  fetched_by email t _ s (selects_none e no_row foreign nf) =
      FetchedBy.miss (read_error e) (IsFree-of_rows email t no_row) (read_error-none e nf)
  fetched_by email t _ s (select_fails e foreign other) =
      FetchedBy.broken (read_error e) (read_error-is_other e foreign other)

  update-Updated :
      (p : UpdateAccountParams) (t : Rows) (r : Result ℕ) (s : S)
      → Changes p.id (λ m. some (assign_all (columns p) m)) t (rows s) r
      → let u : Result (Unit {0}) × S = continue (map_result write_error r) affected s in
        Updated p (accounts_of t) (view u.1) u.0
  unfolding accounts_of
  update-Updated p t _ s (changes m at stored) =
      Updated.written (to_domain m) (ap row_to_domain at) (
        ap accounts_of stored
        ∙ accounts_of-put p.id (some (assign_all (columns p) m)) t
        ∙ ap (λ a. store p.id (some a) (accounts_of t)) (to_domain-assign_all p m))
  update-Updated p t _ s (changes_none gone same) =
      Updated.missing (app err_account_not_found) (ap row_to_domain gone) IsNotFound-is
        (ap accounts_of same)
  update-Updated p t _ s (change_fails e foreign same) =
      Updated.broken (write_error e) (write_error-is_other e foreign) (ap accounts_of same)

  delete-Deleted :
      (id : String) (t : Rows) (r : Result ℕ) (s : S)
      → Changes id (λ m. none) t (rows s) r
      → let u : Result (Unit {0}) × S = continue (map_result internal_error r) affected s in
        Deleted id (accounts_of t) (view u.1) u.0
  unfolding accounts_of
  delete-Deleted id t _ s (changes m at stored) =
      Deleted.removed (to_domain m) (ap row_to_domain at)
        (ap accounts_of stored ∙ accounts_of-put id none t)
  delete-Deleted id t _ s (changes_none gone same) =
      Deleted.missing (app err_account_not_found) (ap row_to_domain gone) IsNotFound-is
        (ap accounts_of same)
  delete-Deleted id t _ s (change_fails e foreign same) =
      Deleted.broken (internal_error e) (internal-is_other e foreign) (ap accounts_of same)

  after_read :
      {A B : Type 0} (f : Error → Error) (g : A → B) (r : Result A) (s : S)
      → (continue (map_result f r) (λ a. pure (g a)) s).1 ≡ s
  after_read f g (ok a) s = refl
  after_read f g (err e) s = refl

  get_one_reads : (query arg : String) (s : S) → rows (get_one db query arg s).1 ≡ rows s
  unfolding get_one
  get_one_reads query arg s =
      let t : Result AccountModel × S = db.first query arg s in
      ap rows (after_read read_error to_domain t.0 t.1) ∙ laws.first_reads query arg s

  list_reads : (f : ListAccountFilter) (s : S) → rows (Gorm.list db f s).1 ≡ rows s
  unfolding Gorm.list
  list_reads f s =
      map_err_cases P _ internal_error (db.count f.status) s
        (λ total _.
          map_err_cases P _ internal_error (db.find f.status _ _) s' (λ found _. again)
            (λ e _. again))
        (λ e _. laws.count_reads f.status s)
    where
      P : Result (List Account × ℤ) × S → Type 0
      P t = rows t.1 ≡ rows s

      s' : S
      s' = (db.count f.status s).1

      again : rows (db.find f.status (when_positive f.limit) (when_positive f.offset) s').1 ≡ rows s
      again = laws.find_reads f.status _ _ s' ∙ laws.count_reads f.status s

  -- The GORM repository keeps the contract of a repository: over the accounts that the rows hold,
  -- Create inserts under a new id and a free email, the two reads return what is stored or
  -- ErrAccountNotFound, Update replaces exactly the given fields, Delete removes one account, every
  -- failed statement changes nothing, and a failure of the backend is never ErrAccountNotFound.
  pub repository-IsRepository : IsRepository (repository db) view
  unfolding Gorm.create Gorm.get_by_id Gorm.get_by_email Gorm.get_one Gorm.update Gorm.delete
  repository-IsRepository = record {
    create = λ a s. create-Created a (rows s) _ _ (laws.create (to_model a) s);
    create_fault = λ a s. create-fault a (rows s) _ _ (laws.create (to_model a) s);
    get_by_id = λ id s. fetched id (rows s) _ _ (λ m at. laws.keyed s id m at) (laws.first_id id s);
    get_by_id_reads = λ id s. ap accounts_of (get_one_reads "id = ?" id s);
    get_by_email = λ email s. fetched_by email (rows s) _ _ (laws.first_email email s);
    get_by_email_reads = λ email s. ap accounts_of (get_one_reads "email = ?" email s);
    update = λ p s. update-Updated p (rows s) _ _ (laws.updates p.id (columns p) s);
    delete = λ id s. delete-Deleted id (rows s) _ _ (laws.delete id s);
    list_reads = λ f s. ap accounts_of (list_reads f s);
  }
