-- ===== src/Sqlc/ReadBack.antt =====
-- An account that was inserted through the sqlc repository, read again.
use go_clean_arch_template.Prelude.{
  String, false, Option, none, some, ◌≡◌, ◌⊎◌, inl, inr, refl, sym, ap, ◌∙◌, some_inj, subst,
}
use go_clean_arch_template.Prelude.Int.{to_int32}
use go_clean_arch_template.Apperr.{Error, app, is_error, with_cause}
use go_clean_arch_template.Apperr.Catalog.{err_account_not_found, err_internal}
use go_clean_arch_template.Effect.{Result, ok, err, continue, map_result, pure}
use go_clean_arch_template.Domain.{Account}
use go_clean_arch_template.Sqlc.{
  Row, CreateAccountParams, Queries, err_no_rows, to_domain, to_create_params, map_read_err,
  map_write_err, create, get_by_id,
}

-- the row that INSERT writes: deleted_at has no value
abbrev pub inserted : CreateAccountParams → Row
inserted p = record {
  id = p.id;
  email = p.email;
  first_name = p.first_name;
  last_name = p.last_name;
  password_hash = p.password_hash;
  status = p.status;
  created_at = p.created_at;
  updated_at = p.updated_at;
  deleted_at = record { time = 0; valid = false };
}

-- A read by id: the row, ErrNoRows if there is none, or another error.
pub data RowRead (found : Option Row) : Result Row → Type 0 where
  hit : (r : Row) → found ≡ some r → RowRead found (ok r)
  miss : (e : Error) → found ≡ none → RowRead found (err e)
  broken :
      (e : Error)
      → is_error e err_no_rows ≡ false
      → is_error e (app err_account_not_found) ≡ false
      → RowRead found (err e)

pub record IsQueries {S : Type 0} (queries : Queries S) (rows : S → String → Option Row)
    : Type 0 where
  pub create_account :
      (p : CreateAccountParams) (s : S)
      → (queries.create_account p s).0 ≡ ok tt
      → rows (queries.create_account p s).1 p.id ≡ some (inserted p)
  pub get_account_by_id :
      (id : String) (s : S) → RowRead (rows s id) (queries.get_account_by_id id s).0

pub to_domain-inserted :
    (a : Account)
    → a.deleted_at ≡ none
    → to_int32 a.status ≡ a.status
    → to_domain (inserted (to_create_params a)) ≡ a
unfolding to_domain to_create_params
to_domain-inserted a d e = cc (sym d, e)

not_found_in :
    (e : Error)
    → is_error e (app err_account_not_found) ≡ false
    → is_error (app (with_cause err_internal e)) (app err_account_not_found) ≡ false
unfolding is_error with_cause
not_found_in e h = h

module _ {S : Type 0} (queries : Queries S) (pg_code : Error → Option String)
    (rows : S → String → Option Row) (isQueries : IsQueries queries rows) where
  succeeded :
      (f : Error → Error) (id : String) (r : Result (Unit {0})) (s : S)
      → (continue (map_result f r) (λ _. pure id) s).0 ≡ ok id
      → (r ≡ ok tt) × ((continue (map_result f r) (λ _. pure id) s).1 ≡ s)
  succeeded f id (ok u) s h = (refl, refl)
  succeeded f id (err e) s h = cc

  created_row :
      (a : Account) (s : S)
      → (create queries pg_code a s).0 ≡ ok a.id
      → rows (create queries pg_code a s).1 a.id ≡ some (inserted (to_create_params a))
  unfolding create to_create_params
  created_row a s h =
      let p = queries.create_account (to_create_params a) s in
      let (did, same) = succeeded (map_write_err queries pg_code) a.id p.0 p.1 h in
      ap (λ t. rows t a.id) same ∙ isQueries.create_account (to_create_params a) s did

  read_back :
      (row : Row) (r : Result Row) (s : S) (o : Option Row)
      → o ≡ some row
      → RowRead o r
      → ((continue (map_result map_read_err r) (λ x. pure (to_domain x)) s).0 ≡ ok (to_domain row))
        ⊎ ((e : Error) × ((continue (map_result map_read_err r) (λ x. pure (to_domain x)) s).0
              ≡ err e)
            × (is_error e (app err_account_not_found) ≡ false))
  unfolding map_read_err
  read_back row (ok r) s o h (hit _ g) = inl (ap (λ x. ok (to_domain x)) (some_inj (sym g ∙ h)))
  read_back row (err e) s o h (miss _ g) = cc
  read_back row (err e) s o h (broken _ f g) = inr (_, refl, rw f (not_found_in e g))

  -- An account that is not marked deleted and whose status fits in an int32, once Create has
  -- inserted it, is what GetByID returns for its id, unless the read fails; the failure is not
  -- ErrAccountNotFound.
  pub get_by_id-create :
      (a : Account) (s : S)
      → a.deleted_at ≡ none
      → to_int32 a.status ≡ a.status
      → (create queries pg_code a s).0 ≡ ok a.id
      → ((get_by_id queries pg_code a.id (create queries pg_code a s).1).0 ≡ ok a)
        ⊎ ((e : Error) × ((get_by_id queries pg_code a.id (create queries pg_code a s).1).0 ≡ err e)
            × (is_error e (app err_account_not_found) ≡ false))
  unfolding get_by_id
  get_by_id-create a s d n h =
      let s' = (create queries pg_code a s).1 in
      let p = queries.get_account_by_id a.id s' in
      subst
        (λ b.
          ((get_by_id queries pg_code a.id s').0 ≡ ok b)
          ⊎ ((e : Error) × ((get_by_id queries pg_code a.id s').0 ≡ err e)
              × (is_error e (app err_account_not_found) ≡ false)))
        (to_domain-inserted a d n)
        (read_back (inserted (to_create_params a)) p.0 p.1 (rows s' a.id) (created_row a s h)
          (isQueries.get_account_by_id a.id s'))
