-- ===== src/Usecase/Create.antt =====
-- What Create of the use case does: its transaction first, then the checks before it.
use go_clean_arch_template.Prelude.{
  ℕ, String, ◌≡◌, refl, subst, true, false, arith, Bool, Bool-cases, inl, inr,
}
use go_clean_arch_template.Prelude.Text.{contains_code}
use go_clean_arch_template.Apperr.{Error, app, is_error}
use go_clean_arch_template.Apperr.Catalog.{err_weak_password, err_account_not_found}
use go_clean_arch_template.Effect.{Result, ok, err, M, lift, guard, pure, map_err, continue, ◌>>=◌}
use go_clean_arch_template.Effect.Rules.{continue_cases, map_err_cases, guard_cases}
use go_clean_arch_template.Domain.{LimitResponse, Account, CreateAccountRequest}
use go_clean_arch_template.Ports.Contract.{Accounts, Created, inserted, refused}
use go_clean_arch_template.Usecase.{
  AccountUseCase, new_account, email_verdict, ensure_email_free, create_in_tx, create,
  limit_request, validate_email, ensure_strong_password, internal,
}
use go_clean_arch_template.Usecase.Outcome.{
  IsStoring, CreateOutcome, created, rejected, Created-Transacted,
}

pub validate_email-ok :
    (email : String) → validate_email email ≡ ok tt → contains_code b'@' email ≡ true
unfolding validate_email
validate_email-ok email h = ground arith

module _ {S : Type 0} (uc : AccountUseCase S) where
  pub strong_cases :
      {B : Type 0} (P : Result B × S → Type 0) (m : M S B) (password : String) (s : S)
      → (uc.passwords.is_valid_password password ≡ ok true → P (m s))
      → ((e : Error) → P (err e, s))
      → P ((ensure_strong_password uc password >>= λ _. m) s)
  unfolding ensure_strong_password
  strong_cases {B} P m password s good bad =
      by_verdict (uc.passwords.is_valid_password password) good
    where
      by_verdict :
          (r : Result Bool)
          → (r ≡ ok true → P (m s))
          → P (
              (map_err internal (lift r)
                  >>= (λ strong. guard strong (app err_weak_password))
                  >>= λ _. m)
                s)
      by_verdict (ok true) g = g refl
      by_verdict (ok false) g = bad _
      by_verdict (err e) g = bad _

module _ {S : Type 0} (uc : AccountUseCase S) (view : S → Accounts)
    (storing : IsStoring uc view) where
  -- The insert after the switch on the lookup's result, whatever the lookup returned.
  insert_after_lookup :
      (a : Account) (v : Accounts) (found : Result Account) (s : S)
      → view s ≡ v
      → let t : Result String × S = (email_verdict a.email found >>= λ _. uc.repo.create a) s in
        Created a v (view t.1) t.0
  unfolding email_verdict
  insert_after_lookup a v (ok b) s e = refused _ e
  insert_after_lookup a v (err fault) s e =
      elim (Bool-cases (is_error fault (app err_account_not_found))) [
        | inl not_found ↦ rw not_found (
            subst (λ x. Created a x (view (uc.repo.create a s).1) (uc.repo.create a s).0) e
              (storing.repo.create a s))
        | inr other ↦ rw other (refused fault e)
      ]

  create_in_tx-Created :
      (a : Account) (s : S)
      → Created a (view s) (view (create_in_tx uc a s).1) (create_in_tx uc a s).0
  unfolding create_in_tx ensure_email_free
  create_in_tx-Created a s =
      insert_after_lookup a (view s) (uc.repo.get_by_email a.email s).0
        (uc.repo.get_by_email a.email s).1 (storing.repo.get_by_email_reads a.email s)

  tx-Created :
      (a : Account) (v : Accounts) (s : S)
      → view s ≡ v
      → Created a v
          (view (uc.tx.with_tx (create_in_tx uc a) s).1)
          (uc.tx.with_tx (create_in_tx uc a) s).0
  tx-Created a v s e =
      let t : Result String × S = uc.tx.with_tx (create_in_tx uc a) s in
      subst (λ x. Created a x (view t.1) t.0) e
        (Created-Transacted (create_in_tx-Created a s) (storing.tx.atomic (create_in_tx uc a) s))

  -- What Create returns once the transaction is over.
  create_after_tx :
      (now : ℕ) (uuid hashed : String) (req : CreateAccountRequest) (v : Accounts)
      (limited : Result LimitResponse) (verdict : LimitResponse) (r : Result String) (s : S)
      → limited ≡ ok verdict
      → verdict.allowed ≡ true
      → contains_code b'@' req.email ≡ true
      → uc.passwords.is_valid_password req.password ≡ ok true
      → uc.passwords.hash req.password ≡ ok hashed
      → Created (new_account now uuid hashed req) v (view s) r
      → let t = continue r (λ id. pure (record (new_account now uuid hashed req) { id = id })) s in
        CreateOutcome uc now uuid req limited v (view t.1) t.0
  unfolding new_account
  create_after_tx now uuid hashed req v limited verdict r s asked allowed email strong hash
        (inserted new free e) =
      created verdict hashed asked allowed email strong hash new free e
  create_after_tx now uuid hashed req v limited verdict r s asked allowed email strong hash
        (refused fault e) =
      rejected fault e

  -- Create returns the account that it stored, under a new id and with an email that was free, after
  -- every check has passed: the limiter's verdict for the request allowed it, the email has an
  -- at sign, the password is strong and could be hashed; or it returns an error and leaves the stored accounts as they were,
  -- whichever call failed, the commit included.
  pub create-CreateOutcome :
      (now : ℕ) (uuid : String) (req : CreateAccountRequest) (s : S)
      → CreateOutcome uc now uuid req
          (uc.limiter.limit (limit_request req) s).0
          (view s)
          (view (create uc now uuid req s).1)
          (create uc now uuid req s).0
  unfolding create ensure_strong_password
  create-CreateOutcome now uuid req s =
      map_err_cases P _ internal (uc.limiter.limit (limit_request req)) s
        (λ verdict limited.
          guard_cases P _ verdict.allowed _ s1
            (λ allowed.
              continue_cases P _ (validate_email req.email) s1
                (λ _ checked.
                  strong_cases uc P _ req.password s1
                    (λ strong.
                      map_err_cases P _ internal (lift (uc.passwords.hash req.password)) s1
                        (λ hashed hash.
                          create_after_tx now uuid hashed req (view s) _ verdict _ _ limited allowed
                            (validate_email-ok req.email checked) strong hash
                            (tx-Created (new_account now uuid hashed req) (view s) s1 kept))
                        (λ e failed. rejected (internal e) kept))
                    (λ e. rejected e kept))
                (λ e failed. rejected e kept))
            (λ denied. rejected _ kept))
        (λ e failed. rejected (internal e) kept)
    where
      P : Result Account × S → Type 0
      P t =
          CreateOutcome uc now uuid req (uc.limiter.limit (limit_request req) s).0 (view s)
            (view t.1) t.0

      s1 : S
      s1 = (uc.limiter.limit (limit_request req) s).1

      kept : view s1 ≡ view s
      kept = storing.limiter.limit_reads (limit_request req) s
