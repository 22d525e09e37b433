-- ===== src/Usecase/Races.antt =====
-- The stored accounts while other processes work on them between any two calls of a port.
use go_clean_arch_template.Prelude.{
  ℕ, String, ◌≡◌, List, [], ◌∷◌, ◌==◌, Bool-cases, inl, inr, true, false,
}
use go_clean_arch_template.Prelude.Text.{contains_code}
use go_clean_arch_template.Apperr.{app, is_error}
use go_clean_arch_template.Apperr.Catalog.{err_account_not_found}
use go_clean_arch_template.Effect.{Result, ok, err, lift, pure, ◌>>=◌}
use go_clean_arch_template.Effect.Rules.{continue_cases, map_err_cases, guard_cases, bind_cases}
use go_clean_arch_template.Domain.{Account, CreateAccountRequest, UpdateAccountRequest}
use go_clean_arch_template.Ports.Contract.{Accounts}
use go_clean_arch_template.Usecase.{
  AccountUseCase, new_account, update_params, bad_status, email_verdict, ensure_email_free,
  create_in_tx, create, get, list, update_in_tx, update, delete, validate_email, limit_request,
  internal, ensure_strong_password, Command, create_with, get_with, list_with, update_with,
  delete_with, after, serve,
}
use go_clean_arch_template.Usecase.Create.{validate_email-ok, strong_cases}
use go_clean_arch_template.Usecase.Invariant.{IsGood, IsSound, new_account-IsGood}
use go_clean_arch_template.Usecase.Disturbed.{
  disturbed, then_others, IsShared, port_P, read_P, tx_P, Created-IsSound, Updated-IsSound,
  Deleted-IsSound,
}

module _ {S : Type 0} (uc : AccountUseCase S) (view : S → Accounts) (others : S → S)
    (shared : IsShared uc view others) where
  abbrev P : {A : Type 0} → Result A × S → Type 0
  P x = IsSound (view x.1)

  abbrev among : AccountUseCase S
  among = disturbed others uc

  insert_P :
      (a : Account) (found : Result Account) (s : S)
      → IsGood a.id a
      → IsSound (view s)
      → P ((email_verdict a.email found >>= λ _. among.repo.create a) s)
  unfolding email_verdict
  insert_P a (ok b) s good h = h
  insert_P a (err fault) s good h = elim (Bool-cases (is_error fault (app err_account_not_found))) [
    | inl not_found ↦ rw not_found (
        port_P uc view others shared (uc.repo.create a) s
          (Created-IsSound uc view others shared a _ _ _ good (shared.repo.create a s) h))
    | inr other ↦ rw other h
  ]

  create_in_tx-P :
      (a : Account) (s : S) → IsGood a.id a → IsSound (view s) → P (create_in_tx among a s)
  unfolding create_in_tx ensure_email_free
  create_in_tx-P a s good h = insert_P a (uc.repo.get_by_email a.email s).0 _ good (
      read_P uc view others shared (uc.repo.get_by_email a.email) s
        (shared.repo.get_by_email_reads a.email s) h)

  create-P :
      (now : ℕ) (uuid : String) (req : CreateAccountRequest) (s : S)
      → IsSound (view s)
      → P (create among now uuid req s)
  unfolding create ensure_strong_password
  create-P now uuid req s h =
      map_err_cases P _ internal (among.limiter.limit (limit_request req)) s
        (λ verdict _.
          guard_cases P _ verdict.allowed _ s1
            (λ allowed.
              continue_cases P _ (validate_email req.email) s1
                (λ _ checked.
                  strong_cases among P _ req.password s1
                    (λ strong.
                      map_err_cases P _ internal (lift (uc.passwords.hash req.password)) s1
                        (λ hashed _.
                          let account = new_account now uuid hashed req in
                          let r = among.tx.with_tx (create_in_tx among account) s1 in
                          continue_cases P
                            (λ id. pure (record (new_account now uuid hashed req) { id = id })) r.0
                            r.1 (λ id _. inserted_P hashed (validate_email-ok req.email checked))
                            (λ e _. inserted_P hashed (validate_email-ok req.email checked)))
                        (λ e _. kept))
                    (λ e. kept))
                (λ e _. kept))
            (λ denied. kept))
        (λ e _. kept)
    where
      s1 : S
      s1 = (among.limiter.limit (limit_request req) s).1

      kept : IsSound (view s1)
      kept =
          read_P uc view others shared (uc.limiter.limit (limit_request req)) s
            (shared.limiter.limit_reads (limit_request req) s) h

      inserted_P :
          (hashed : String)
          → contains_code b'@' req.email ≡ true
          → P (among.tx.with_tx (create_in_tx among (new_account now uuid hashed req)) s1)
      inserted_P hashed email =
          let account = new_account now uuid hashed req in
          tx_P uc view others shared (create_in_tx among account) s1 kept
            (create_in_tx-P account s1 (new_account-IsGood uc now uuid hashed req email) kept)

  update_in_tx-P :
      (now : ℕ) (req : UpdateAccountRequest) (s : S)
      → bad_status req.status ≡ false
      → IsSound (view s)
      → P (update_in_tx among now req s)
  unfolding update_in_tx
  update_in_tx-P now req s fine h =
      bind_cases P _ (among.repo.update (update_params now req)) s
        (λ u _.
          read_P uc view others shared (uc.repo.get_by_id req.id) _
            (shared.repo.get_by_id_reads req.id _) written)
        (λ e _. written)
    where
      written : P (then_others others (uc.repo.update (update_params now req)) s)
      written = port_P uc view others shared (uc.repo.update (update_params now req)) s (
          Updated-IsSound uc view others shared now req _ _ _ fine
            (shared.repo.update (update_params now req) s) h)

  update-P :
      (now : ℕ) (req : UpdateAccountRequest) (s : S) → IsSound (view s) → P (update among now req s)
  unfolding update
  update-P now req s h = elim (Bool-cases (req.id == "")) [
    | inl empty ↦ rw empty h
    | inr named ↦ elim (Bool-cases (bad_status req.status)) [
      | inl bad ↦ rw (named, bad) h
      | inr fine ↦
          rw (named, fine)
            (tx_P uc view others shared (update_in_tx among now req) s h
              (update_in_tx-P now req s fine h))
    ]
  ]

  get-P : (id : String) (s : S) → IsSound (view s) → P (get among id s)
  unfolding get
  get-P id s h = elim (Bool-cases (id == "")) [
    | inl empty ↦ rw empty h
    | inr named ↦
        rw named (
          read_P uc view others shared (uc.repo.get_by_id id) s (shared.repo.get_by_id_reads id s)
            h)
  ]

  delete-P : (id : String) (s : S) → IsSound (view s) → P (delete among id s)
  unfolding delete
  delete-P id s h = elim (Bool-cases (id == "")) [
    | inl empty ↦ rw empty h
    | inr named ↦ rw named (
        tx_P uc view others shared (among.repo.delete id) s h (
          port_P uc view others shared (uc.repo.delete id) s
            (Deleted-IsSound uc view others shared id _ _ _ (shared.repo.delete id s) h)))
  ]

  after-IsSound : (c : Command) (s : S) → IsSound (view s) → IsSound (view (after among c s))
  unfolding after list
  after-IsSound (create_with now uuid req) s h = create-P now uuid req s h
  after-IsSound (get_with id) s h = get-P id s h
  after-IsSound (list_with f) s h =
      read_P uc view others shared (uc.repo.list f) s (shared.repo.list_reads f s) h
  after-IsSound (update_with now req) s h = update-P now req s h
  after-IsSound (delete_with id) s h = delete-P id s h

  -- Other processes may do anything that keeps sound accounts sound between any two calls of a
  -- port, between Create's lookup of the email and its insert too, and a rollback undoes only the
  -- process's own writes: from sound accounts, after any calls of the use case, the stored accounts
  -- are sound. Each stands under its own id with a status from 1 to 4 and an email with an "@", and
  -- no two have one email.
  pub serve_disturbed-IsSound :
      (cs : List Command) (s : S) → IsSound (view s) → IsSound (view (serve among cs s))
  unfolding serve
  serve_disturbed-IsSound [] s h = h
  serve_disturbed-IsSound (c ∷ cs) s h =
      serve_disturbed-IsSound cs (after among c s) (after-IsSound c s h)
