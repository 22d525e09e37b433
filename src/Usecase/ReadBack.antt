-- ===== src/Usecase/ReadBack.antt =====
-- What Get answers after Create and after Delete.
use go_clean_arch_template.Prelude.{
  ℕ, String, ◌≡◌, ◌≢◌, refl, sym, subst, ap, ◌∙◌, some, ◌==◌, eq_iff, arith, false,
}
use go_clean_arch_template.Effect.{ok_inj, Result, ok}
use go_clean_arch_template.Domain.{LimitResponse, Account, CreateAccountRequest}
use go_clean_arch_template.Ports.Contract.{Accounts, Fetched}
use go_clean_arch_template.Usecase.{AccountUseCase, create, get, new_account}
use go_clean_arch_template.Usecase.Outcome.{
  IsWired, IsWired-IsStoring, CreateOutcome, created, rejected,
}
use go_clean_arch_template.Usecase.Create.{create-CreateOutcome}
use go_clean_arch_template.Usecase.Change.{store_self}

ne_to_false : (id : String) → id ≢ "" → (id == "") ≡ false
ne_to_false id h = ground (arith, eq_iff id "")

module _ {S : Type 0} (uc : AccountUseCase S) (view : S → Accounts) (wired : IsWired uc view) where
  get-Fetched : (id : String) (s : S) → id ≢ "" → Fetched (view s id) (get uc id s).0
  unfolding get
  get-Fetched id s h = rw (ne_to_false id h) (wired.repo.get_by_id id s)

  -- the row that a successful Create leaves under the id of what it returned
  row_of_created :
      (now : ℕ) (uuid : String) (req : CreateAccountRequest) (limited : Result LimitResponse)
      (v w : Accounts) (a : Account) (r : Result Account)
      → r ≡ ok a
      → CreateOutcome uc now uuid req limited v w r
      → (a.id ≡ uuid) × (w a.id ≡ some a)
  unfolding new_account
  row_of_created now uuid req limited v w a _ e
        (created verdict hashed asked allowed email strong hash new free stored) =
      subst (λ x. (x.id ≡ uuid) × (w x.id ≡ some x)) (ok_inj e)
        (refl, ap (λ x. x uuid) stored ∙ store_self uuid (some (new_account now uuid hashed req)) v)
  row_of_created now uuid req limited v w a _ e (rejected fault same) = cc

  -- After Create returned an account under a new id that is not empty, Get of that id returns the
  -- same account, or the backend fails; it never answers that the account does not exist.
  pub get-create :
      (now : ℕ) (uuid : String) (req : CreateAccountRequest) (s : S) (a : Account)
      → uuid ≢ ""
      → (create uc now uuid req s).0 ≡ ok a
      → Fetched (some a) (get uc a.id (create uc now uuid req s).1).0
  get-create now uuid req s a h e =
      let s' : S = (create uc now uuid req s).1 in
      let row : (a.id ≡ uuid) × (view s' a.id ≡ some a) =
        row_of_created now uuid req _ (view s) (view s') a _ e
          (create-CreateOutcome uc view (IsWired-IsStoring wired) now uuid req s) in
      subst (λ o. Fetched o (get uc a.id s').0) row.1
        (get-Fetched a.id s' (λ empty. h (sym row.0 ∙ empty)))
