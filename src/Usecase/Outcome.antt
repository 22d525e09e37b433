-- ===== src/Usecase/Outcome.antt =====
-- The contract of the account use case: what each operation returns and leaves stored.
use go_clean_arch_template.Prelude.{ℕ, String, ◌≡◌, true, false, none, some, ◌∙◌}
use go_clean_arch_template.Prelude.Text.{contains_code}
use go_clean_arch_template.Apperr.{Error}
use go_clean_arch_template.Effect.{Result, ok, err}
use go_clean_arch_template.Domain.{
  LimitResponse, Account, CreateAccountRequest, UpdateAccountRequest, UpdateAccountParams,
}
use go_clean_arch_template.Ports.Contract.{
  Accounts, store, patch, IsFree, Created, inserted, refused, Transacted, committed, not_committed,
  rolled_back, IsRepository, IsStore, IsRepository-IsStore, IsTxManager, IsRateLimiter,
}
use go_clean_arch_template.Usecase.{AccountUseCase, new_account, update_params, bad_status}

-- The ports of a use case keep their contracts over one view of the stored accounts.
pub record IsWired {S : Type 0} (uc : AccountUseCase S) (view : S → Accounts) : Type 1 where
  pub repo : IsRepository uc.repo view
  pub tx : IsTxManager uc.tx view
  pub limiter : IsRateLimiter uc.limiter view

-- The same with a repository whose reads are left open.
pub record IsStoring {S : Type 0} (uc : AccountUseCase S) (view : S → Accounts) : Type 1 where
  pub repo : IsStore uc.repo view
  pub tx : IsTxManager uc.tx view
  pub limiter : IsRateLimiter uc.limiter view

pub IsWired-IsStoring :
    {S : Type 0} {uc : AccountUseCase S} {view : S → Accounts} → IsWired uc view → IsStoring uc view
IsWired-IsStoring w = record { repo = IsRepository-IsStore w.repo; tx = w.tx; limiter = w.limiter }

-- Create, from the accounts `v` to `w`, where `limited` is what the limiter returned. It returns the account that it stored, under a new id and a
-- free email, after every check has passed; or it fails and stores nothing.
pub data CreateOutcome {S : Type 0} (uc : AccountUseCase S) (now : ℕ) (uuid : String)
    (req : CreateAccountRequest) (limited : Result LimitResponse) (v w : Accounts)
    : Result Account → Type 0 where
  created :
      (verdict : LimitResponse) (hashed : String)
      → limited ≡ ok verdict
      → verdict.allowed ≡ true
      → contains_code b'@' req.email ≡ true
      → uc.passwords.is_valid_password req.password ≡ ok true
      → uc.passwords.hash req.password ≡ ok hashed
      → v uuid ≡ none
      → IsFree req.email v
      → w ≡ store uuid (some (new_account now uuid hashed req)) v
      → CreateOutcome uc now uuid req limited v w (ok (new_account now uuid hashed req))
  rejected : (e : Error) → w ≡ v → CreateOutcome uc now uuid req limited v w (err e)

module _ {v w u : Accounts} where
  -- An insert in a transaction that commits or rolls back is an insert.
  pub Created-Transacted :
      {a : Account} {inner outer : Result String}
      → Created a v w inner
      → Transacted v w u inner outer
      → Created a v u outer
  Created-Transacted (inserted new free e) (committed _ c) = inserted new free (c ∙ e)
  Created-Transacted (inserted new free e) (not_committed _ fault c) = refused fault c
  Created-Transacted (refused _ e) (rolled_back _ fault keeps c) = refused fault c

-- Update, from the accounts `v` to `w`. It returns the stored account with the given fields
-- replaced, and stores that; or it fails and stores nothing.
pub data UpdateOutcome {S : Type 0} (uc : AccountUseCase S) (now : ℕ) (req : UpdateAccountRequest)
    (v w : Accounts) : Result Account → Type 0 where
  updated :
      (a : Account)
      → bad_status req.status ≡ false
      → v req.id ≡ some a
      → w ≡ store req.id (some (patch (update_params now req) a)) v
      → UpdateOutcome uc now req v w (ok (patch (update_params now req) a))
  rejected : (e : Error) → w ≡ v → UpdateOutcome uc now req v w (err e)

-- Delete, from the accounts `v` to `w`.
pub data DeleteOutcome (id : String) (v w : Accounts) : Result (Unit {0}) → Type 0 where
  removed : (a : Account) → v id ≡ some a → w ≡ store id none v → DeleteOutcome id v w (ok tt)
  kept : (e : Error) → w ≡ v → DeleteOutcome id v w (err e)

-- The closure of Update's transaction, which may fail after it has written.
pub data Refreshed (p : UpdateAccountParams) (v w : Accounts) : Result Account → Type 0 where
  refreshed :
      (a : Account)
      → v p.id ≡ some a
      → w ≡ store p.id (some (patch p a)) v
      → Refreshed p v w (ok (patch p a))
  failed : (e : Error) → Refreshed p v w (err e)
