-- ===== src/Ports/Contract.antt =====
-- What the core relies on: the contract of a repository, over the accounts that it stores by id,
-- and of the transaction manager and the rate limiter beside it.
use go_clean_arch_template.Prelude.{
  String, ◌≡◌, ◌≢◌, true, false, Option, none, some, ◌==◌, if◌then◌else◌, get_or,
}
use go_clean_arch_template.Apperr.{AppError, Error, app, is_error}
use go_clean_arch_template.Apperr.Catalog.{err_account_not_found}
use go_clean_arch_template.Effect.{Result, ok, err, M}
use go_clean_arch_template.Domain.{Account, UpdateAccountParams, ListAccountFilter, LimitRequest}
use go_clean_arch_template.Ports.{AccountRepository, RateLimiter, TxManager}

-- The stored accounts by id.
abbrev pub Accounts : Type 0
Accounts = String → Option Account

abbrev pub store : String → Option Account → Accounts → Accounts
store id row v j = if id == j then row else v j

-- The partial update: a nil pointer leaves its field.
abbrev pub patch : UpdateAccountParams → Account → Account
patch p a = record a {
  first_name = get_or p.first_name a.first_name;
  last_name = get_or p.last_name a.last_name;
  status = get_or p.status a.status;
  updated_at = p.updated_at;
}

abbrev pub IsFree : String → Accounts → Type 0
IsFree email v = (id : String) (a : Account) → v id ≡ some a → a.email ≢ email

abbrev pub IsNotFound : Error → Type 0
IsNotFound e = is_error e (app err_account_not_found) ≡ true

-- GetByID: the account, or ErrAccountNotFound if there is none, or a failure of the backend.
pub data Fetched (found : Option Account) : Result Account → Type 0 where
  hit : (a : Account) → found ≡ some a → Fetched found (ok a)
  miss : (e : Error) → found ≡ none → IsNotFound e → Fetched found (err e)
  broken : (e : Error) → is_error e (app err_account_not_found) ≡ false → Fetched found (err e)

pub data FetchedBy (email : String) (v : Accounts) : Result Account → Type 0 where
  hit : (a : Account) → v a.id ≡ some a → a.email ≡ email → FetchedBy email v (ok a)
  miss : (e : Error) → IsFree email v → IsNotFound e → FetchedBy email v (err e)
  broken : (e : Error) → is_error e (app err_account_not_found) ≡ false → FetchedBy email v (err e)

-- Create from the accounts `v` to `w`.
pub data Created (a : Account) (v w : Accounts) : Result String → Type 0 where
  inserted : v a.id ≡ none → IsFree a.email v → w ≡ store a.id (some a) v → Created a v w (ok a.id)
  refused : (e : Error) → w ≡ v → Created a v w (err e)

pub data Updated (p : UpdateAccountParams) (v w : Accounts) : Result (Unit {0}) → Type 0 where
  written :
      (a : Account) → v p.id ≡ some a → w ≡ store p.id (some (patch p a)) v → Updated p v w (ok tt)
  missing : (e : Error) → v p.id ≡ none → IsNotFound e → w ≡ v → Updated p v w (err e)
  broken :
      (e : Error) → is_error e (app err_account_not_found) ≡ false → w ≡ v → Updated p v w (err e)

pub data Deleted (id : String) (v w : Accounts) : Result (Unit {0}) → Type 0 where
  removed : (a : Account) → v id ≡ some a → w ≡ store id none v → Deleted id v w (ok tt)
  missing : (e : Error) → v id ≡ none → IsNotFound e → w ≡ v → Deleted id v w (err e)
  broken :
      (e : Error) → is_error e (app err_account_not_found) ≡ false → w ≡ v → Deleted id v w (err e)

pub record IsRepository {S : Type 0} (repo : AccountRepository S) (view : S → Accounts)
    : Type 0 where
  pub create :
      (a : Account) (s : S) → Created a (view s) (view (repo.create a s).1) (repo.create a s).0
  pub create_fault :
      (a : Account) (s : S) (e : Error)
      → (repo.create a s).0 ≡ err e
      → is_error e (app err_account_not_found) ≡ false
  pub get_by_id : (id : String) (s : S) → Fetched (view s id) (repo.get_by_id id s).0
  pub get_by_id_reads : (id : String) (s : S) → view (repo.get_by_id id s).1 ≡ view s
  pub get_by_email :
      (email : String) (s : S) → FetchedBy email (view s) (repo.get_by_email email s).0
  pub get_by_email_reads : (email : String) (s : S) → view (repo.get_by_email email s).1 ≡ view s
  pub update :
      (p : UpdateAccountParams) (s : S)
      → Updated p (view s) (view (repo.update p s).1) (repo.update p s).0
  pub delete :
      (id : String) (s : S) → Deleted id (view s) (view (repo.delete id s).1) (repo.delete id s).0
  pub list_reads : (f : ListAccountFilter) (s : S) → view (repo.list f s).1 ≡ view s

-- The part of the contract that holds of what is stored: what reads answer is left open, as with a
-- cache in front that may be stale.
pub record IsStore {S : Type 0} (repo : AccountRepository S) (view : S → Accounts) : Type 0 where
  pub create :
      (a : Account) (s : S) → Created a (view s) (view (repo.create a s).1) (repo.create a s).0
  pub get_by_id_reads : (id : String) (s : S) → view (repo.get_by_id id s).1 ≡ view s
  pub get_by_email_reads : (email : String) (s : S) → view (repo.get_by_email email s).1 ≡ view s
  pub update :
      (p : UpdateAccountParams) (s : S)
      → Updated p (view s) (view (repo.update p s).1) (repo.update p s).0
  pub delete :
      (id : String) (s : S) → Deleted id (view s) (view (repo.delete id s).1) (repo.delete id s).0
  pub list_reads : (f : ListAccountFilter) (s : S) → view (repo.list f s).1 ≡ view s

pub IsRepository-IsStore :
    {S : Type 0} {repo : AccountRepository S} {view : S → Accounts}
    → IsRepository repo view
    → IsStore repo view
IsRepository-IsStore r = record {
  create = r.create;
  get_by_id_reads = r.get_by_id_reads;
  get_by_email_reads = r.get_by_email_reads;
  update = r.update;
  delete = r.delete;
  list_reads = r.list_reads;
}

-- A transaction: `inner` is what the closure returned with the accounts `w`; `v` are the accounts
-- before it and `u` those after the transaction, which returned the last argument.
pub data Transacted {A : Type 0} (v w u : Accounts) : Result A → Result A → Type 0 where
  committed : (a : A) → u ≡ w → Transacted v w u (ok a) (ok a)
  not_committed : (a : A) (e : Error) → u ≡ v → Transacted v w u (ok a) (err e)
  -- the error returned has the closure's error in its chain
  rolled_back :
      (e e' : Error)
      → ((t : AppError) → is_error e (app t) ≡ true → is_error e' (app t) ≡ true)
      → u ≡ v
      → Transacted v w u (err e) (err e')

pub record IsTxManager {S : Type 0} (tx : TxManager S) (view : S → Accounts) : Type 1 where
  pub atomic :
      {A : Type 0} (m : M S A) (s : S)
      → Transacted (view s) (view (m s).1) (view (tx.with_tx m s).1) (m s).0 (tx.with_tx m s).0

pub record IsRateLimiter {S : Type 0} (limiter : RateLimiter S) (view : S → Accounts) : Type 0 where
  pub limit_reads : (q : LimitRequest) (s : S) → view (limiter.limit q s).1 ≡ view s
