-- ===== src/Ports.antt =====
-- internal/ports: the interfaces between the use cases, the transports and the adapters, each a
-- record of operations over the state `S` that the implementations share.
pub mod Contract
pub mod Hidden
pub mod Table
use go_clean_arch_template.Prelude.{String, Bool, List}
use go_clean_arch_template.Prelude.Int.{ℤ}
use go_clean_arch_template.Effect.{Result, M}
use go_clean_arch_template.Domain.{
  Account, CreateAccountRequest, UpdateAccountRequest, UpdateAccountParams, ListAccountFilter,
  LimitRequest, LimitResponse,
}

-- outbound.AccountRepository
pub record AccountRepository (S : Type 0) : Type 0 where
  pub create : Account → M S String
  pub get_by_id : String → M S Account
  pub get_by_email : String → M S Account
  pub update : UpdateAccountParams → M S (Unit {0})
  pub delete : String → M S (Unit {0})
  pub list : ListAccountFilter → M S (List Account × ℤ)

-- outbound.RateLimiter
pub record RateLimiter (S : Type 0) : Type 0 where
  pub limit : LimitRequest → M S LimitResponse

-- outbound.DistributedLocker, over the contexts `Ctx`; the result of `acquire` is the function that
-- releases the lock
pub record DistributedLocker (S Ctx : Type 0) : Type 0 where
  pub acquire : Ctx → (key : String) (ttl : ℤ) → M S (Ctx → M S (Unit {0}))

-- outbound.TxManager; what the closure assigns to captured variables is its result
pub record TxManager (S : Type 0) : Type 1 where
  pub with_tx : {A : Type 0} → M S A → M S A

-- inbound.PasswordService
pub record PasswordService : Type 0 where
  pub is_valid_password : String → Result Bool
  pub hash : String → Result String

-- inbound.AccountUseCase
pub record AccountUseCase (S : Type 0) : Type 0 where
  pub create : CreateAccountRequest → M S Account
  pub get : String → M S Account
  pub list : ListAccountFilter → M S (List Account × ℤ)
  pub update : UpdateAccountRequest → M S Account
  pub delete : String → M S (Unit {0})
