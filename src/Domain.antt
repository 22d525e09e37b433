-- ===== src/Domain.antt =====
-- internal/domain: the account, its status and cache keys, and the request objects.
-- A time.Time is an instant, in the unit that the store keeps; a *T that may be nil is an `Option`.
pub mod Keys
pub mod Status
use go_clean_arch_template.Prelude.{
  ℕ, String, Bool, true, false, ◌||◌, Option, none, some, List, [], ◌∷◌, ◌++◌, ◌==◌, if◌then◌else◌,
  not,
}
use go_clean_arch_template.Prelude.Text.{◌^^◌, to_lower, trim_space}
use go_clean_arch_template.Prelude.Int.{ℤ, pos, negsuc, int_eq}

-- `type AccountStatus int`: any number can stand in it
abbrev pub AccountStatus : Type 0
AccountStatus = ℤ

abbrev pub unknown : AccountStatus
unknown = pos 0

abbrev pub active : AccountStatus
active = pos 1

abbrev pub inactive : AccountStatus
inactive = pos 2

abbrev pub blocked : AccountStatus
blocked = pos 3

abbrev pub deleted : AccountStatus
deleted = pos 4

-- AccountStatus.Valid
unfoldable pub valid : AccountStatus → Bool
valid s = int_eq s active || int_eq s inactive || int_eq s blocked || int_eq s deleted

-- AccountStatus.String
unfoldable pub status_text : AccountStatus → String
status_text s =
    if int_eq s active
    then "active"
    else if int_eq s inactive
    then "inactive"
    else if int_eq s blocked
    then "blocked"
    else if int_eq s deleted
    then "deleted"
    else "unknown"

abbrev pub min_password_length : ℕ
min_password_length = 8

pub record Account : Type 0 where
  pub id : String
  pub email : String
  pub first_name : String
  pub last_name : String
  pub password_hash : String
  pub status : AccountStatus
  pub created_at : ℕ
  pub updated_at : ℕ
  pub deleted_at : Option ℕ

-- Account.FullName
unfoldable pub full_name : Account → String
full_name a = trim_space (a.first_name ^^ " " ^^ a.last_name)

-- Account.IsActive
unfoldable pub is_active : Account → Bool
is_active a = int_eq a.status active

-- AccountCacheKeyByID
unfoldable pub account_cache_key_by_id : String → String
account_cache_key_by_id id = "account:id:" ^^ id

-- AccountCacheKeyByEmail
unfoldable pub account_cache_key_by_email : String → String
account_cache_key_by_email email = "account:email:" ^^ to_lower email

-- Account.CacheKeys
unfoldable pub cache_keys : Account → List String
cache_keys a =
    account_cache_key_by_id a.id
    ∷ (if not (a.email == "") then account_cache_key_by_email a.email ∷ [] else [])

pub record CreateAccountRequest : Type 0 where
  pub email : String
  pub password : String
  pub first_name : String
  pub last_name : String
  pub status : AccountStatus

pub record UpdateAccountRequest : Type 0 where
  pub id : String
  pub first_name : Option String
  pub last_name : Option String
  pub status : Option AccountStatus

pub record UpdateAccountParams : Type 0 where
  pub id : String
  pub first_name : Option String
  pub last_name : Option String
  pub status : Option AccountStatus
  pub updated_at : ℕ

pub record ListAccountFilter : Type 0 where
  pub status : Option AccountStatus
  pub limit : ℤ
  pub offset : ℤ

-- RateLimitActionCreateAccount
abbrev pub create_account_action : String
create_account_action = "create_account"

-- a time.Duration is a number of nanoseconds
pub record RateLimitConfig : Type 0 where
  pub rate : ℤ
  pub period : ℤ
  pub burst : ℤ

-- RateLimitDefaults
abbrev pub rate_limit_defaults : List (String × RateLimitConfig)
rate_limit_defaults =
    (create_account_action, record { rate = pos 5; period = pos 60000000000; burst = pos 5 }) ∷ []

pub record LimitRequest : Type 0 where
  pub action : String
  pub key : String

pub record LimitResponse : Type 0 where
  pub allowed : Bool
  pub remaining : ℤ
  pub retry_after : ℤ
