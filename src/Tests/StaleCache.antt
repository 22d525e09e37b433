-- ===== src/Tests/StaleCache.antt =====
-- The use case over the cached repository in the small world, with a stale entry to begin with, and
-- with a cache that does not work.
use go_clean_arch_template.Prelude.{◌≡◌, refl, none, some}
use go_clean_arch_template.Prelude.Int.{pos}
use go_clean_arch_template.Domain.{
  Account, CreateAccountRequest, UpdateAccountRequest, account_cache_key_by_email,
}
use go_clean_arch_template.Usecase.{get, update}
use go_clean_arch_template.Usecase.Invariant.{IsSound}
use go_clean_arch_template.Gorm.Mapping.{accounts_of}
use go_clean_arch_template.Cache.Contract.{entry_put}
use go_clean_arch_template.Cached.Stale.{cached_use_case}
use go_clean_arch_template.Cache.{LibCache}
use go_clean_arch_template.Apperr.{other}
use go_clean_arch_template.Effect.{ok, err}
use go_clean_arch_template.Cached.Broken.{Fails, broken_cache-Fails}
use go_clean_arch_template.Tests.World.{World, slot_tx, open_limiter, plain_passwords, jane_world}
use go_clean_arch_template.Tests.Wiring.{stored, gorm_repo, service-IsWired}

abbrev gone : Account
gone = record {
  id = "a9";
  email = "gone@example.com";
  first_name = "Gone";
  last_name = "Doe";
  password_hash = "hashed";
  status = pos 1;
  created_at = 7;
  updated_at = 7;
  deleted_at = none;
}

abbrev pub stale_world : World
stale_world = record {
  row = none;
  cached = entry_put (account_cache_key_by_email "gone@example.com") (some gone) (λ k. none);
}

pub stale_world-IsSound : IsSound (stored stale_world)
unfolding accounts_of
stale_world-IsSound = record { good = λ id a h. cc; unique = λ i j a b p q e. cc }

abbrev pub request : CreateAccountRequest
request = record {
  email = "gone@example.com";
  first_name = "New";
  last_name = "Doe";
  password = "long enough";
  status = pos 0;
}

-- a cache whose lookups find nothing and whose writes fail
abbrev dead_cache : LibCache World Account
dead_cache = record {
  get = λ k w. (err (other "store" "value not found"), w);
  set = λ k a n w. (err (other "redis" "can't marshal"), w);
  delete = λ k w. (ok tt, w);
}

abbrev rename : UpdateAccountRequest
rename = record { id = "a1"; first_name = some "Janet"; last_name = none; status = none }

broken_cache-Fails_example :
    Fails
      (get
        (cached_use_case gorm_repo dead_cache 300 slot_tx open_limiter plain_passwords)
        "a1"
        jane_world).0
    × Fails
        (update
          (cached_use_case gorm_repo dead_cache 300 slot_tx open_limiter plain_passwords)
          9
          rename
          jane_world).0
    × (stored
          (update
            (cached_use_case gorm_repo dead_cache 300 slot_tx open_limiter plain_passwords)
            9
            rename
            jane_world).1
        ≡ stored jane_world)
broken_cache-Fails_example =
    broken_cache-Fails gorm_repo dead_cache 300 (λ k s. (_, refl)) (λ k a n s. (_, refl)) stored
      slot_tx open_limiter plain_passwords service-IsWired.tx "a1" 9 rename jane_world
