-- ===== src/Lock/Housekeeping.antt =====
-- runHousekeeping of internal/apps/worker/worker.go under the Redis locker.
use go_clean_arch_template.Prelude.{ℕ, String, some, List, ◌≡◌, refl}
use go_clean_arch_template.Prelude.Text.{◌^^◌}
use go_clean_arch_template.Prelude.Int.{ℤ}
use go_clean_arch_template.Effect.{Result}
use go_clean_arch_template.Ports.{AccountUseCase}
use go_clean_arch_template.Lock.{
  Redis, lock_key_prefix, acquire, redis_locker, run_housekeeping, skipped,
}
use go_clean_arch_template.Lock.Contract
use go_clean_arch_template.Lock.Exclusion.{acquire-Acquired}
use go_clean_arch_template.Lock.Mutual.{refuses, Acquired-Holds}

module _ {S Ctx : Type 0} (redis : Redis S Ctx) (values : S → Contract.Values)
    (quote : String → String) (isRedis : Contract.IsRedis redis values)
    (uc : AccountUseCase S) where
  -- While another one holds the lock, a run of the job does nothing but try to take it: it counts
  -- as skipped, it does not call the use case, it releases nothing, and the holder keeps the lock.
  pub run_housekeeping_held :
      (entropy : Result (List ℕ)) (ctx : Ctx) (key t : String) (ttl : ℤ) (s : S)
      → values s (lock_key_prefix ^^ key) ≡ some t
      → (run_housekeeping (redis_locker redis quote entropy) uc ctx key ttl s
          ≡ (skipped, (acquire redis quote entropy ctx key ttl s).1))
        × (values
              (run_housekeeping (redis_locker redis quote entropy) uc ctx key ttl s).1
              (lock_key_prefix ^^ key)
            ≡ some t)
  unfolding run_housekeeping
  run_housekeeping_held entropy ctx key t ttl s h =
      let k = lock_key_prefix ^^ key in
      let a = acquire-Acquired redis values isRedis quote entropy ctx key ttl s in
      let (e, failed) = refuses redis values quote isRedis k t _ _ _ _ _ h a in
      (rw failed refl, rw failed (Acquired-Holds redis values quote isRedis k t k _ _ _ _ _ h a))
