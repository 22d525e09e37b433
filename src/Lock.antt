-- ===== src/Lock.antt =====
-- internal/adapter/lock/lock.go, ErrLockNotAcquired of internal/ports/outbound/lock.go, and the
-- lock-guarded job of internal/apps/worker/worker.go.
-- Redis is a parameter: the commands that the locker sends, and a script as the commands that it
-- runs. rand.Read's bytes are an argument, and so is strconv.Quote, which the error texts use.
pub mod Contract
pub mod Exclusion
pub mod Mutual
pub mod Housekeeping
pub mod Liveness
use Prim.Native.String
use go_clean_arch_template.Prelude.{
  ◌≡◌, refl, ℕ, String, Bool, true, false, Option, none, some, List, [], ◌∷◌, ◌==◌, ◌/◌, ◌%◌,
  if◌then◌else◌, nat_eq,
}
use go_clean_arch_template.Prelude.Text.{◌^^◌}
use go_clean_arch_template.Prelude.Int.{ℤ, pos}
use go_clean_arch_template.Prelude.Decimal.{digit_text}
use go_clean_arch_template.Apperr.{Error, wrapped, sentinel}
use go_clean_arch_template.Effect.{
  Result, ok, err, M, pure, lift, map_err, map_result, guard, ◌>>=◌, ◌>>◌,
}
use go_clean_arch_template.Domain.{active}
use go_clean_arch_template.Ports.{DistributedLocker, AccountUseCase}

-- *redis.Client, over the contexts that it is given
pub record Redis (S Ctx : Type 0) : Type 1 where
  -- SetNX
  pub set_nx : Ctx → (key value : String) (ttl : ℤ) → M S Bool
  -- redis.call("get", key) and redis.call("del", key) in a script
  pub get : String → M S (Option String)
  pub del : String → M S ℕ
  -- Script.Run
  pub run : Ctx → {A : Type 0} → M S A → M S A

-- ErrLockNotAcquired
abbrev pub err_lock_not_acquired : Error
err_lock_not_acquired = sentinel "lock: not acquired"

-- lockKeyPrefix
abbrev pub lock_key_prefix : String
lock_key_prefix = "lock:"

-- a digit in base 16
unfoldable pub hex_digit : ℕ → String
unfolding digit_text
hex_digit n =
    if nat_eq n 10
    then "a"
    else if nat_eq n 11
    then "b"
    else if nat_eq n 12
    then "c"
    else if nat_eq n 13
    then "d"
    else if nat_eq n 14
    then "e"
    else if nat_eq n 15
    then "f"
    else digit_text n

-- hex.EncodeToString
unfoldable pub hex_text : List ℕ → String
unfolding hex_digit
hex_text [] = ""
hex_text (b ∷ rest) = hex_digit (b / 16) ^^ hex_digit (b % 16) ^^ hex_text rest

-- newToken, for what rand.Read returned
unfoldable pub new_token : Result (List ℕ) → Result String
unfolding hex_text
new_token (ok bytes) = ok (hex_text bytes)
new_token (err e) = err e

module _ {S Ctx : Type 0} (redis : Redis S Ctx) where
  -- `get(KEYS[1]) == ARGV[1]`, then `del`
  abbrev delete_own : (key token : String) → Option String → M S ℕ
  delete_own key token none = pure 0
  delete_own key token (some v) = if v == token then redis.del key else pure 0

  -- releaseScript
  unfoldable pub release_script : (key token : String) → M S ℕ
  release_script key token = do v ← redis.get key; delete_own key token v

  module _ (quote : String → String) where
    -- the function that Acquire returns
    unfoldable pub release : (redis_key token : String) → Ctx → M S (Unit {0})
    unfolding release_script
    release redis_key token ctx = do
      map_err (wrapped ("lock: release " ^^ quote redis_key))
          (redis.run ctx (release_script redis_key token))
      pure tt

    -- Acquire with its token
    abbrev pub take :
        Ctx → (redis_key : String) (ttl : ℤ) (token : String) → M S (Ctx → M S (Unit {0}))
    take ctx redis_key ttl token = do
      taken ←
          map_err (wrapped ("lock: setnx " ^^ quote redis_key))
            (redis.set_nx ctx redis_key token ttl)
      guard taken err_lock_not_acquired
      pure (release redis_key token)

    -- Acquire
    unfoldable pub acquire :
        (entropy : Result (List ℕ)) → Ctx → (key : String) (ttl : ℤ) → M S (Ctx → M S (Unit {0}))
    unfolding new_token release
    acquire entropy ctx key ttl = do
      token ← map_err (wrapped "lock: generate token") (lift (new_token entropy))
      take ctx (lock_key_prefix ^^ key) ttl token

    -- NewRedisLocker, for one call
    abbrev pub redis_locker : Result (List ℕ) → DistributedLocker S Ctx
    redis_locker entropy = record { acquire = acquire entropy }

-- the label of WorkerRuns that a run of the job counts
pub data WorkerRun : Type 0 where
  skipped : WorkerRun
  failed : WorkerRun
  succeeded : WorkerRun

abbrev label_of : {A : Type 0} → Result A → WorkerRun
label_of (ok a) = succeeded
label_of (err e) = failed

module _ {S Ctx : Type 0} (locker : DistributedLocker S Ctx) (uc : AccountUseCase S) where
  -- the deferred release, whose error is dropped
  abbrev and_release : {A : Type 0} → M S (Unit {0}) → Result A × S → WorkerRun × S
  and_release release (r, s) = (label_of r, (release s).1)

  abbrev guarded : Ctx → Result (Ctx → M S (Unit {0})) → S → WorkerRun × S
  guarded ctx (err e) s = (skipped, s)
  guarded ctx (ok release) s =
      and_release (release ctx)
        (uc.list (record { status = some active; limit = pos 1000; offset = pos 0 }) s)

  -- runHousekeeping, whose context is that of Acquire and of the release
  unfoldable pub run_housekeeping : Ctx → (lock_key : String) (lock_ttl : ℤ) → S → WorkerRun × S
  run_housekeeping ctx lock_key lock_ttl s =
      let (r, s') = locker.acquire ctx lock_key lock_ttl s in guarded ctx r s'

hex_text_test : hex_text (0 ∷ 255 ∷ 58 ∷ []) ≡ "00ff3a"
unfolding hex_text
hex_text_test = refl
