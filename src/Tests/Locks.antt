-- ===== src/Tests/Locks.antt =====
-- The theorems about the lock, over a Redis that is a map and never fails.
use go_clean_arch_template.Prelude.{
  ℕ, String, Bool, true, false, Option, none, some, List, [], ◌∷◌, ◌≡◌, refl,
}
use go_clean_arch_template.Prelude.Int.{pos}
use go_clean_arch_template.Apperr.{Error, other}
use go_clean_arch_template.Effect.{Result, ok, err, M, pure, fail}
use go_clean_arch_template.Ports.{AccountUseCase}
use go_clean_arch_template.Lock.{
  run_housekeeping, redis_locker, skipped, Redis, new_token, acquire, release,
}
use go_clean_arch_template.Lock.Contract.{Values, put, IsRedis, SetOnce, set, held, ran}
use go_clean_arch_template.Lock.Mutual.{acquire-excludes, done}
use go_clean_arch_template.Lock.Housekeeping.{run_housekeeping_held}
use go_clean_arch_template.Lock.Liveness.{Answers, runs, NoneSkipped, runs-NoneSkipped}

abbrev set_new : String → String → Option String → M Values Bool
set_new k v none s = (ok true, put k (some v) s)
set_new k v (some o) s = (ok false, s)

abbrev map_redis : Redis Values (Unit {0})
map_redis = record {
  set_nx = λ ctx k v ttl s. set_new k v (s k) s;
  get = λ k s. (ok (s k), s);
  del = λ k s. (ok 1, put k none s);
  run = λ ctx m. m;
}

set_new-SetOnce :
    (k v : String) (o : Option String) (s : Values)
    → s k ≡ o
    → SetOnce k v s (set_new k v o s).1 (set_new k v o s).0
set_new-SetOnce k v none s h = set h refl
set_new-SetOnce k v (some x) s h = held x h refl

map_redis-IsRedis : IsRedis map_redis (λ s. s)
map_redis-IsRedis = record {
  set_nx = λ ctx k v ttl s. set_new-SetOnce k v (s k) s refl;
  get_value = λ k s. refl;
  get_reads = λ k s. refl;
  del = λ k s. refl;
  run = λ ctx m s. ran (m s).0 refl;
}

abbrev job_uc : AccountUseCase Values
job_uc = record {
  create = λ req. fail (other "test" "");
  get = λ id. fail (other "test" "");
  list = λ f. pure ([], pos 0);
  update = λ req. fail (other "test" "");
  delete = λ id. fail (other "test" "");
}

abbrev plain_quote : String → String
plain_quote t = t

abbrev no_locks : Values
no_locks k = none

abbrev bytes : Result (List ℕ)
bytes = ok (171 ∷ 205 ∷ [])

abbrev later : Result (List ℕ)
later = ok (18 ∷ 52 ∷ [])

abbrev one_lock : Values
one_lock = put "lock:job" (some "abcd") no_locks

token_test : new_token bytes ≡ ok "abcd"
unfolding new_token
token_test = refl

acquired_test :
    (acquire map_redis plain_quote bytes tt "job" (pos 60) no_locks).0
    ≡ ok (release map_redis plain_quote "lock:job" "abcd")
unfolding acquire
acquired_test = refl

acquire-excludes_example :
    ((acquire map_redis plain_quote bytes tt "job" (pos 60) no_locks).1 "lock:job" ≡ some "abcd")
    × ((e : Error) × ((acquire map_redis plain_quote later tt "job"
            (pos 60)
            (acquire map_redis plain_quote bytes tt "job" (pos 60) no_locks).1).0
          ≡ err e))
acquire-excludes_example =
    acquire-excludes map_redis (λ s. s) plain_quote map_redis-IsRedis bytes tt "job" "abcd" (pos 60)
      (release map_redis plain_quote "lock:job" "abcd") no_locks
      (acquire map_redis plain_quote bytes tt "job" (pos 60) no_locks).1 token_test acquired_test
      (done _) later tt (pos 60)

run_housekeeping_held_example :
    (run_housekeeping (redis_locker map_redis plain_quote later) job_uc tt "job" (pos 60) one_lock
      ≡ (skipped, (acquire map_redis plain_quote later tt "job" (pos 60) one_lock).1))
    × ((run_housekeeping
            (redis_locker map_redis plain_quote later)
            job_uc
            tt
            "job"
            (pos 60)
            one_lock).1
          "lock:job"
        ≡ some "abcd")
run_housekeeping_held_example =
    run_housekeeping_held map_redis (λ s. s) plain_quote map_redis-IsRedis job_uc later tt "job"
      "abcd" (pos 60) one_lock refl

set_new_answers :
    (k v : String) (o : Option String) (s : Values) → (b : Bool) × ((set_new k v o s).0 ≡ ok b)
set_new_answers k v none s = (true, refl)
set_new_answers k v (some x) s = (false, refl)

map_redis-Answers : Answers map_redis
map_redis-Answers = record {
  set_nx = λ ctx k v ttl s. set_new_answers k v (s k) s;
  del = λ k s. (1, refl);
  run = λ ctx m s a h. h;
}

runs-NoneSkipped_example :
    NoneSkipped
      (runs map_redis plain_quote job_uc tt "job" (pos 60) ((171 ∷ []) ∷ (18 ∷ []) ∷ []) no_locks)
runs-NoneSkipped_example =
    runs-NoneSkipped map_redis (λ s. s) plain_quote map_redis-IsRedis map_redis-Answers job_uc
      (λ f s. refl) tt "job" (pos 60) ((171 ∷ []) ∷ (18 ∷ []) ∷ []) no_locks refl
