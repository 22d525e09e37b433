-- ===== src/Lock/Liveness.antt =====
-- The lock while Redis answers: a free key is taken, its holder frees it, and runs of the guarded job
-- that follow one another all happen.
use go_clean_arch_template.Prelude.{
  ℕ, String, Bool, true, Option, none, some, List, [], ◌∷◌, ◌≡◌, ◌≢◌, refl, sym, ap, ◌∙◌, eq_refl,
  ◌==◌, Bool-cases, inl, inr,
}
use go_clean_arch_template.Prelude.Text.{◌^^◌}
use go_clean_arch_template.Prelude.Int.{ℤ}
use go_clean_arch_template.Effect.{Result, ok, err, M}
use go_clean_arch_template.Effect.Keeps.{Keeps}
use go_clean_arch_template.Domain.{ListAccountFilter}
use go_clean_arch_template.Ports.{AccountUseCase}
use go_clean_arch_template.Lock.{
  Redis, WorkerRun, lock_key_prefix, acquire, release, release_script, delete_own, redis_locker,
  run_housekeeping, skipped, label_of, hex_text, new_token,
}
use go_clean_arch_template.Lock.Contract
use go_clean_arch_template.Lock.Contract.{SetOnce}
use go_clean_arch_template.Lock.Exclusion.{Released, freed, release-Released}

-- Redis answers every command.
pub record Answers {S Ctx : Type 0} (redis : Redis S Ctx) : Type 1 where
  pub set_nx :
      (ctx : Ctx) (key value : String) (ttl : ℤ) (s : S)
      → (b : Bool) × ((redis.set_nx ctx key value ttl s).0 ≡ ok b)
  pub del : (key : String) (s : S) → (n : ℕ) × ((redis.del key s).0 ≡ ok n)
  pub run :
      (ctx : Ctx) {A : Type 0} (m : M S A) (s : S) (a : A)
      → (m s).0 ≡ ok a
      → (redis.run ctx m s).0 ≡ ok a

-- The job is run one time after another, each run by a process with its own token.
pub runs :
    {S Ctx : Type 0} (redis : Redis S Ctx) (quote : String → String) (uc : AccountUseCase S)
    (ctx : Ctx) (key : String) (ttl : ℤ)
    → List (List ℕ)
    → S
    → List WorkerRun
runs redis quote uc ctx key ttl [] s = []
runs redis quote uc ctx key ttl (bytes ∷ rest) s =
    let p = run_housekeeping (redis_locker redis quote (ok bytes)) uc ctx key ttl s in
    p.0 ∷ runs redis quote uc ctx key ttl rest p.1

pub data NoneSkipped : List WorkerRun → Type 0 where
  all : NoneSkipped []
  next : (r : WorkerRun) (l : List WorkerRun) → r ≢ skipped → NoneSkipped l → NoneSkipped (r ∷ l)

label_ne : {A : Type 0} (r : Result A) → label_of r ≢ skipped
label_ne (ok a) = λ h. cc
label_ne (err e) = λ h. cc

module _ {S Ctx : Type 0} (redis : Redis S Ctx) (values : S → Contract.Values)
    (quote : String → String) (isRedis : Contract.IsRedis redis values)
    (answers : Answers redis) where
  -- the script ran to its end
  script_ok : (k t : String) (s : S) → (n : ℕ) × ((release_script redis k t s).0 ≡ ok n)
  unfolding release_script
  script_ok k t s = rw (isRedis.get_value k s) (own_ok (values s k) (redis.get k s).1)
    where
      own_ok : (o : Option String) (u : S) → (n : ℕ) × ((delete_own redis k t o u).0 ≡ ok n)
      own_ok none u = (0, refl)
      own_ok (some v) u = elim (Bool-cases (v == t)) [
        | inl same ↦ rw same (answers.del k u)
        | inr differ ↦ rw differ (0, refl)
      ]

  release_ok : (k t : String) (ctx : Ctx) (s : S) → (release redis quote k t ctx s).0 ≡ ok tt
  unfolding release
  release_ok k t ctx s =
      rw (answers.run ctx (release_script redis k t) s _ (script_ok k t s).1) refl

  release_frees :
      (k t : String) (ctx : Ctx) (s : S)
      → values s k ≡ some t
      → values (release redis quote k t ctx s).1 k ≡ none
  release_frees k t ctx s own =
      of_Released (release-Released redis values isRedis quote k t ctx s) (release_ok k t ctx s)
    where
      emptied : Contract.put k none (values s) k ≡ none
      emptied = rw (eq_refl k) refl

      of_Released :
          {w : Contract.Values} {r : Result (Unit {0})}
          → Released k t (values s) w r
          → r ≡ ok tt
          → w k ≡ none
      of_Released (freed held gone) e = ap (λ v. v k) gone ∙ emptied
      of_Released (Released.not_own other same) e = absurd (other own)
      of_Released (Released.not_run fault same) e = cc
      of_Released (Released.unanswered fault held gone) e = cc

  -- the lock of a free key, once SET NX has answered
  taken_by :
      (k t : String) (v w : Contract.Values) (r : Result Bool) (b : Bool)
      → SetOnce k t v w r
      → v k ≡ none
      → r ≡ ok b
      → (r ≡ ok true) × (w k ≡ some t)
  taken_by k t v w _ b (SetOnce.set new e) free answer = (refl, ap (λ x. x k) e ∙ kept)
    where
      kept : Contract.put k (some t) v k ≡ some t
      kept = rw (eq_refl k) refl
  taken_by k t v w _ b (SetOnce.held other there same) free answer =
      absurd (differ (sym there ∙ free))
    where
      differ : some other ≡ none → ⊥
      differ h = cc
  taken_by k t v w _ b (SetOnce.lost e new at) free answer = absurd (fault answer)
    where
      fault : ◌≡◌ {A = Result Bool} (err e) (ok b) → ⊥
      fault h = cc
  taken_by k t v w _ b (SetOnce.failed e same) free answer = absurd (fault answer)
    where
      fault : ◌≡◌ {A = Result Bool} (err e) (ok b) → ⊥
      fault h = cc

  -- Acquire on a free key
  acquire_free :
      (bytes : List ℕ) (ctx : Ctx) (key : String) (ttl : ℤ) (s : S)
      → values s (lock_key_prefix ^^ key) ≡ none
      → ((acquire redis quote (ok bytes) ctx key ttl s).0
          ≡ ok (release redis quote (lock_key_prefix ^^ key) (hex_text bytes)))
        × (values (acquire redis quote (ok bytes) ctx key ttl s).1 (lock_key_prefix ^^ key)
            ≡ some (hex_text bytes))
  unfolding acquire new_token
  acquire_free bytes ctx key ttl s free =
      let k = lock_key_prefix ^^ key in
      let t = hex_text bytes in
      let (b, answer) = answers.set_nx ctx k t ttl s in
      let (done, held) = taken_by k t _ _ _ b (isRedis.set_nx ctx k t ttl s) free answer in
      rw done (refl, held)

  module _ (uc : AccountUseCase S)
      (lists : (f : ListAccountFilter) → Keeps values (uc.list f)) where
    -- a run of the job from a free key
    run_free :
        (bytes : List ℕ) (ctx : Ctx) (key : String) (ttl : ℤ) (s : S)
        → values s (lock_key_prefix ^^ key) ≡ none
        → let p = run_housekeeping (redis_locker redis quote (ok bytes)) uc ctx key ttl s in
          (p.0 ≢ skipped) × (values p.1 (lock_key_prefix ^^ key) ≡ none)
    unfolding run_housekeeping
    run_free bytes ctx key ttl s free =
        let k = lock_key_prefix ^^ key in
        let t = hex_text bytes in
        let (done, held) = acquire_free bytes ctx key ttl s free in
        rw done (label_ne _, release_frees k t ctx _ (ap (λ v. v k) (lists _ _) ∙ held))

    -- While Redis answers every command and List leaves the locks alone: from a free key, of any
    -- number of runs of the job that follow one another, by whichever processes, none is skipped.
    pub runs-NoneSkipped :
        (ctx : Ctx) (key : String) (ttl : ℤ) (tokens : List (List ℕ)) (s : S)
        → values s (lock_key_prefix ^^ key) ≡ none
        → NoneSkipped (runs redis quote uc ctx key ttl tokens s)
    unfolding runs
    runs-NoneSkipped ctx key ttl [] s free = all
    runs-NoneSkipped ctx key ttl (bytes ∷ rest) s free =
        let (ran, left) = run_free bytes ctx key ttl s free in
        next _ _ ran (runs-NoneSkipped ctx key ttl rest _ left)
