-- ===== src/Lock/Exclusion.antt =====
-- Acquire and release on every path, and mutual exclusion while a lock is neither released nor
-- expired.
use go_clean_arch_template.Prelude.{
  ℕ, String, Bool, true, false, Option, none, some, List, ◌≡◌, ◌≢◌, refl, sym, ap, ◌∙◌, ◌==◌,
  eq_iff, eq_refl, Bool-cases, some_inj, inl, inr, ◌⊎◌, false≢true,
}
use go_clean_arch_template.Prelude.Text.{◌^^◌}
use go_clean_arch_template.Prelude.Int.{ℤ}
use go_clean_arch_template.Apperr.{Error, wrapped}
use go_clean_arch_template.Effect.{Result, ok, err, M, continue, map_result, guard, pure, ◌>>◌}
use go_clean_arch_template.Lock.{
  Redis, lock_key_prefix, new_token, release_script, release, acquire, take, err_lock_not_acquired,
  delete_own,
}
use go_clean_arch_template.Lock.Contract

-- Acquire of the Redis key `k`, from the values `v` to `w`.
pub data Acquired {R : Type 0} (k : String) (release_of : String → R) (token : Result String)
    (v w : Contract.Values) : Result R → Type 0 where
  taken :
      (t : String)
      → token ≡ ok t
      → v k ≡ none
      → w ≡ Contract.put k (some t) v
      → Acquired k release_of token v w (ok (release_of t))
  -- another one holds it
  refused :
      (other : String)
      → v k ≡ some other
      → w ≡ v
      → Acquired k release_of token v w (err err_lock_not_acquired)
  broken : (e : Error) → w ≡ v → Acquired k release_of token v w (err e)
  -- the reply was lost: the key stays until it expires
  orphaned :
      (e : Error) (t : String)
      → v k ≡ none
      → w ≡ Contract.put k (some t) v
      → Acquired k release_of token v w (err e)

-- The function that Acquire returned for the token `t`, from the values `v` to `w`.
pub data Released (k t : String) (v w : Contract.Values) : Result (Unit {0}) → Type 0 where
  freed : v k ≡ some t → w ≡ Contract.put k none v → Released k t v w (ok tt)
  -- the lock has expired, or another one has it now
  not_own : v k ≢ some t → w ≡ v → Released k t v w (ok tt)
  not_run : (e : Error) → w ≡ v → Released k t v w (err e)
  -- the reply was lost
  unanswered : (e : Error) → v k ≡ some t → w ≡ Contract.put k none v → Released k t v w (err e)

is_own : (o : Option String) (t : String) → (o ≡ some t) ⊎ (o ≢ some t)
is_own none t = inr (λ e. cc)
is_own (some v) t = elim (Bool-cases (v == t)) [
  | inl same ↦ inl (ap some ((eq_iff v t).0 same))
  | inr differ ↦ inr (λ e. false≢true (sym differ ∙ (eq_iff v t).1 (some_inj e)))
]

module _ {S Ctx : Type 0} (redis : Redis S Ctx) (values : S → Contract.Values)
    (isRedis : Contract.IsRedis redis values) (quote : String → String) where
  abbrev Outcome : String → Result String → S → Result (Ctx → M S (Unit {0})) × S → Type 0
  Outcome k token s p = Acquired k (release redis quote k) token (values s) (values p.1) p.0

  after_set_nx :
      (k t : String) (token : Result String) (s : S)
      → token ≡ ok t
      → (r : Result Bool) (s' : S) → Contract.SetOnce k t (values s) (values s') r
      → Outcome k token s (
          continue
            (map_result (wrapped ("lock: setnx " ^^ quote k)) r)
            (λ b. guard b err_lock_not_acquired >> pure (release redis quote k t))
            s')
  after_set_nx k t token s h (ok true) s' (Contract.set free e) = taken t h free e
  after_set_nx k t token s h (ok false) s' (Contract.held other e same) = refused other e same
  after_set_nx k t token s h (err x) s' (Contract.lost _ free e) = orphaned _ t free e
  after_set_nx k t token s h (err x) s' (Contract.failed _ e) = broken _ e

  with_token :
      (ctx : Ctx) (k : String) (ttl : ℤ) (s : S) (token r : Result String)
      → token ≡ r
      → Outcome k token s
          (continue (map_result (wrapped "lock: generate token") r) (take redis quote ctx k ttl) s)
  with_token ctx k ttl s token (ok t) h =
      let p = redis.set_nx ctx k t ttl s in
      after_set_nx k t token s h p.0 p.1 (isRedis.set_nx ctx k t ttl s)
  with_token ctx k ttl s token (err e) h = broken _ refl

  -- Acquire returns the function that releases the new token if the key was free; it returns
  -- ErrLockNotAcquired and changes nothing if the key was held; and where Redis or the random
  -- source fails it returns an error, and has then at most left the new token under a free key.
  pub acquire-Acquired :
      (entropy : Result (List ℕ)) (ctx : Ctx) (key : String) (ttl : ℤ) (s : S)
      → Acquired
          (lock_key_prefix ^^ key)
          (release redis quote (lock_key_prefix ^^ key))
          (new_token entropy)
          (values s)
          (values (acquire redis quote entropy ctx key ttl s).1)
          (acquire redis quote entropy ctx key ttl s).0
  unfolding acquire
  acquire-Acquired entropy ctx key ttl s =
      with_token ctx (lock_key_prefix ^^ key) ttl s (new_token entropy) (new_token entropy) refl

  script_own :
      (k t : String) (s : S)
      → values s k ≡ some t
      → values (release_script redis k t s).1 ≡ Contract.put k none (values s)
  unfolding release_script
  script_own k t s h =
      rw (isRedis.get_value k s, h, eq_refl t)
        (isRedis.del k (redis.get k s).1 ∙ ap (Contract.put k none) (isRedis.get_reads k s))

  script_other :
      (k t : String) (s : S)
      → values s k ≢ some t
      → values (release_script redis k t s).1 ≡ values s
  unfolding release_script
  script_other k t s h = rw (isRedis.get_value k s) (kept (values s k) refl)
    where
      kept :
          (o : Option String)
          → values s k ≡ o
          → values (delete_own redis k t o (redis.get k s).1).1 ≡ values s
      kept none e = isRedis.get_reads k s
      kept (some v) e = elim (Bool-cases (v == t)) [
        | inl same ↦ elim (h (e ∙ ap some ((eq_iff v t).0 same))) [ ]
        | inr differ ↦ rw differ (isRedis.get_reads k s)
      ]

  abbrev IsReleased : String → String → S → Result (Unit {0}) × S → Type 0
  IsReleased k t s p = Released k t (values s) (values p.1) p.0

  after_run :
      (k t : String) (s : S) (r r' : Result ℕ) (s' : S)
      → (values s k ≡ some t) ⊎ (values s k ≢ some t)
      → Contract.Ran (values s) (values (release_script redis k t s).1) (values s') r r'
      → IsReleased k t s
          (continue (map_result (wrapped ("lock: release " ^^ quote k)) r') (λ _. pure tt) s')
  after_run k t s (ok n) r' s' (inl own) (Contract.ran _ same) =
      freed own (same ∙ script_own k t s own)
  after_run k t s (ok n) r' s' (inr other) (Contract.ran _ same) =
      not_own other (same ∙ script_other k t s other)
  after_run k t s (err x) r' s' (inl own) (Contract.ran _ same) =
      unanswered _ own (same ∙ script_own k t s own)
  after_run k t s (err x) r' s' (inr other) (Contract.ran _ same) =
      not_run _ (same ∙ script_other k t s other)
  after_run k t s r r' s' (inl own) (Contract.lost _ x same) =
      unanswered _ own (same ∙ script_own k t s own)
  after_run k t s r r' s' (inr other) (Contract.lost _ x same) =
      not_run _ (same ∙ script_other k t s other)
  after_run k t s r r' s' own (Contract.not_run _ x same) = not_run _ same

  -- The function that Acquire returned frees the lock only if the key still has its token; a lock
  -- that has expired or that another holder has taken over is left as it is; and a call that
  -- fails has done one or the other.
  pub release-Released :
      (k t : String) (ctx : Ctx) (s : S)
      → Released k t
          (values s)
          (values (release redis quote k t ctx s).1)
          (release redis quote k t ctx s).0
  unfolding release
  release-Released k t ctx s =
      let m = release_script redis k t in
      after_run k t s (m s).0 (redis.run ctx m s).0 (redis.run ctx m s).1 (is_own (values s k) t)
        (isRedis.run ctx m s)
