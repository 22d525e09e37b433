-- ===== src/Cached/Store.antt =====
-- What is stored behind the cache, whether its entries are stale or not.
use go_clean_arch_template.Prelude.{ℕ, String, ◌≡◌, refl, ◌∙◌, List}
use go_clean_arch_template.Effect.{Result, M, continue, ◌>>=◌, pure}
use go_clean_arch_template.Effect.Keeps.{Keeps, bind-Keeps}
use go_clean_arch_template.Domain.{
  Account, UpdateAccountParams, account_cache_key_by_id, account_cache_key_by_email,
}
use go_clean_arch_template.Ports.{AccountRepository, TxManager, RateLimiter, PasswordService}
use go_clean_arch_template.Ports.Contract.{
  Accounts, IsStore, IsTxManager, IsRateLimiter, Updated, Deleted,
}
use go_clean_arch_template.Cache.{LibCache, load_and_set, get_once}
use go_clean_arch_template.Cache.Contract.{Entries, IsCache}
use go_clean_arch_template.Cached
use go_clean_arch_template.Cached.{invalidate}
use go_clean_arch_template.Cached.Reads.{or_load_cases}
use go_clean_arch_template.Cached.Stale.{cached_use_case}
use go_clean_arch_template.Usecase.{Command, serve}
use go_clean_arch_template.Usecase.Invariant.{IsSound, serve_storing-IsSound}

module _ {S : Type 0} (inner : AccountRepository S) (cache : LibCache S Account) (ttl : ℕ)
    (view : S → Accounts) (entries : S → Entries Account) (repo : IsStore inner view)
    (lib : IsCache cache entries view) where
  get_once-Keeps :
      (key : String) (load : M S Account)
      → Keeps view load
      → Keeps view (get_once cache key load ttl)
  unfolding get_once load_and_set
  get_once-Keeps key load kept s =
      or_load_cases (λ t. view t.1 ≡ view s) (load_and_set cache key load ttl) (cache.get key s).0
        (cache.get key s).1 (λ a found. lib.get_rest key s)
        (bind-Keeps view (λ a. cache.set key a ttl >>= λ _. pure a) load kept
            (λ a.
              bind-Keeps view (λ _. pure a) (cache.set key a ttl) (lib.set_rest key a ttl)
                (λ _ t. refl))
            (cache.get key s).1
          ∙ lib.get_rest key s)

  update-Updated :
      (p : UpdateAccountParams) (v : Accounts) (r : Result (Unit {0})) (t : S)
      → Updated p v (view t) r
      → let u =
          continue r
            (λ _. invalidate inner cache ttl (account_cache_key_by_id p.id) >>= λ _. pure tt)
            t in
        Updated p v (view u.1) u.0
  unfolding invalidate
  update-Updated p v _ t (Updated.written a at new) =
      Updated.written a at (lib.delete_rest (account_cache_key_by_id p.id) t ∙ new)
  update-Updated p v _ t (Updated.missing e gone nf same) = Updated.missing e gone nf same
  update-Updated p v _ t (Updated.broken e other same) = Updated.broken e other same

  delete-Deleted :
      (id : String) (v : Accounts) (r : Result (Unit {0})) (t : S)
      → Deleted id v (view t) r
      → let u =
          continue r
            (λ _. invalidate inner cache ttl (account_cache_key_by_id id) >>= λ _. pure tt)
            t in
        Deleted id v (view u.1) u.0
  unfolding invalidate
  delete-Deleted id v _ t (Deleted.removed a at new) =
      Deleted.removed a at (lib.delete_rest (account_cache_key_by_id id) t ∙ new)
  delete-Deleted id v _ t (Deleted.missing e gone nf same) = Deleted.missing e gone nf same
  delete-Deleted id v _ t (Deleted.broken e other same) = Deleted.broken e other same

  pub cached_repository-IsStore : IsStore (Cached.repository inner cache ttl) view
  unfolding Cached.create Cached.get_by_id Cached.get_by_email Cached.update Cached.delete
      Cached.list
  cached_repository-IsStore = record {
    create = λ a s. repo.create a s;
    get_by_id_reads = λ id s.
        get_once-Keeps (account_cache_key_by_id id) (inner.get_by_id id) (repo.get_by_id_reads id)
          s;
    get_by_email_reads = λ email s.
        get_once-Keeps (account_cache_key_by_email email) (inner.get_by_email email)
          (repo.get_by_email_reads email) s;
    update = λ p s. update-Updated p (view s) _ (inner.update p s).1 (repo.update p s);
    delete = λ id s. delete-Deleted id (view s) _ (inner.delete id s).1 (repo.delete id s);
    list_reads = λ f s. repo.list_reads f s;
  }

  -- The use case as the program wires it, over the cached repository: from sound accounts, after any
  -- calls, whatever the cache holds under any key and whichever calls of it fail, the stored
  -- accounts are sound.
  pub serve_cached-IsSound :
      (tx : TxManager S) (limiter : RateLimiter S) (passwords : PasswordService)
      → IsTxManager tx view
      → IsRateLimiter limiter view
      → (cs : List Command) (s : S) → IsSound (view s)
      → IsSound (view (serve (cached_use_case inner cache ttl tx limiter passwords) cs s))
  serve_cached-IsSound tx limiter passwords atomic limits =
      serve_storing-IsSound (cached_use_case inner cache ttl tx limiter passwords) view
        (record { repo = cached_repository-IsStore; tx = atomic; limiter = limits })
