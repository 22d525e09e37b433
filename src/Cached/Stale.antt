-- ===== src/Cached/Stale.antt =====
-- Entries that the cached repository leaves behind: the key of an email, and a transaction that
-- does not commit.
use go_clean_arch_template.Prelude.{
  inl, inr, ℕ, String, ◌≡◌, ◌≢◌, sym, ap, ◌∙◌, Option, some, eq_iff, eq_refl, arith,
}
use go_clean_arch_template.Effect.{ok_inj, Result, ok, ◌>>=◌, pure}
use go_clean_arch_template.Effect.Rules.{bind_cases}
use go_clean_arch_template.Domain.{
  Account, UpdateAccountRequest, account_cache_key_by_id, account_cache_key_by_email,
}
use go_clean_arch_template.Domain.Keys.{account_cache_key_by_id-ne-email}
use go_clean_arch_template.Ports.{AccountRepository}
use go_clean_arch_template.Ports.Contract.{Accounts}
use go_clean_arch_template.Cache.{LibCache, load_and_set, or_load}
use go_clean_arch_template.Cache.Contract.{Entries, entry_put, IsCache, Wrote}
use go_clean_arch_template.Cached
use go_clean_arch_template.Cached.{invalidate}
use go_clean_arch_template.Cached.Coherence.{IsCoherent, Wrote_cases}
use go_clean_arch_template.Cached.Writes.{Wrote-ok}
use go_clean_arch_template.Ports.{TxManager, RateLimiter, PasswordService}
use go_clean_arch_template.Usecase.{AccountUseCase, update_in_tx, update_params}
use go_clean_arch_template.Cached.Reads.{LeavesCache, or_load_cases}

-- A write under one key leaves what stands under another.
Wrote-off :
    {k : String} {o : Option Account} {c d : Entries Account} {r : Result (Unit {0})} (j : String)
    → k ≢ j
    → Wrote k o c d r
    → d j ≡ c j
Wrote-off {k} {o} {c} {d} j differ w = elim (Wrote_cases w) [
  | inl e ↦ ap (λ f. f j) e ∙ skip
  | inr e ↦ ap (λ f. f j) e
]
  where
    skip : entry_put k o c j ≡ c j
    skip = ground (arith, eq_iff k j)

pub entry_put_self : (k : String) (o : Option Account) (c : Entries Account) → entry_put k o c k ≡ o
entry_put_self k o c = rw (eq_refl k)

-- the use case over the cached repository
abbrev pub cached_use_case :
    {S : Type 0} (inner : AccountRepository S) (cache : LibCache S Account) (ttl : ℕ)
    (tx : TxManager S) (limiter : RateLimiter S) (passwords : PasswordService)
    → AccountUseCase S
cached_use_case inner cache ttl tx limiter passwords = record {
  repo = Cached.repository inner cache ttl;
  tx = tx;
  limiter = limiter;
  passwords = passwords;
}

module _ {S : Type 0} (inner : AccountRepository S) (cache : LibCache S Account) (ttl : ℕ)
    (view : S → Accounts) (entries : S → Entries Account) (lib : IsCache cache entries view)
    (leaves : LeavesCache inner entries) where
  invalidate-off :
      (id email : String) (s : S)
      → entries
          (invalidate inner cache ttl (account_cache_key_by_id id) s).1
          (account_cache_key_by_email email)
        ≡ entries s (account_cache_key_by_email email)
  unfolding invalidate
  invalidate-off id email s =
      Wrote-off (account_cache_key_by_email email) (account_cache_key_by_id-ne-email id email)
        (lib.delete (account_cache_key_by_id id) s)

  delete-off :
      (id email : String) (s : S)
      → entries (Cached.delete inner cache ttl id s).1 (account_cache_key_by_email email)
        ≡ entries s (account_cache_key_by_email email)
  unfolding Cached.delete
  delete-off id email s =
      bind_cases P _ (inner.delete id) s
        (λ _ _. invalidate-off id email (inner.delete id s).1 ∙ kept) (λ e _. kept)
    where
      P : Result (Unit {0}) × S → Type 0
      P t =
          entries t.1 (account_cache_key_by_email email)
          ≡ entries s (account_cache_key_by_email email)

      kept :
          entries (inner.delete id s).1 (account_cache_key_by_email email)
          ≡ entries s (account_cache_key_by_email email)
      kept = ap (λ c. c (account_cache_key_by_email email)) (leaves.delete id s)

  -- Once an account is cached under the key of its email, Delete does not evict that entry: while
  -- the cache answers, GetByEmail still returns the account after any Delete, also its own.
  pub get_by_email_after_delete :
      ((k : String) (s : S) (v : Account) → entries s k ≡ some v → (cache.get k s).0 ≡ ok v)
      → (id : String) (a : Account) (s : S)
      → entries s (account_cache_key_by_email a.email) ≡ some a
      → (Cached.get_by_email inner cache ttl a.email (Cached.delete inner cache ttl id s).1).0
        ≡ ok a
  unfolding Cached.get_by_email
  get_by_email_after_delete answers id a s h =
      rw (answers key t a (delete-off id a.email s ∙ h), or_load)
    where
      key : String
      key = account_cache_key_by_email a.email

      t : S
      t = (Cached.delete inner cache ttl id s).1

  -- a read that returns an account leaves it in the cache
  abbrev Leaves : String → Result Account × S → Type 0
  Leaves k t = (b : Account) → t.0 ≡ ok b → entries t.1 k ≡ some b

  set-Leaves : (k : String) (a : Account) (s : S) → Leaves k ((cache.set k a ttl >>= λ _. pure a) s)
  set-Leaves k a s =
      bind_cases (Leaves k) (λ _. pure a) (cache.set k a ttl) s
        (λ _ stored b e.
          ap (λ c. c k) (Wrote-ok (lib.set k a ttl s) stored)
          ∙ entry_put_self k (some a) (entries s)
          ∙ ap some (ok_inj e))
        (λ e failed b h. cc)

  get_by_id-Leaves :
      (id : String) (s : S)
      → Leaves (account_cache_key_by_id id) (Cached.get_by_id inner cache ttl id s)
  unfolding Cached.get_by_id load_and_set
  get_by_id-Leaves id s =
      or_load_cases (Leaves key) (load_and_set cache key (inner.get_by_id id) ttl)
        (cache.get key s).0 (cache.get key s).1
        (λ a found b e.
          ap (λ c. c key) (lib.get_reads key s) ∙ lib.get_found key s a found ∙ ap some (ok_inj e))
        (bind_cases (Leaves key) (λ a. cache.set key a ttl >>= λ _. pure a) (inner.get_by_id id)
          (cache.get key s).1
          (λ a found. set-Leaves key a (inner.get_by_id id (cache.get key s).1).1)
          (λ e failed b h. cc))
    where
      key : String
      key = account_cache_key_by_id id

  module _ (tx : TxManager S) (limiter : RateLimiter S) (passwords : PasswordService) where
    update-Leaves :
        (now : ℕ) (req : UpdateAccountRequest) (s : S)
        → Leaves
            (account_cache_key_by_id req.id)
            (update_in_tx (cached_use_case inner cache ttl tx limiter passwords) now req s)
    unfolding update_in_tx
    update-Leaves now req s =
        bind_cases (Leaves (account_cache_key_by_id req.id)) _
          (Cached.update inner cache ttl (update_params now req)) s
          (λ _ _. get_by_id-Leaves req.id _) (λ e failed b h. cc)

    -- Update reads the account back inside its transaction, and so caches what is not committed
    -- yet. If the closure returned an account other than the stored one, and the transaction then
    -- rolls the accounts back and leaves the cache alone, the cache is not coherent.
    pub rollback_leaves_entry :
        (now : ℕ) (req : UpdateAccountRequest) (a : Account) (s u : S)
        → (update_in_tx (cached_use_case inner cache ttl tx limiter passwords) now req s).0 ≡ ok a
        → view s req.id ≢ some a
        → view u ≡ view s
        → entries u
          ≡ entries
              (update_in_tx (cached_use_case inner cache ttl tx limiter passwords) now req s).1
        → ¬ IsCoherent (view u) (entries u)
    rollback_leaves_entry now req a s u closed differ back same h = differ (
        ap (λ v. v req.id) (sym back)
        ∙ h.stored req.id a
            (ap (λ c. c (account_cache_key_by_id req.id)) same ∙ update-Leaves now req s a closed))
