-- ===== src/Cached/Broken.antt =====
-- The use case over the cached repository while the cache neither finds nor stores anything.
use go_clean_arch_template.Prelude.{ℕ, String, ◌≡◌, refl, sym, ◌∙◌, Bool-cases, inl, inr, ◌==◌}
use go_clean_arch_template.Apperr.{Error}
use go_clean_arch_template.Effect.{Result, ok, err, M, ◌>>=◌, pure}
use go_clean_arch_template.Effect.Rules.{bind_cases}
use go_clean_arch_template.Domain.{Account, UpdateAccountRequest, account_cache_key_by_id}
use go_clean_arch_template.Ports.{AccountRepository, TxManager, RateLimiter, PasswordService}
use go_clean_arch_template.Ports.Contract.{Accounts, IsTxManager, Transacted, rolled_back}
use go_clean_arch_template.Cache.{LibCache, load_and_set}
use go_clean_arch_template.Cached
use go_clean_arch_template.Cached.Stale.{cached_use_case}
use go_clean_arch_template.Usecase.{get, update, update_in_tx, update_params, bad_status}

abbrev pub Fails : {A : Type 0} → Result A → Type 0
Fails r = (e : Error) × (r ≡ err e)

ok-ne-err : {A : Type 0} {a : A} {e : Error} → ok a ≡ err e → ⊥
ok-ne-err h = cc

module _ {S : Type 0} (inner : AccountRepository S) (cache : LibCache S Account) (ttl : ℕ)
    (misses : (k : String) (s : S) → Fails (cache.get k s).0)
    (refuses : (k : String) (a : Account) (n : ℕ) (s : S) → Fails (cache.set k a n s).0) where
  load-Fails :
      (key : String) (load : M S Account) (s : S) → Fails (load_and_set cache key load ttl s).0
  unfolding load_and_set
  load-Fails key load s =
      bind_cases (λ t. Fails t.0) (λ a. cache.set key a ttl >>= λ _. pure a) load s
        (λ a loaded.
          bind_cases (λ t. Fails t.0) (λ _. pure a) (cache.set key a ttl) (load s).1
            (λ u stored. absurd (ok-ne-err (sym stored ∙ (refuses key a ttl (load s).1).1)))
            (λ e failed. (e, refl)))
        (λ e failed. (e, refl))

  get_by_id-Fails : (id : String) (s : S) → Fails (Cached.get_by_id inner cache ttl id s).0
  unfolding Cached.get_by_id
  get_by_id-Fails id s =
      let key = account_cache_key_by_id id in
      let (e, missed) = misses key s in
      rw missed (load-Fails key (inner.get_by_id id) (cache.get key s).1)

  module _ (view : S → Accounts) (tx : TxManager S) (limiter : RateLimiter S)
      (passwords : PasswordService) (atomic : IsTxManager tx view) where
    Transacted-Fails :
        (v w u : Accounts) (r q : Result Account)
        → Fails r
        → Transacted v w u r q
        → Fails q × (u ≡ v)
    Transacted-Fails v w u _ _ (e, failed) (rolled_back _ e' keeps back) = ((e', refl), back)
    Transacted-Fails v w u _ _ (e, failed) (Transacted.committed a same) = absurd (ok-ne-err failed)
    Transacted-Fails v w u _ _ (e, failed) (Transacted.not_committed a e' same) = ((e', refl), same)

    update_in_tx-Fails :
        (now : ℕ) (req : UpdateAccountRequest) (s : S)
        → Fails (update_in_tx (cached_use_case inner cache ttl tx limiter passwords) now req s).0
    unfolding update_in_tx
    update_in_tx-Fails now req s =
        bind_cases (λ t. Fails t.0) _ (Cached.update inner cache ttl (update_params now req)) s
          (λ u written. get_by_id-Fails req.id _) (λ e failed. (e, refl))

    get-Fails :
        (id : String) (s : S)
        → Fails (get (cached_use_case inner cache ttl tx limiter passwords) id s).0
    unfolding get
    get-Fails id s = elim (Bool-cases (id == "")) [
      | inl empty ↦ rw empty (_, refl)
      | inr present ↦ rw present (get_by_id-Fails id s)
    ]

    update-Fails :
        (now : ℕ) (req : UpdateAccountRequest) (s : S)
        → Fails (update (cached_use_case inner cache ttl tx limiter passwords) now req s).0
          × (view (update (cached_use_case inner cache ttl tx limiter passwords) now req s).1
              ≡ view s)
    unfolding update
    update-Fails now req s = elim (Bool-cases (req.id == "")) [
      | inl empty ↦ rw empty ((_, refl), refl)
      | inr present ↦ rw present (elim (Bool-cases (bad_status req.status)) [
        | inl bad ↦ rw bad ((_, refl), refl)
        | inr good ↦ rw good (
            Transacted-Fails _ _ _ _ _ (update_in_tx-Fails now req s) (
              atomic.atomic
                (update_in_tx (cached_use_case inner cache ttl tx limiter passwords) now req) s))
      ])
    ]

    -- While no lookup of the cache succeeds and no write to it does, Get returns an error for every
    -- id, also of an account that is stored, and every Update returns an error and leaves the stored
    -- accounts as they were.
    pub broken_cache-Fails :
        (id : String) (now : ℕ) (req : UpdateAccountRequest) (s : S)
        → Fails (get (cached_use_case inner cache ttl tx limiter passwords) id s).0
          × Fails (update (cached_use_case inner cache ttl tx limiter passwords) now req s).0
          × (view (update (cached_use_case inner cache ttl tx limiter passwords) now req s).1
              ≡ view s)
    broken_cache-Fails id now req s =
        let (failed, kept) = update-Fails now req s in (get-Fails id s, failed, kept)
