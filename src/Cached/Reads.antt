-- ===== src/Cached/Reads.antt =====
-- What the cached repository does on each call, over a coherent cache.
use go_clean_arch_template.Prelude.{ℕ, String, ◌≡◌, refl, sym, ap, ◌∙◌, subst, Option, some}
use go_clean_arch_template.Apperr.Catalog.{err_account_not_found}
use go_clean_arch_template.Effect.{ok_inj, Result, ok, err, M, ◌>>=◌, pure}
use go_clean_arch_template.Effect.Rules.{bind_cases}
use go_clean_arch_template.Domain.{
  Account, UpdateAccountParams, ListAccountFilter, account_cache_key_by_id,
  account_cache_key_by_email,
}
use go_clean_arch_template.Ports.{AccountRepository}
use go_clean_arch_template.Ports.Contract.{Accounts, Fetched, IsRepository}
use go_clean_arch_template.Cache.{LibCache, load_and_set, or_load}
use go_clean_arch_template.Cache.Contract.{Entries, IsCache}
use go_clean_arch_template.Cached
use go_clean_arch_template.Cached.Coherence.{
  IsCoherent, Wrote-IsCoherent, IsCoherent-load, IsCoherent-email,
}

pub Fetched-ok :
    {o : Option Account} {r : Result Account} {a : Account} → Fetched o r → r ≡ ok a → o ≡ some a
Fetched-ok (Fetched.hit b at) e = at ∙ ap some (ok_inj e)
Fetched-ok (Fetched.miss fault gone nf) e = cc
Fetched-ok (Fetched.broken fault other) e = cc

pub or_load_cases :
    {S : Type 0} (P : Result Account × S → Type 0) (load : M S Account) (r : Result Account) (s : S)
    → ((a : Account) → r ≡ ok a → P (ok a, s))
    → P (load s)
    → P (or_load r load s)
or_load_cases P load (ok a) s found missed = found a refl
or_load_cases P load (err e) s found missed = missed

-- The inner repository does not touch the cache.
pub record LeavesCache {S : Type 0} (inner : AccountRepository S) (entries : S → Entries Account)
    : Type 0 where
  pub create : (a : Account) (s : S) → entries (inner.create a s).1 ≡ entries s
  pub get_by_id : (id : String) (s : S) → entries (inner.get_by_id id s).1 ≡ entries s
  pub get_by_email : (email : String) (s : S) → entries (inner.get_by_email email s).1 ≡ entries s
  pub update : (p : UpdateAccountParams) (s : S) → entries (inner.update p s).1 ≡ entries s
  pub delete : (id : String) (s : S) → entries (inner.delete id s).1 ≡ entries s
  pub list : (f : ListAccountFilter) (s : S) → entries (inner.list f s).1 ≡ entries s

module _ {S : Type 0} (inner : AccountRepository S) (cache : LibCache S Account) (ttl : ℕ)
    (view : S → Accounts) (entries : S → Entries Account) (repo : IsRepository inner view)
    (lib : IsCache cache entries view) (leaves : LeavesCache inner entries) where
  -- `t` is the state after calls from `s` that changed neither the accounts nor the entries
  record IsSame (s t : S) : Type 0 where
    accounts : view t ≡ view s
    cached : entries t ≡ entries s

  -- what a read by id promises
  abbrev Reads : String → S → Result Account × S → Type 0
  Reads id s t = Fetched (view s id) t.0 × (view t.1 ≡ view s) × IsCoherent (view t.1) (entries t.1)

  moved : {s t : S} → IsSame s t → IsCoherent (view s) (entries s) → IsCoherent (view s) (entries t)
  moved {s} same h = subst (IsCoherent (view s)) (sym same.cached) h

  settled :
      {s t : S} → IsSame s t → IsCoherent (view s) (entries s) → IsCoherent (view t) (entries t)
  settled {s} {t} same h = subst (λ v. IsCoherent v (entries t)) (sym same.accounts) (moved same h)

  -- Whatever Set does with an account that is stored, the cache stays coherent.
  set_loaded :
      (id : String) (a : Account) (s t : S)
      → IsSame s t
      → IsCoherent (view s) (entries s)
      → view s id ≡ some a
      → Reads id s ((cache.set (account_cache_key_by_id id) a ttl >>= λ _. pure a) t)
  set_loaded id a s t same h at =
      bind_cases (Reads id s) (λ _. pure a) (cache.set (account_cache_key_by_id id) a ttl) t
        (λ _ stored. (Fetched.hit a at, kept, coherent))
        (λ e failed. (
          Fetched.broken e
              (lib.set_foreign (account_cache_key_by_id id) a ttl t e err_account_not_found failed),
          kept,
          coherent,
        ))
    where
      u : S
      u = (cache.set (account_cache_key_by_id id) a ttl t).1

      kept : view u ≡ view s
      kept = lib.set_rest (account_cache_key_by_id id) a ttl t ∙ same.accounts

      coherent : IsCoherent (view u) (entries u)
      coherent =
          subst (λ v. IsCoherent v (entries u)) (sym kept)
            (Wrote-IsCoherent (lib.set (account_cache_key_by_id id) a ttl t)
              (IsCoherent-load (moved same h) id a at) (moved same h))

  loaded :
      (id : String) (s t : S)
      → IsSame s t
      → IsCoherent (view s) (entries s)
      → Reads id s (load_and_set cache (account_cache_key_by_id id) (inner.get_by_id id) ttl t)
  unfolding load_and_set
  loaded id s t same h =
      bind_cases (Reads id s) (λ a. cache.set (account_cache_key_by_id id) a ttl >>= λ _. pure a)
        (inner.get_by_id id) t (λ a found. set_loaded id a s u same' h (Fetched-ok fetched found))
        (λ e failed. (subst (Fetched (view s id)) failed fetched, same'.accounts, settled same' h))
    where
      u : S
      u = (inner.get_by_id id t).1

      same' : IsSame s u
      same' = record {
        accounts = repo.get_by_id_reads id t ∙ same.accounts;
        cached = leaves.get_by_id id t ∙ same.cached;
      }

      fetched : Fetched (view s id) (inner.get_by_id id t).0
      fetched =
          subst (λ v. Fetched (v id) (inner.get_by_id id t).0) same.accounts (repo.get_by_id id t)

  after_get : (k : String) (s : S) → IsSame s (cache.get k s).1
  after_get k s = record { accounts = lib.get_rest k s; cached = lib.get_reads k s }

  -- Over a coherent cache GetByID answers as the inner repository would: with the account that is
  -- stored, or with ErrAccountNotFound if none is, or with a failure of a backend. It stores no
  -- account, and the cache is coherent after it, whether the entry was there, loaded or not written.
  pub get_by_id-IsCoherent :
      (id : String) (s : S)
      → IsCoherent (view s) (entries s)
      → Fetched (view s id) (Cached.get_by_id inner cache ttl id s).0
        × (view (Cached.get_by_id inner cache ttl id s).1 ≡ view s)
        × IsCoherent
            (view (Cached.get_by_id inner cache ttl id s).1)
            (entries (Cached.get_by_id inner cache ttl id s).1)
  unfolding Cached.get_by_id
  get_by_id-IsCoherent id s h =
      or_load_cases (Reads id s) (load_and_set cache key (inner.get_by_id id) ttl)
        (cache.get key s).0 (cache.get key s).1
        (λ a found. (
          Fetched.hit a (h.stored id a (lib.get_found key s a found)),
          (after_get key s).accounts,
          settled (after_get key s) h,
        ))
        (loaded id s (cache.get key s).1 (after_get key s) h)
    where
      key : String
      key = account_cache_key_by_id id

  -- what a read by email promises
  abbrev Settles : S → Result Account × S → Type 0
  Settles s t = (view t.1 ≡ view s) × IsCoherent (view t.1) (entries t.1)

  set_by_email :
      (email : String) (a : Account) (s t : S)
      → IsSame s t
      → IsCoherent (view s) (entries s)
      → Settles s ((cache.set (account_cache_key_by_email email) a ttl >>= λ _. pure a) t)
  set_by_email email a s t same h =
      bind_cases (Settles s) (λ _. pure a) (cache.set (account_cache_key_by_email email) a ttl) t
        (λ _ stored. (kept, coherent)) (λ e failed. (kept, coherent))
    where
      u : S
      u = (cache.set (account_cache_key_by_email email) a ttl t).1

      kept : view u ≡ view s
      kept = lib.set_rest (account_cache_key_by_email email) a ttl t ∙ same.accounts

      coherent : IsCoherent (view u) (entries u)
      coherent =
          subst (λ v. IsCoherent v (entries u)) (sym kept)
            (Wrote-IsCoherent (lib.set (account_cache_key_by_email email) a ttl t)
              (IsCoherent-email (moved same h) email (some a)) (moved same h))

  loaded_by_email :
      (email : String) (s t : S)
      → IsSame s t
      → IsCoherent (view s) (entries s)
      → Settles s
          (load_and_set cache (account_cache_key_by_email email) (inner.get_by_email email) ttl t)
  unfolding load_and_set
  loaded_by_email email s t same h =
      bind_cases (Settles s)
        (λ a. cache.set (account_cache_key_by_email email) a ttl >>= λ _. pure a)
        (inner.get_by_email email) t (λ a found. set_by_email email a s u same' h)
        (λ e failed. (same'.accounts, settled same' h))
    where
      u : S
      u = (inner.get_by_email email t).1

      same' : IsSame s u
      same' = record {
        accounts = repo.get_by_email_reads email t ∙ same.accounts;
        cached = leaves.get_by_email email t ∙ same.cached;
      }

  pub get_by_email-settles :
      (email : String) (s : S)
      → IsCoherent (view s) (entries s)
      → (view (Cached.get_by_email inner cache ttl email s).1 ≡ view s)
        × IsCoherent
            (view (Cached.get_by_email inner cache ttl email s).1)
            (entries (Cached.get_by_email inner cache ttl email s).1)
  unfolding Cached.get_by_email
  get_by_email-settles email s h =
      or_load_cases (Settles s) (load_and_set cache key (inner.get_by_email email) ttl)
        (cache.get key s).0 (cache.get key s).1
        (λ a found. ((after_get key s).accounts, settled (after_get key s) h))
        (loaded_by_email email s (cache.get key s).1 (after_get key s) h)
    where
      key : String
      key = account_cache_key_by_email email
