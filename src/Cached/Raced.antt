-- ===== src/Cached/Raced.antt =====
-- A read through the cache while another process updates the account: GetOnce looks up, loads and
-- sets in three calls, and the update comes after the load.
use go_clean_arch_template.Prelude.{String, ℕ, ◌≡◌, ◌∙◌, sym, ap, none, some, some_inj, eq_refl}
use go_clean_arch_template.Effect.{ok_inj, Result, ok, continue, ◌>>=◌, pure}
use go_clean_arch_template.Effect.Rules.{bind_cases}
use go_clean_arch_template.Domain.{Account, UpdateAccountParams, account_cache_key_by_id}
use go_clean_arch_template.Ports.{AccountRepository}
use go_clean_arch_template.Ports.Contract.{Accounts, patch, store, IsRepository, Updated}
use go_clean_arch_template.Cache.{LibCache, load_and_set, or_load}
use go_clean_arch_template.Cache.Contract.{Entries, IsCache}
use go_clean_arch_template.Cached
use go_clean_arch_template.Cached.{invalidate}
use go_clean_arch_template.Cached.Reads.{Fetched-ok, or_load_cases}
use go_clean_arch_template.Cached.Writes.{Wrote-ok}
use go_clean_arch_template.Cached.Stale.{entry_put_self}
use go_clean_arch_template.Usecase.Disturbed.{then_others}

module _ {S : Type 0} (inner : AccountRepository S) (cache : LibCache S Account) (ttl : ℕ) where
  -- the repository, where after each read by id another process makes the update `p`
  abbrev pub updated_meanwhile : UpdateAccountParams → AccountRepository S
  updated_meanwhile p = record inner {
    get_by_id = λ id. then_others (λ s. (Cached.update inner cache ttl p s).1) (inner.get_by_id id);
  }

module _ {S : Type 0} (inner : AccountRepository S) (cache : LibCache S Account) (ttl : ℕ)
    (view : S → Accounts) (entries : S → Entries Account) (repo : IsRepository inner view)
    (lib : IsCache cache entries view) where
  store_self :
      (p : UpdateAccountParams) (a : Account) (v : Accounts)
      → store p.id (some (patch p a)) v p.id ≡ some (patch p a)
  store_self p a v = rw (eq_refl p.id)

  -- an update that returned nil, and the eviction after it
  written_lem :
      (p : UpdateAccountParams) (a : Account) (s t : S) (r : Result (Unit {0}))
      → Updated p (view s) (view t) r
      → view s p.id ≡ some a
      → let u =
          continue r
            (λ _. invalidate inner cache ttl (account_cache_key_by_id p.id) >>= λ _. pure tt)
            t in
        u.0 ≡ ok tt → view u.1 p.id ≡ some (patch p a)
  unfolding invalidate
  written_lem p a s t _ (Updated.written b at new) here done =
      ap (λ v. v p.id) (lib.delete_rest (account_cache_key_by_id p.id) t ∙ new)
      ∙ store_self p b (view s)
      ∙ ap (λ x. some (patch p x)) (some_inj (sym at ∙ here))
  written_lem p a s t _ (Updated.missing e gone nf same) here done = cc
  written_lem p a s t _ (Updated.broken e other same) here done = cc

  update_lem :
      (p : UpdateAccountParams) (a : Account) (s : S)
      → view s p.id ≡ some a
      → (Cached.update inner cache ttl p s).0 ≡ ok tt
      → view (Cached.update inner cache ttl p s).1 p.id ≡ some (patch p a)
  unfolding Cached.update
  update_lem p a s here done =
      written_lem p a s (inner.update p s).1 (inner.update p s).0 (repo.update p s) here done

  -- the account that a read returned is cached, and what is stored is that account updated
  abbrev Stale : UpdateAccountParams → Result Account × S → Type 0
  Stale p t =
      (b : Account)
      → t.0 ≡ ok b
      → (view t.1 p.id ≡ some (patch p b)) × (entries t.1 (account_cache_key_by_id p.id) ≡ some b)

  set-Stale :
      (p : UpdateAccountParams) (a : Account) (s : S)
      → view s p.id ≡ some (patch p a)
      → Stale p ((cache.set (account_cache_key_by_id p.id) a ttl >>= λ _. pure a) s)
  set-Stale p a s at =
      bind_cases (Stale p) (λ _. pure a) (cache.set key a ttl) s
        (λ _ stored b e. (
          ap (λ v. v p.id) (lib.set_rest key a ttl s) ∙ at ∙ ap (λ x. some (patch p x)) (ok_inj e),
          ap (λ c. c key) (Wrote-ok (lib.set key a ttl s) stored)
              ∙ entry_put_self key (some a) (entries s)
              ∙ ap some (ok_inj e),
        ))
        (λ e failed b h. cc)
    where
      key : String
      key = account_cache_key_by_id p.id

  load-Stale :
      (p : UpdateAccountParams) (s : S)
      → (Cached.update inner cache ttl p (inner.get_by_id p.id s).1).0 ≡ ok tt
      → Stale p (
          load_and_set cache
            (account_cache_key_by_id p.id)
            ((updated_meanwhile inner cache ttl p).get_by_id p.id)
            ttl
            s)
  unfolding load_and_set
  load-Stale p s done =
      bind_cases (Stale p) (λ a. cache.set (account_cache_key_by_id p.id) a ttl >>= λ _. pure a)
        ((updated_meanwhile inner cache ttl p).get_by_id p.id) s
        (λ a found.
          set-Stale p a _ (update_lem p a (inner.get_by_id p.id s).1 (there a found) done))
        (λ e failed b h. cc)
    where
      there :
          (a : Account)
          → (inner.get_by_id p.id s).0 ≡ ok a
          → view (inner.get_by_id p.id s).1 p.id ≡ some a
      there a found =
          ap (λ v. v p.id) (repo.get_by_id_reads p.id s) ∙ Fetched-ok (repo.get_by_id p.id s) found

  -- If GetByID misses the cache and loads an account, another process then updates that account
  -- and evicts its entry without an error, and the read then sets its entry and returns the
  -- account, the store holds the updated account, and while the cache answers the next GetByID
  -- returns the one before the update.
  pub get_by_id_after_race :
      ((k : String) (s : S) (v : Account) → entries s k ≡ some v → (cache.get k s).0 ≡ ok v)
      → (p : UpdateAccountParams) (a : Account) (s : S)
      → entries s (account_cache_key_by_id p.id) ≡ none
      → (Cached.update inner cache ttl p
          (inner.get_by_id p.id (cache.get (account_cache_key_by_id p.id) s).1).1).0
        ≡ ok tt
      → (Cached.get_by_id (updated_meanwhile inner cache ttl p) cache ttl p.id s).0 ≡ ok a
      → let u = (Cached.get_by_id (updated_meanwhile inner cache ttl p) cache ttl p.id s).1 in
        (view u p.id ≡ some (patch p a)) × ((Cached.get_by_id inner cache ttl p.id u).0 ≡ ok a)
  unfolding Cached.get_by_id
  get_by_id_after_race answers p a s miss done read =
      (stale.0, rw (answers key u a stale.1, or_load))
    where
      key : String
      key = account_cache_key_by_id p.id

      s1 : S
      s1 = (cache.get key s).1

      raced : Result Account × S
      raced = Cached.get_by_id (updated_meanwhile inner cache ttl p) cache ttl p.id s

      u : S
      u = raced.1

      missed : (b : Account) → (cache.get key s).0 ≡ ok b → ⊥
      missed b found = cc (miss, lib.get_found key s b found)

      stale : (view u p.id ≡ some (patch p a)) × (entries u key ≡ some a)
      stale =
          or_load_cases (Stale p)
            (load_and_set cache key ((updated_meanwhile inner cache ttl p).get_by_id p.id) ttl)
            (cache.get key s).0 s1 (λ b found. absurd (missed b found)) (load-Stale p s1 done) a
            read
