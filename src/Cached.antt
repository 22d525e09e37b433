-- ===== src/Cached.antt =====
-- internal/adapter/repo/cached: the read-through cache around a repository.
-- The warning that `invalidate` logs is left out.
pub mod Coherence
pub mod Reads
pub mod Writes
pub mod Stale
pub mod Raced
pub mod Store
pub mod Broken
use go_clean_arch_template.Prelude.{ℕ, String, List}
use go_clean_arch_template.Prelude.Int.{ℤ}
use go_clean_arch_template.Effect.{M, pure, ◌>>=◌, ◌>>◌}
use go_clean_arch_template.Domain.{
  Account, UpdateAccountParams, ListAccountFilter, account_cache_key_by_id,
  account_cache_key_by_email,
}
use go_clean_arch_template.Ports.{AccountRepository}
use go_clean_arch_template.Cache.{LibCache, get_once}
use go_clean_arch_template.Cache

module _ {S : Type 0} (inner : AccountRepository S) (cache : LibCache S Account) (ttl : ℕ) where
  unfoldable pub get_by_id : String → M S Account
  unfolding get_once
  get_by_id id = get_once cache (account_cache_key_by_id id) (inner.get_by_id id) ttl

  unfoldable pub get_by_email : String → M S Account
  unfolding get_once
  get_by_email email =
      get_once cache (account_cache_key_by_email email) (inner.get_by_email email) ttl

  unfoldable pub create : Account → M S String
  create e = inner.create e

  -- invalidate: an error of the eviction is dropped
  unfoldable pub invalidate : String → M S (Unit {0})
  unfolding Cache.delete
  invalidate key s = let (evicted, s') = Cache.delete cache key s in pure tt s'

  unfoldable pub update : UpdateAccountParams → M S (Unit {0})
  unfolding invalidate
  update p = do inner.update p; invalidate (account_cache_key_by_id p.id); pure tt

  unfoldable pub delete : String → M S (Unit {0})
  unfolding invalidate
  delete id = do inner.delete id; invalidate (account_cache_key_by_id id); pure tt

  unfoldable pub list : ListAccountFilter → M S (List Account × ℤ)
  list f = inner.list f

  -- NewAccountRepository
  abbrev pub repository : AccountRepository S
  repository = record {
    create = create;
    get_by_id = get_by_id;
    get_by_email = get_by_email;
    update = update;
    delete = delete;
    list = list;
  }
