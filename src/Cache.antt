-- ===== src/Cache.antt =====
-- internal/adapter/cache: the manager over one eko/gocache cache, which is a parameter; the Redis
-- and the in-memory constructor only choose the store behind it.
pub mod Contract
use go_clean_arch_template.Prelude.{ℕ, String, List, [], ◌∷◌}
use go_clean_arch_template.Apperr.{Error, other}
use go_clean_arch_template.Effect.{Result, ok, err, M, pure, fail, ◌>>=◌, ◌>>◌}

-- lib_cache.Cache[V]; the option of Set is the expiration
pub record LibCache (S V : Type 0) : Type 0 where
  pub get : String → M S V
  pub set : String → V → (expiration : ℕ) → M S (Unit {0})
  pub delete : String → M S (Unit {0})

-- the panic of an index that is out of range; no caller recovers it as an error
abbrev pub index_out_of_range : Error
index_out_of_range = other "panic" "index out of range"

-- the two ways on from a lookup
abbrev pub or_load : {S V : Type 0} → Result V → M S V → M S V
or_load (ok value) load = pure value
or_load (err e) load = load

module _ {S V : Type 0} (cache : LibCache S V) where
  -- Manager.Get
  unfoldable pub get : String → M S V
  get key = cache.get key

  -- the miss of GetOnce
  unfoldable pub load_and_set : String → M S V → (expiration : ℕ) → M S V
  load_and_set key loader expiration = do value ← loader; cache.set key value expiration; pure value

  -- Manager.GetOnce: a lookup that fails is a miss
  unfoldable pub get_once : String → M S V → (expiration : ℕ) → M S V
  unfolding load_and_set
  get_once key loader expiration s =
      let (found, s') = cache.get key s in or_load found (load_and_set key loader expiration) s'

  -- Manager.Set
  unfoldable pub set : String → V → (expiration : ℕ) → M S (Unit {0})
  set key value expiration = cache.set key value expiration

  -- Manager.SetMulti
  unfoldable pub set_multi : List String → List V → (expiration : ℕ) → M S (Unit {0})
  set_multi [] values expiration = pure tt
  set_multi (key ∷ keys) [] expiration = fail index_out_of_range
  set_multi (key ∷ keys) (value ∷ values) expiration = do
    cache.set key value expiration
    set_multi keys values expiration

  -- Manager.Delete
  unfoldable pub delete : String → M S (Unit {0})
  delete key = cache.delete key
