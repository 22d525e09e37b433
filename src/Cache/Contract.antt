-- ===== src/Cache/Contract.antt =====
-- What the program relies on of the cache library: an entry is what was set last under its key, as
-- long as it is there, and a failed call has either been applied or not.
-- `entry` is what the store holds, `T` any other part of the state, which the cache leaves alone.
use go_clean_arch_template.Prelude.{ℕ, String, ◌≡◌, Option, none, some, ◌==◌, if◌then◌else◌, false}
use go_clean_arch_template.Apperr.{AppError, Error, app, is_error}
use go_clean_arch_template.Effect.{Result, ok, err}
use go_clean_arch_template.Cache.{LibCache}

abbrev pub Entries : Type 0 → Type 0
Entries V = String → Option V

abbrev pub entry_put : {V : Type 0} → String → Option V → Entries V → Entries V
entry_put k o c j = if k == j then o else c j

-- A write of `o` under `k`, from the entries `c` to `d`.
pub data Wrote {V : Type 0} (k : String) (o : Option V) (c d : Entries V)
    : Result (Unit {0}) → Type 0 where
  wrote : d ≡ entry_put k o c → Wrote k o c d (ok tt)
  not_written : (e : Error) → d ≡ c → Wrote k o c d (err e)
  written_anyway : (e : Error) → d ≡ entry_put k o c → Wrote k o c d (err e)

pub record IsCache {S V T : Type 0} (cache : LibCache S V) (entries : S → Entries V) (rest : S → T)
    : Type 0 where
  pub get_found : (k : String) (s : S) (v : V) → (cache.get k s).0 ≡ ok v → entries s k ≡ some v
  pub get_reads : (k : String) (s : S) → entries (cache.get k s).1 ≡ entries s
  pub get_rest : (k : String) (s : S) → rest (cache.get k s).1 ≡ rest s
  pub set :
      (k : String) (v : V) (ttl : ℕ) (s : S)
      → Wrote k (some v) (entries s) (entries (cache.set k v ttl s).1) (cache.set k v ttl s).0
  pub set_rest : (k : String) (v : V) (ttl : ℕ) (s : S) → rest (cache.set k v ttl s).1 ≡ rest s
  pub delete :
      (k : String) (s : S)
      → Wrote k none (entries s) (entries (cache.delete k s).1) (cache.delete k s).0
  pub delete_rest : (k : String) (s : S) → rest (cache.delete k s).1 ≡ rest s
  -- the errors of the library hold no AppError
  pub set_foreign :
      (k : String) (v : V) (ttl : ℕ) (s : S) (e : Error) (t : AppError)
      → (cache.set k v ttl s).0 ≡ err e
      → is_error e (app t) ≡ false
