-- ===== src/Lock/Contract.antt =====
-- What the locker relies on of Redis, over the values that are live under each key.
use go_clean_arch_template.Prelude.{
  String, Bool, true, false, Option, none, some, ◌≡◌, ◌==◌, if◌then◌else◌,
}
use go_clean_arch_template.Prelude.Int.{ℤ}
use go_clean_arch_template.Apperr.{Error}
use go_clean_arch_template.Effect.{Result, ok, err, M}
use go_clean_arch_template.Lock.{Redis}

abbrev pub Values : Type 0
Values = String → Option String

abbrev pub put : String → Option String → Values → Values
put key value v k = if key == k then value else v k

-- SET NX from the values `v` to `w`: a call that fails may have been carried out.
pub data SetOnce (key value : String) (v w : Values) : Result Bool → Type 0 where
  set : v key ≡ none → w ≡ put key (some value) v → SetOnce key value v w (ok true)
  held : (other : String) → v key ≡ some other → w ≡ v → SetOnce key value v w (ok false)
  lost : (e : Error) → v key ≡ none → w ≡ put key (some value) v → SetOnce key value v w (err e)
  failed : (e : Error) → w ≡ v → SetOnce key value v w (err e)

-- A script runs as one command. `u` are the values before, `w` after it ran, `x` after the call.
pub data Ran {A : Type 0} (u w x : Values) : Result A → Result A → Type 0 where
  ran : (r : Result A) → x ≡ w → Ran u w x r r
  lost : (r : Result A) (e : Error) → x ≡ w → Ran u w x r (err e)
  not_run : (r : Result A) (e : Error) → x ≡ u → Ran u w x r (err e)

pub record IsRedis {S Ctx : Type 0} (redis : Redis S Ctx) (values : S → Values) : Type 1 where
  pub set_nx :
      (ctx : Ctx) (key value : String) (ttl : ℤ) (s : S)
      → SetOnce key value
          (values s)
          (values (redis.set_nx ctx key value ttl s).1)
          (redis.set_nx ctx key value ttl s).0
  pub get_value : (key : String) (s : S) → (redis.get key s).0 ≡ ok (values s key)
  pub get_reads : (key : String) (s : S) → values (redis.get key s).1 ≡ values s
  pub del : (key : String) (s : S) → values (redis.del key s).1 ≡ put key none (values s)
  pub run :
      (ctx : Ctx) {A : Type 0} (m : M S A) (s : S)
      → Ran (values s) (values (m s).1) (values (redis.run ctx m s).1) (m s).0 (redis.run ctx m s).0
