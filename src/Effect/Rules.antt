-- ===== src/Effect/Rules.antt =====
-- One rule for each way to go on after a call: to prove `P` of what a method returns, prove it
-- where the call succeeds and where it fails, each with the equation that says so.
use go_clean_arch_template.Prelude.{Bool, true, false, ◌≡◌, refl}
use go_clean_arch_template.Apperr.{Error}
use go_clean_arch_template.Effect.{Result, ok, err, M, map_result, map_err, guard, continue, ◌>>=◌}

module _ {S A B : Type 0} (P : Result B × S → Type 0) (f : A → M S B) where
  pub continue_cases :
      (r : Result A) (s : S)
      → ((a : A) → r ≡ ok a → P (f a s))
      → ((e : Error) → r ≡ err e → P (err e, s))
      → P (continue r f s)
  continue_cases (ok a) s good bad = good a refl
  continue_cases (err e) s good bad = bad e refl

  pub bind_cases :
      (m : M S A) (s : S)
      → ((a : A) → (m s).0 ≡ ok a → P (f a (m s).1))
      → ((e : Error) → (m s).0 ≡ err e → P (err e, (m s).1))
      → P ((m >>= f) s)
  bind_cases m s = continue_cases (m s).0 (m s).1

  map_result_cases :
      (g : Error → Error) (r : Result A) (s : S)
      → ((a : A) → r ≡ ok a → P (f a s))
      → ((e : Error) → r ≡ err e → P (err (g e), s))
      → P (continue (map_result g r) f s)
  map_result_cases g (ok a) s good bad = good a refl
  map_result_cases g (err e) s good bad = bad e refl

  pub map_err_cases :
      (g : Error → Error) (m : M S A) (s : S)
      → ((a : A) → (m s).0 ≡ ok a → P (f a (m s).1))
      → ((e : Error) → (m s).0 ≡ err e → P (err (g e), (m s).1))
      → P ((map_err g m >>= f) s)
  map_err_cases g m s = map_result_cases g (m s).0 (m s).1

pub guard_cases :
    {S B : Type 0} (P : Result B × S → Type 0) (m : M S B) (b : Bool) (e : Error) (s : S)
    → (b ≡ true → P (m s))
    → (b ≡ false → P (err e, s))
    → P ((guard b e >>= λ _. m) s)
guard_cases P m true e s good bad = good refl
guard_cases P m false e s good bad = bad refl
