-- ===== src/Effect.antt =====
-- Methods that return (T, error) and change the state that they share: the program's calls in
-- order, each with its result and the state after it. A failed call may have changed the state.
pub mod Rules
pub mod Keeps
use go_clean_arch_template.Prelude.{Bool, true, false, ◌≡◌, refl, ◌⊎◌, inl, inr}
use go_clean_arch_template.Apperr.{Error}

pub data Result {ℓ} (A : Type ℓ) : Type ℓ where
  ok : A → Result A
  err : Error → Result A

abbrev pub M : Type 0 → Type 0 → Type 0
M S A = S → Result A × S

module _ {S A : Type 0} where
  abbrev pub pure : A → M S A
  pure a s = (ok a, s)

  abbrev pub fail : Error → M S A
  fail e s = (err e, s)

  -- a call that does not touch the state
  abbrev pub lift : Result A → M S A
  lift r s = (r, s)

abbrev pub map_result : {A : Type 0} → (Error → Error) → Result A → Result A
map_result f (ok a) = ok a
map_result f (err e) = err (f e)

-- `if err != nil { return nil, f(err) }`
abbrev pub map_err : {S A : Type 0} → (Error → Error) → M S A → M S A
map_err f m s = let (r, s') = m s in (map_result f r, s')

-- `if !b { return nil, err }`
abbrev pub guard : {S : Type 0} → Bool → Error → M S (Unit {0})
guard true e s = (ok tt, s)
guard false e s = (err e, s)

module _ {S A B : Type 0} where
  abbrev pub continue : Result A → (A → M S B) → M S B
  continue (ok a) f s = f a s
  continue (err e) f s = (err e, s)

  infixl 5 ◌>>=◌ ◌>>◌
  abbrev pub ◌>>=◌ : M S A → (A → M S B) → M S B
  ◌>>=◌ m f s = let (r, s') = m s in continue r f s'

  abbrev pub ◌>>◌ : M S A → M S B → M S B
  m >> k = m >>= λ _. k

pub ok_inj : {A : Type 0} {a b : A} → ok a ≡ ok b → a ≡ b
ok_inj h = cc

pub Result-cases :
    {A : Type 0} (r : Result A) → ((a : A) × (r ≡ ok a)) ⊎ ((e : Error) × (r ≡ err e))
Result-cases (ok a) = inl (a, refl)
Result-cases (err e) = inr (e, refl)
