-- ===== src/Effect/Keeps.antt =====
-- Calls that leave a part of the state as it is, whatever they return.
use go_clean_arch_template.Prelude.{◌≡◌, refl, ◌∙◌}
use go_clean_arch_template.Apperr.{Error}
use go_clean_arch_template.Effect.{Result, ok, err, M, map_err, continue, ◌>>=◌}

module _ {S V : Type 0} (part : S → V) where
  abbrev pub Keeps : {A : Type 0} → M S A → Type 0
  Keeps m = (s : S) → part (m s).1 ≡ part s

  module _ {A B : Type 0} (f : A → M S B) where
    continue-Keeps :
        ((a : A) → Keeps (f a)) → (r : Result A) (s : S) → part (continue r f s).1 ≡ part s
    continue-Keeps k (ok a) s = k a s
    continue-Keeps k (err e) s = refl

    pub bind-Keeps : (m : M S A) → Keeps m → ((a : A) → Keeps (f a)) → Keeps (m >>= f)
    bind-Keeps m h k s = continue-Keeps k (m s).0 (m s).1 ∙ h s

    pub map_err-Keeps :
        (g : Error → Error) (m : M S A)
        → Keeps m
        → ((a : A) → Keeps (f a))
        → Keeps (map_err g m >>= f)
    map_err-Keeps g m h k s = bind-Keeps (map_err g m) h k s
