-- ===== src/Gorm/Faults.antt =====
-- Which errors of the repository say that an account is not there.
use go_clean_arch_template.Prelude.{Bool-cases, inl, inr, ◌≡◌, refl, true, false}
use go_clean_arch_template.Apperr.{Error, app, is_error, app_is, with_cause}
use go_clean_arch_template.Apperr.Catalog.{
  err_account_not_found, err_internal, err_account_already_exists,
}
use go_clean_arch_template.Ports.Contract.{IsNotFound}
use go_clean_arch_template.Gorm.{read_error, write_error, err_record_not_found, err_duplicated_key}
use go_clean_arch_template.Gorm.Contract.{IsForeign}

pub internal-is_other :
    (e : Error)
    → IsForeign e
    → is_error (app (with_cause err_internal e)) (app err_account_not_found) ≡ false
unfolding is_error app_is with_cause
internal-is_other e foreign = foreign err_account_not_found

exists-is_other :
    (e : Error)
    → IsForeign e
    → is_error (app (with_cause err_account_already_exists e)) (app err_account_not_found) ≡ false
unfolding is_error app_is with_cause
exists-is_other e foreign = foreign err_account_not_found

pub write_error-is_other :
    (e : Error) → IsForeign e → is_error (write_error e) (app err_account_not_found) ≡ false
unfolding write_error
write_error-is_other e foreign = elim (Bool-cases (is_error e err_duplicated_key)) [
  | inl dup ↦ rw dup (exists-is_other e foreign)
  | inr more ↦ rw more (internal-is_other e foreign)
]

pub read_error-none :
    (e : Error) → is_error e err_record_not_found ≡ true → IsNotFound (read_error e)
unfolding read_error is_error with_cause app_is
read_error-none e h = rw h refl

pub read_error-is_other :
    (e : Error)
    → IsForeign e
    → is_error e err_record_not_found ≡ false
    → is_error (read_error e) (app err_account_not_found) ≡ false
unfolding read_error
read_error-is_other e foreign h = rw h (internal-is_other e foreign)

pub IsNotFound-is : IsNotFound (app err_account_not_found)
unfolding is_error app_is
IsNotFound-is = refl
