-- ===== src/Domain/Status.antt =====
-- The statuses that can be assigned.
use go_clean_arch_template.Prelude.{
  String, sym, ap, ◌∙◌, refl, zero, suc, ◌==◌, if◌then◌else◌, ℕ, ◌≤◌, ◌≡◌, true, ◌↔◌, arith,
}
use go_clean_arch_template.Prelude.Int.{pos, negsuc}
use go_clean_arch_template.Domain.{
  active, inactive, blocked, deleted, unknown, AccountStatus, valid, status_text,
}

pub valid_iff : (s : AccountStatus) → (valid s ≡ true) ↔ ((n : ℕ) × (s ≡ pos n) × (1 ≤ n) × (n ≤ 4))
unfolding valid
valid_iff (pos n) = (λ h. (n, ground arith, ground arith, ground arith), λ e. ground arith)
valid_iff (negsuc n) = (λ h. cc, λ e. cc (e.1))

status_of_text : String → AccountStatus
status_of_text t =
    if t == "active"
    then active
    else if t == "inactive"
    then inactive
    else if t == "blocked"
    then blocked
    else if t == "deleted"
    then deleted
    else unknown

status_of_text-status_text :
    (s : AccountStatus) → valid s ≡ true → status_of_text (status_text s) ≡ s
unfolding valid status_text status_of_text
status_of_text-status_text (pos (suc zero)) h = refl
status_of_text-status_text (pos (suc (suc zero))) h = refl
status_of_text-status_text (pos (suc (suc (suc zero)))) h = refl
status_of_text-status_text (pos (suc (suc (suc (suc zero))))) h = refl
status_of_text-status_text (pos zero) h = cc
status_of_text-status_text (pos (suc (suc (suc (suc (suc n)))))) h = ground arith
status_of_text-status_text (negsuc n) h = cc

-- Two statuses that can be assigned and have one text are equal.
pub status_text-injective :
    (s t : AccountStatus) → valid s ≡ true → valid t ≡ true → status_text s ≡ status_text t → s ≡ t
status_text-injective s t p q h =
    sym (status_of_text-status_text s p) ∙ ap status_of_text h ∙ status_of_text-status_text t q
