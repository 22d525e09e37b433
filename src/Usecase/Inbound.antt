-- ===== src/Usecase/Inbound.antt =====
-- NewAccountUseCase of internal/core/usecase/account/account.go as the interface of
-- internal/ports/inbound/account.go, at one instant and with the next new id.
use go_clean_arch_template.Prelude.{ℕ, String}
use go_clean_arch_template.Ports
use go_clean_arch_template.Usecase.{AccountUseCase, create, get, list, update, delete}

abbrev pub new_account_use_case :
    {S : Type 0} → AccountUseCase S → (now : ℕ) (uuid : String) → Ports.AccountUseCase S
new_account_use_case uc now uuid = record {
  create = create uc now uuid;
  get = get uc;
  list = list uc;
  update = update uc now;
  delete = delete uc;
}
