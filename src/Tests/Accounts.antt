-- ===== src/Tests/Accounts.antt =====
-- The theorems about the use case, over the small world.
use go_clean_arch_template.Prelude.{none, some}
use go_clean_arch_template.Prelude.Int.{pos}
use go_clean_arch_template.Domain.{UpdateAccountRequest}
use go_clean_arch_template.Ports.Contract.{IsRepository}
use go_clean_arch_template.Usecase.{create, update, limit_request}
use go_clean_arch_template.Usecase.Outcome.{IsWired-IsStoring, CreateOutcome, UpdateOutcome}
use go_clean_arch_template.Usecase.Create.{create-CreateOutcome}
use go_clean_arch_template.Usecase.Change.{update-UpdateOutcome}
use go_clean_arch_template.Gorm
use go_clean_arch_template.Gorm.Refines.{repository-IsRepository}
use go_clean_arch_template.Gorm.Mapping.{accounts_of}
use go_clean_arch_template.Tests.World.{rows, slot_db, empty_world, jane, jane_world}
use go_clean_arch_template.Tests.Slot.{slot-IsGorm}
use go_clean_arch_template.Tests.Wiring.{stored, service, service-IsWired}

repository-IsRepository_example : IsRepository (Gorm.repository slot_db) (λ w. accounts_of (rows w))
repository-IsRepository_example = repository-IsRepository slot_db rows slot-IsGorm

create-CreateOutcome_example :
    CreateOutcome service 7 "a1" jane
      (service.limiter.limit (limit_request jane) empty_world).0
      (stored empty_world)
      (stored (create service 7 "a1" jane empty_world).1)
      (create service 7 "a1" jane empty_world).0
create-CreateOutcome_example =
    create-CreateOutcome service stored (IsWired-IsStoring service-IsWired) 7 "a1" jane empty_world

abbrev rename : UpdateAccountRequest
rename = record { id = "a1"; first_name = some "Janet"; last_name = none; status = some (pos 2) }

update-UpdateOutcome_example :
    UpdateOutcome service 9 rename
      (stored jane_world)
      (stored (update service 9 rename jane_world).1)
      (update service 9 rename jane_world).0
update-UpdateOutcome_example =
    update-UpdateOutcome service stored service-IsWired 9 rename jane_world
