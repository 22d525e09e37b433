-- ===== src/Tests/Wiring.antt =====
-- The use case over the GORM repository in the small world, as the program wires it but for the
-- cache, and the cached repository over it.
use go_clean_arch_template.Prelude.{◌≡◌, refl, Option, none, some, arith}
use go_clean_arch_template.Effect.{Result, ok, err}
use go_clean_arch_template.Domain.{Account}
use go_clean_arch_template.Ports.{AccountRepository}
use go_clean_arch_template.Ports.Contract.{Accounts, Transacted, committed, rolled_back}
use go_clean_arch_template.Usecase.{AccountUseCase}
use go_clean_arch_template.Usecase.Outcome.{IsWired}
use go_clean_arch_template.Gorm
use go_clean_arch_template.Gorm.Mapping.{accounts_of}
use go_clean_arch_template.Gorm.Refines.{repository-IsRepository}
use go_clean_arch_template.Cache.Contract.{wrote, IsCache}
use go_clean_arch_template.Cached.Reads.{LeavesCache}
use go_clean_arch_template.Tests.World.{
  World, rows, entries, found, slot_db, map_cache, slot_tx, settle, open_limiter, plain_passwords,
}
use go_clean_arch_template.Tests.Slot.{slot-IsGorm}

abbrev pub gorm_repo : AccountRepository World
gorm_repo = Gorm.repository slot_db

abbrev pub stored : World → Accounts
stored w = accounts_of (rows w)

abbrev pub service : AccountUseCase World
service = record {
  repo = gorm_repo;
  tx = slot_tx;
  limiter = open_limiter;
  passwords = plain_passwords;
}

settle-Transacted :
    {A : Type 0} (v w : World) (r : Result A)
    → Transacted (stored v) (stored w) (stored (settle v r w).1) r (settle v r w).0
settle-Transacted v w (ok a) = committed a refl
settle-Transacted v w (err e) = rolled_back e e (λ t h. h) refl

pub service-IsWired : IsWired service stored
service-IsWired = record {
  repo = repository-IsRepository slot_db rows slot-IsGorm;
  tx = record { atomic = λ m s. settle-Transacted s (m s).1 (m s).0 };
  limiter = record { limit_reads = λ q s. refl };
}

found-ok : (o : Option Account) (a : Account) → found o ≡ ok a → o ≡ some a
found-ok none a h = cc
found-ok (some b) a h = cc

pub map_cache-IsCache : IsCache map_cache entries stored
map_cache-IsCache = record {
  get_found = λ k s v h. found-ok (s.cached k) v h;
  get_reads = λ k s. refl;
  get_rest = λ k s. refl;
  set = λ k v ttl s. wrote refl;
  set_rest = λ k v ttl s. refl;
  delete = λ k s. wrote refl;
  delete_rest = λ k s. refl;
  set_foreign = λ k v ttl s e t h. cc;
}

pub gorm_repo-LeavesCache : LeavesCache gorm_repo entries
unfolding Gorm.create Gorm.get_by_id Gorm.get_by_email Gorm.get_one Gorm.update Gorm.delete
    Gorm.list
gorm_repo-LeavesCache = record {
  create = λ a s. ground arith;
  get_by_id = λ id s. ground arith;
  get_by_email = λ email s. ground arith;
  update = λ p s. ground arith;
  delete = λ id s. ground arith;
  list = λ f s. refl;
}
