-- ===== src/Tests/Racing.antt =====
-- The theorem about other processes, which here delete the only row between any two calls.
use go_clean_arch_template.Prelude.{none, List, [], ◌∷◌, refl}
use go_clean_arch_template.Effect.{Result, ok, err}
use go_clean_arch_template.Ports.Contract.{IsRepository-IsStore}
use go_clean_arch_template.Gorm.Mapping.{accounts_of}
use go_clean_arch_template.Gorm.Refines.{repository-IsRepository}
use go_clean_arch_template.Usecase.{Command, create_with, serve, get_with, delete_with}
use go_clean_arch_template.Usecase.Invariant.{IsSound}
use go_clean_arch_template.Usecase.Disturbed.{
  disturbed, pauses, Isolated, committed, undone, IsIsolated, IsShared,
}
use go_clean_arch_template.Usecase.Races.{serve_disturbed-IsSound}
use go_clean_arch_template.Tests.World.{slot_tx, World, rows, slot_db, settle}
use go_clean_arch_template.Tests.Slot.{slot-IsGorm}
use go_clean_arch_template.Tests.Wiring.{stored, service, service-IsWired}
use go_clean_arch_template.Tests.StaleCache.{request, stale_world, stale_world-IsSound}

abbrev pub others : World → World
others w = record w { row = none }

settle-Isolated :
    {A : Type 0} (s t : World) (r : Result A) → Isolated others stored s t (settle s r t).1
unfolding pauses
settle-Isolated s t (ok a) = committed refl
settle-Isolated s t (err e) = undone 0 refl

pub slot_tx-IsIsolated : IsIsolated slot_tx stored others
slot_tx-IsIsolated = record { isolated = λ m s. settle-Isolated s (m s).1 (m s).0 }

pub others-IsSound : (w : World) → IsSound (stored (others w))
unfolding accounts_of
others-IsSound w = record { good = λ id a h. cc; unique = λ i j a b p q e. cc }

service-IsShared : IsShared service stored others
service-IsShared = record {
  repo = IsRepository-IsStore (repository-IsRepository slot_db rows slot-IsGorm);
  limiter = service-IsWired.limiter;
  tx = slot_tx-IsIsolated;
  others_sound = λ s h. others-IsSound s;
}

abbrev commands : List Command
commands = create_with 7 "a1" request ∷ get_with "a1" ∷ delete_with "a1" ∷ []

serve_disturbed-IsSound_example :
    IsSound (stored (serve (disturbed others service) commands stale_world))
serve_disturbed-IsSound_example =
    serve_disturbed-IsSound service stored others service-IsShared commands stale_world
      stale_world-IsSound
