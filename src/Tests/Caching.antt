-- ===== src/Tests/Caching.antt =====
-- The theorems about the cached repository, over the small world.
use go_clean_arch_template.Prelude.{
  ℕ, ◌≡◌, ◌≢◌, refl, ap, false≢true, none, some, List, [], ◌∷◌, eq_iff, eq_refl, some_inj, sym, ◌∙◌,
}
use go_clean_arch_template.Prelude.Int.{pos}
use go_clean_arch_template.Effect.{Result, ok}
use go_clean_arch_template.Domain.{
  Account, UpdateAccountParams, UpdateAccountRequest, account_cache_key_by_id,
  account_cache_key_by_email,
}
use go_clean_arch_template.Ports.Contract.{Fetched, patch}
use go_clean_arch_template.Usecase.{update_in_tx, update_params}
use go_clean_arch_template.Gorm
use go_clean_arch_template.Gorm.{to_domain}
use go_clean_arch_template.Gorm.Mapping.{accounts_of}
use go_clean_arch_template.Gorm.Refines.{repository-IsRepository}
use go_clean_arch_template.Cache.Contract.{entry_put}
use go_clean_arch_template.Cached
use go_clean_arch_template.Cached.Coherence.{IsCoherent}
use go_clean_arch_template.Cached.Reads.{get_by_id-IsCoherent}
use go_clean_arch_template.Cached.Writes.{
  Call, gets_by_id, gets_by_email, deletes, after_calls, get_by_id-fresh,
}
use go_clean_arch_template.Cached.Stale.{
  get_by_email_after_delete, cached_use_case, rollback_leaves_entry,
}
use go_clean_arch_template.Cached.Raced.{updated_meanwhile, get_by_id_after_race}
use go_clean_arch_template.Tests.World.{
  World, rows, entries, found, map_cache, slot_db, slot_tx, open_limiter, plain_passwords, jane_row,
  jane_world,
}
use go_clean_arch_template.Tests.Slot.{slot-IsGorm}
use go_clean_arch_template.Tests.Wiring.{
  stored, gorm_repo, map_cache-IsCache, gorm_repo-LeavesCache,
}

abbrev ttl : ℕ
ttl = 300000000000

jane_world-IsCoherent : IsCoherent (stored jane_world) (entries jane_world)
jane_world-IsCoherent = record { stored = λ id a h. cc }

get_by_id-IsCoherent_example :
    Fetched (stored jane_world "a1") (Cached.get_by_id gorm_repo map_cache ttl "a1" jane_world).0
    × (stored (Cached.get_by_id gorm_repo map_cache ttl "a1" jane_world).1 ≡ stored jane_world)
    × IsCoherent
        (stored (Cached.get_by_id gorm_repo map_cache ttl "a1" jane_world).1)
        (entries (Cached.get_by_id gorm_repo map_cache ttl "a1" jane_world).1)
get_by_id-IsCoherent_example =
    get_by_id-IsCoherent gorm_repo map_cache ttl stored entries
      (repository-IsRepository slot_db rows slot-IsGorm) map_cache-IsCache gorm_repo-LeavesCache
      "a1" jane_world jane_world-IsCoherent

abbrev calls : List Call
calls = gets_by_id "a1" ∷ gets_by_email "jane@example.com" ∷ deletes "a1" ∷ []

get_by_id-fresh_example :
    Fetched
      (stored (after_calls gorm_repo map_cache ttl calls jane_world) "a1")
      (Cached.get_by_id gorm_repo map_cache ttl "a1"
        (after_calls gorm_repo map_cache ttl calls jane_world)).0
get_by_id-fresh_example =
    get_by_id-fresh gorm_repo map_cache ttl stored entries
      (repository-IsRepository slot_db rows slot-IsGorm) map_cache-IsCache gorm_repo-LeavesCache
      (λ k s. refl) calls "a1" jane_world jane_world-IsCoherent

abbrev jane_account : Account
jane_account = record {
  id = "a1";
  email = "jane@example.com";
  first_name = "Jane";
  last_name = "Doe";
  password_hash = "hashed";
  status = pos 1;
  created_at = 7;
  updated_at = 7;
  deleted_at = none;
}

abbrev warm_world : World
warm_world = record {
  row = some jane_row;
  cached =
      entry_put (account_cache_key_by_email "jane@example.com") (some jane_account) (λ k. none);
}

warm_entry : entries warm_world (account_cache_key_by_email jane_account.email) ≡ some jane_account
warm_entry = rw (eq_refl (account_cache_key_by_email "jane@example.com"))

get_by_email_after_delete_example :
    (Cached.get_by_email gorm_repo map_cache ttl "jane@example.com"
      (Cached.delete gorm_repo map_cache ttl "a1" warm_world).1).0
    ≡ ok jane_account
get_by_email_after_delete_example =
    get_by_email_after_delete gorm_repo map_cache ttl stored entries map_cache-IsCache
      gorm_repo-LeavesCache (λ k s v h. ap found h) "a1" jane_account warm_world warm_entry

abbrev rename : UpdateAccountRequest
rename = record { id = "a1"; first_name = some "Janet"; last_name = none; status = none }

abbrev janet : Account
janet = record jane_account { first_name = "Janet"; updated_at = 9 }

abbrev renamed : Result Account × World
renamed =
    update_in_tx (cached_use_case gorm_repo map_cache ttl slot_tx open_limiter plain_passwords) 9
      rename jane_world

abbrev rolled_back_world : World
rolled_back_world = record { row = some jane_row; cached = entries renamed.1 }

renamed_ok : renamed.0 ≡ ok janet
unfolding update_in_tx Cached.update Cached.get_by_id Gorm.update Gorm.get_by_id
    account_cache_key_by_id
renamed_ok = refl

jane_is_stored : stored jane_world "a1" ≡ some jane_account
unfolding accounts_of to_domain
jane_is_stored = refl

not_janet : stored jane_world "a1" ≢ some janet
not_janet h =
    false≢true
      ((eq_iff "Jane" "Janet").1 (ap (λ x. x.first_name) (some_inj (sym jane_is_stored ∙ h))))

rollback_leaves_entry_example : ¬ IsCoherent (stored rolled_back_world) (entries rolled_back_world)
rollback_leaves_entry_example =
    rollback_leaves_entry gorm_repo map_cache ttl stored entries map_cache-IsCache
      gorm_repo-LeavesCache slot_tx open_limiter plain_passwords 9 rename janet jane_world
      rolled_back_world renamed_ok not_janet refl refl

abbrev renames : UpdateAccountParams
renames = update_params 9 rename

abbrev raced : Result Account × World
raced =
    Cached.get_by_id (updated_meanwhile gorm_repo map_cache ttl renames) map_cache ttl "a1"
      jane_world

rename_test :
    (Cached.update gorm_repo map_cache ttl renames
      (gorm_repo.get_by_id "a1" (map_cache.get (account_cache_key_by_id "a1") jane_world).1).1).0
    ≡ ok tt
unfolding Cached.update Gorm.update Gorm.get_by_id
rename_test = refl

raced_test : raced.0 ≡ ok jane_account
unfolding Cached.update Cached.get_by_id Gorm.update Gorm.get_by_id account_cache_key_by_id
raced_test = refl

get_by_id_after_race_example :
    (stored raced.1 "a1" ≡ some (patch renames jane_account))
    × ((Cached.get_by_id gorm_repo map_cache ttl "a1" raced.1).0 ≡ ok jane_account)
get_by_id_after_race_example =
    get_by_id_after_race gorm_repo map_cache ttl stored entries
      (repository-IsRepository slot_db rows slot-IsGorm) map_cache-IsCache (λ k s v h. ap found h)
      renames jane_account jane_world refl rename_test raced_test
