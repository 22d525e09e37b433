-- ===== src/Tests/Pages.antt =====
-- List of the GORM repository in the small world.
use go_clean_arch_template.Prelude.{
  Bool-cases, inl, inr, Option, none, some, List, [], ◌∷◌, ◌≡◌, refl, eq_refl, some_inj, sym, ap,
  subst, ◌∙◌, String, ◌==◌,
}
use go_clean_arch_template.Prelude.Int.{ℤ, pos, int_eq, int_eq_iff}
use go_clean_arch_template.Prelude.Lists.{All, nil, cons, In, in_head, Once, once_nil, once_cons}
use go_clean_arch_template.Effect.{ok}
use go_clean_arch_template.Domain.{ListAccountFilter, active}
use go_clean_arch_template.Gorm.{AccountModel, to_domain, list}
use go_clean_arch_template.Gorm.Mapping.{accounts_of}
use go_clean_arch_template.Gorm.Paging.{IsPaging, IsPage, HasStatus, list-IsPage}
use go_clean_arch_template.Tests.World.{
  World, rows, row_at, matching, slot_db, jane_world, jane_row,
}

abbrev scan : Option ℤ → World → List AccountModel
scan status w = matching status w.row

row_is : (n : AccountModel) (id : String) (m : AccountModel) → row_at (some n) id ≡ some m → n ≡ m
row_is n id m h = elim (Bool-cases (n.id == id)) [
  | inl same ↦ some_inj (sym (rw same refl) ∙ h)
  | inr differ ↦ cc
]

own_row : (m : AccountModel) → row_at (some m) m.id ≡ some m
own_row m = rw (eq_refl m.id) refl

matching-All :
    (status : Option ℤ) (o : Option AccountModel)
    → All (λ m. (row_at o m.id ≡ some m) × HasStatus status m.status) (matching status o)
matching-All none none = nil
matching-All (some st) none = nil
matching-All none (some m) = cons m [] (own_row m, tt) nil
matching-All (some st) (some m) = elim (Bool-cases (int_eq m.status st)) [
  | inl same ↦ rw same (cons m [] (own_row m, (int_eq_iff m.status st).0 same) nil)
  | inr differ ↦ rw differ nil
]

-- the one row is found
matching-In :
    (status : Option ℤ) (o : Option AccountModel) (id : String) (m : AccountModel)
    → row_at o id ≡ some m
    → HasStatus status m.status
    → In m (matching status o)
matching-In status none id m at has = cc
matching-In none (some n) id m at has = subst (λ x. In x (n ∷ [])) (row_is n id m at) (in_head [])
matching-In (some st) (some n) id m at has =
    rw (ap (λ x. int_eq x.status st) (row_is n id m at) ∙ (int_eq_iff m.status st).1 has)
      (subst (λ x. In x (n ∷ [])) (row_is n id m at) (in_head []))

matching-Once : (status : Option ℤ) (o : Option AccountModel) → Once (λ m. m.id) (matching status o)
matching-Once none none = once_nil
matching-Once (some st) none = once_nil
matching-Once none (some m) = once_cons m [] nil once_nil
matching-Once (some st) (some m) = elim (Bool-cases (int_eq m.status st)) [
  | inl same ↦ rw same (once_cons m [] nil once_nil)
  | inr differ ↦ rw differ once_nil
]

slot-IsPaging : IsPaging slot_db rows scan
slot-IsPaging = record {
  scan_stored = λ status w. matching-All status w.row;
  scan_complete = λ status w id m at has. matching-In status w.row id m at has;
  scan_once = λ status w. matching-Once status w.row;
  count_ok = λ status w n h. cc;
  count_scan = λ status w. refl;
  find_ok = λ status limit offset w page h. cc;
}

abbrev all_active : ListAccountFilter
all_active = record { status = some active; limit = pos 10; offset = pos 0 }

list_test : (list slot_db all_active jane_world).0 ≡ ok (to_domain jane_row ∷ [], pos 1)
unfolding list
list_test = refl

list-IsPage_example :
    IsPage (accounts_of (rows jane_world)) all_active (to_domain jane_row ∷ []) (pos 1)
list-IsPage_example =
    list-IsPage slot_db rows scan slot-IsPaging all_active jane_world (to_domain jane_row ∷ [])
      (pos 1) list_test
