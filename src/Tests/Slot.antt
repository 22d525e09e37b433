-- ===== src/Tests/Slot.antt =====
-- The world keeps the hypotheses of the model.
use mathlib.Core.Path.{fun_ext}
use go_clean_arch_template.Prelude.{
  String, ◌≡◌, Bool, refl, true, Option, none, some, List, ◌==◌, eq_iff, eq_refl, arith, Bool-cases,
  inl, inr, some_inj, false≢true, ◌∙◌, [], ◌∷◌, sym, if◌then◌else◌, ap,
}
use go_clean_arch_template.Apperr.{is_error, other}
use go_clean_arch_template.Effect.{ok, err}
use go_clean_arch_template.Gorm.{
  AccountModel, Column, text_column, int_column, time_column, err_duplicated_key,
  err_record_not_found,
}
use go_clean_arch_template.Gorm.Contract.{
  put, assign, assign_all, IsForeign, Inserts, inserts, insert_fails, Selects, selects,
  selects_none, Changes, changes, changes_none, IsGorm,
}
use go_clean_arch_template.Tests.World.{rows, row_at, insert, select, modify, slot_db}

IsForeign-sentinel :
    (b : Bool) → IsForeign (if b then err_duplicated_key else other "driver" "full")
unfolding is_error
IsForeign-sentinel b t = ground arith

slot-keyed :
    (o : Option AccountModel) (id : String) (m : AccountModel) → row_at o id ≡ some m → m.id ≡ id
slot-keyed none id m h = cc
slot-keyed (some n) id m h = ground (arith, eq_iff n.id id)

slot-Inserts :
    (m : AccountModel) (o : Option AccountModel)
    → Inserts m (row_at o) (row_at (insert m o).1) (insert m o).0
slot-Inserts m none = inserts refl (λ id n h. cc) refl
slot-Inserts m (some n) = insert_fails _ (IsForeign-sentinel _) refl

not_found-IsForeign : IsForeign err_record_not_found
unfolding is_error
not_found-IsForeign t = refl

not_found_itself : is_error err_record_not_found err_record_not_found ≡ true
unfolding is_error
not_found_itself = refl

nothing_selected :
    (P : AccountModel → Type 0) (o : Option AccountModel)
    → ((id : String) (m : AccountModel) → row_at o id ≡ some m → P m → ⊥)
    → Selects P (row_at o) (err err_record_not_found)
nothing_selected P o h = selects_none err_record_not_found h not_found-IsForeign not_found_itself

at_own_id : (m : AccountModel) → row_at (some m) m.id ≡ some m
at_own_id m = rw (eq_refl m.id)

only_row : (m n : AccountModel) (id : String) → row_at (some m) id ≡ some n → m ≡ n
only_row m n id h = elim (Bool-cases (m.id == id)) [
  | inl same ↦ some_inj (rw same at h)
  | inr differ ↦ absurd (clash (rw differ at h))
]
  where
    clash : none ≡ some n → ⊥
    clash e = cc

slot-first_id :
    (id : String) (o : Option AccountModel)
    → Selects (λ m. m.id ≡ id) (row_at o) (select "id = ?" id o)
slot-first_id id none = nothing_selected (λ m. m.id ≡ id) none (λ j m h p. cc)
slot-first_id id (some m) = elim (Bool-cases (m.id == id)) [
  | inl same ↦ rw same (selects m (at_own_id m) ((eq_iff m.id id).0 same))
  | inr differ ↦ rw differ (
      nothing_selected (λ n. n.id ≡ id) (some m)
        (λ j n h p.
          false≢true (sym differ ∙ (eq_iff m.id id).1 (ap (λ x. x.id) (only_row m n j h) ∙ p))))
]

slot-first_email :
    (email : String) (o : Option AccountModel)
    → Selects (λ m. m.email ≡ email) (row_at o) (select "email = ?" email o)
slot-first_email email none = nothing_selected (λ m. m.email ≡ email) none (λ j m h p. cc)
slot-first_email email (some m) = elim (Bool-cases (m.email == email)) [
  | inl same ↦ rw same (selects m (at_own_id m) ((eq_iff m.email email).0 same))
  | inr differ ↦ rw differ (
      nothing_selected (λ n. n.email ≡ email) (some m)
        (λ j n h p.
          false≢true
            (sym differ ∙ (eq_iff m.email email).1 (ap (λ x. x.email) (only_row m n j h) ∙ p))))
]

-- a row that is changed in place keeps its key
abbrev Keyed : String → Option AccountModel → Type 0
Keyed id none = Unit
Keyed id (some m) = m.id ≡ id

written_at :
    (id : String) (m : AccountModel) (row : Option AccountModel) (j : String)
    → m.id ≡ id
    → Keyed id row
    → row_at row j ≡ put id row (row_at (some m)) j
written_at id m none j same k = ground (arith, eq_iff m.id j, eq_iff id j)
written_at id m (some n) j same k = ground (arith, eq_iff m.id j, eq_iff n.id j, eq_iff id j)

slot-Changes :
    (id : String) (f : AccountModel → Option AccountModel)
    → ((m : AccountModel) → m.id ≡ id → Keyed id (f m))
    → (o : Option AccountModel)
    → Changes id f (row_at o) (row_at (modify id f o).1) (ok (modify id f o).0)
slot-Changes id f keeps none = changes_none refl refl
slot-Changes id f keeps (some m) = elim (Bool-cases (m.id == id)) [
  | inl same ↦
      let here : m.id ≡ id = (eq_iff m.id id).0 same in
      rw same (changes m (rw same) (fun_ext λ j. written_at id m (f m) j here (keeps m here)))
  | inr differ ↦ rw differ (changes_none (rw differ) refl)
]

assign-id : (name : String) (c : Column) (m : AccountModel) → (assign name c m).id ≡ m.id
assign-id name (text_column v) m = ground arith
assign-id name (int_column v) m = ground arith
assign-id name (time_column v) m = ground arith

assign_all-id : (cs : List (String × Column)) (m : AccountModel) → (assign_all cs m).id ≡ m.id
assign_all-id [] m = refl
assign_all-id ((name, c) ∷ cs) m = assign_all-id cs (assign name c m) ∙ assign-id name c m

pub slot-IsGorm : IsGorm slot_db rows
slot-IsGorm = record {
  create = λ m w. slot-Inserts m w.row;
  keyed = λ w id m h. slot-keyed w.row id m h;
  first_id = λ id w. slot-first_id id w.row;
  first_email = λ email w. slot-first_email email w.row;
  first_reads = λ query arg w. refl;
  updates = λ id cs w.
      slot-Changes id (λ m. some (assign_all cs m)) (λ m h. assign_all-id cs m ∙ h) w.row;
  delete = λ id w. slot-Changes id (λ m. none) (λ m h. tt) w.row;
  count_reads = λ status w. refl;
  find_reads = λ status limit offset w. refl;
}
