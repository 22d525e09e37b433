-- ===== src/Tests/OneRow.antt =====
-- A table that holds one row at most keeps the contract of Ports/Table.
use mathlib.Core.Path.{fun_ext}
use go_clean_arch_template.Prelude.{
  ℕ, String, Bool, ◌≡◌, refl, true, Option, none, some, ◌==◌, eq_iff, eq_refl, arith, Bool-cases,
  inl, inr, some_inj, false≢true, ◌∙◌, sym, ap, if◌then◌else◌,
}
use go_clean_arch_template.Apperr.{Error, sentinel, other, is_error}
use go_clean_arch_template.Effect.{Result, ok, err}
use go_clean_arch_template.Domain.{Account}
use go_clean_arch_template.Ports.Table.{
  Table, put, IsForeign, Inserts, inserts, insert_fails, Selects, selects, selects_none, Changes,
  changes, changes_none, IsKeyed,
}

module _ {R : Type 0} (dom : R → Account) where
  abbrev pub row_at : Option R → Table R
  row_at none id = none
  row_at (some r) id = if (dom r).id == id then some r else none

  -- a second row does not fit
  abbrev pub insert : R → Option R → Result (Unit {0}) × Option R
  insert r none = (ok tt, some r)
  insert r (some n) = (err (other "driver" "full"), some n)

  abbrev pub choose : (no_rows : Error) → (R → Bool) → Option R → Result R
  choose no_rows test none = err no_rows
  choose no_rows test (some r) = if test r then ok r else err no_rows

  abbrev pub modify : String → (R → Option R) → Option R → Result ℕ × Option R
  modify id f none = (ok 0, none)
  modify id f (some r) = if (dom r).id == id then (ok 1, f r) else (ok 0, some r)

  full-IsForeign : IsForeign (other "driver" "full")
  unfolding is_error
  full-IsForeign t = refl

  pub row_at-IsKeyed : (o : Option R) → IsKeyed dom (row_at o)
  row_at-IsKeyed none id r h = cc
  row_at-IsKeyed (some n) id r h = ground (arith, eq_iff (dom n).id id)

  pub insert-Inserts :
      (r : R) (o : Option R)
      → Inserts dom (dom r).id r (row_at o) (row_at (insert r o).1) (insert r o).0
  insert-Inserts r none = inserts refl (λ id n h. cc) (fun_ext λ j. refl)
  insert-Inserts r (some n) = insert_fails _ full-IsForeign refl

  only_row : (r n : R) (id : String) → row_at (some r) id ≡ some n → r ≡ n
  only_row r n id h = elim (Bool-cases ((dom r).id == id)) [
    | inl same ↦ some_inj (rw same at h)
    | inr differ ↦ absurd (clash (rw differ at h))
  ]
    where
      clash : none ≡ some n → ⊥
      clash e = cc

  module _ (name : String) (P : R → Type 0) (test : R → Bool)
      (sound : (r : R) → test r ≡ true → P r) (complete : (r : R) → P r → test r ≡ true) where
    sentinel-IsForeign : IsForeign (sentinel name)
    unfolding is_error
    sentinel-IsForeign t = refl

    sentinel_itself : is_error (sentinel name) (sentinel name) ≡ true
    unfolding is_error
    sentinel_itself = eq_refl name

    pub choose-Selects :
        (o : Option R) → Selects (sentinel name) P (row_at o) (choose (sentinel name) test o)
    choose-Selects none = selects_none _ (λ j n h p. cc) sentinel-IsForeign sentinel_itself
    choose-Selects (some r) = elim (Bool-cases (test r)) [
      | inl yea ↦ rw yea (selects (dom r).id r (rw (eq_refl (dom r).id)) (sound r yea))
      | inr nay ↦ rw nay (
          selects_none _
            (λ j n h p. false≢true (sym nay ∙ ap test (only_row r n j h) ∙ complete n p))
            sentinel-IsForeign sentinel_itself)
    ]

  -- a row that is changed in place keeps its key
  abbrev pub Keyed : String → Option R → Type 0
  Keyed id none = Unit
  Keyed id (some r) = (dom r).id ≡ id

  written_at :
      (id : String) (r : R) (row : Option R) (j : String)
      → (dom r).id ≡ id
      → Keyed id row
      → row_at row j ≡ put id row (row_at (some r)) j
  written_at id r none j same k = ground (arith, eq_iff (dom r).id j, eq_iff id j)
  written_at id r (some n) j same k =
      ground (arith, eq_iff (dom r).id j, eq_iff (dom n).id j, eq_iff id j)

  pub modify-Changes :
      (id : String) (f : R → Option R)
      → ((r : R) → (dom r).id ≡ id → Keyed id (f r))
      → (o : Option R) → Changes id f (row_at o) (row_at (modify id f o).1) (modify id f o).0
  modify-Changes id f keeps none = changes_none refl refl
  modify-Changes id f keeps (some r) = elim (Bool-cases ((dom r).id == id)) [
    | inl same ↦
        let here : (dom r).id ≡ id = (eq_iff (dom r).id id).0 same in
        rw same (changes r (rw same) (fun_ext λ j. written_at id r (f r) j here (keeps r here)))
    | inr differ ↦ rw differ (changes_none (rw differ) refl)
  ]
