-- ===== src/Ports/Table/Keeps.antt =====
-- Calls that map a statement's result to the repository's, over any table: what such a call returns
-- and stores is what the repository contract says.
use mathlib.Core.Path.{fun_ext}
use go_clean_arch_template.Prelude.{
  ℕ, String, ◌≡◌, ◌≢◌, refl, sym, ap, ◌∙◌, true, false, Option, none, some, some_inj, Bool-cases,
  inl, inr, ◌==◌, Bool, if◌then◌else◌,
}
use go_clean_arch_template.Apperr.{Error, app, is_error, app_is, with_cause}
use go_clean_arch_template.Apperr.Catalog.{
  err_account_not_found, err_internal, err_account_already_exists,
}
use go_clean_arch_template.Effect.{Result, ok, err, continue, map_result, pure}
use go_clean_arch_template.Domain.{Account, UpdateAccountParams}
use go_clean_arch_template.Ports.Contract.{
  store, patch, IsFree, IsNotFound, Created, inserted, refused, Fetched, FetchedBy, Updated,
  Deleted,
}
use go_clean_arch_template.Ports.Table.{
  Table, put, IsForeign, Inserts, inserts, insert_fails, Selects, selects, selects_none,
  select_fails, Changes, changes, changes_none, change_fails, row_account, accounts_of, IsKeyed,
  counted,
}

-- A mapper of errors that makes no foreign error ErrAccountNotFound.
abbrev pub Hides : (Error → Error) → Type 0
Hides f = (e : Error) → IsForeign e → is_error (f e) (app err_account_not_found) ≡ false

-- A mapper of errors that makes exactly the sentinel ErrAccountNotFound.
pub record Reads (no_rows : Error) (f : Error → Error) : Type 0 where
  pub none_found : (e : Error) → is_error e no_rows ≡ true → IsNotFound (f e)
  pub failed :
      (e : Error)
      → IsForeign e
      → is_error e no_rows ≡ false
      → is_error (f e) (app err_account_not_found) ≡ false

IsNotFound-is : IsNotFound (app err_account_not_found)
unfolding is_error app_is
IsNotFound-is = refl

module _ {R : Type 0} (dom : R → Account) where
  pub accounts_of-put :
      (id : String) (row : Option R) (t : Table R)
      → accounts_of dom (put id row t) ≡ store id (row_account dom row) (accounts_of dom t)
  unfolding accounts_of
  accounts_of-put id row t =
      fun_ext λ j. elim (Bool-cases (id == j)) [ inl same ↦ rw same | inr differ ↦ rw differ ]

  row_of_account :
      (o : Option R) (b : Account)
      → row_account dom o ≡ some b
      → (r : R) × (o ≡ some r) × (dom r ≡ b)
  row_of_account none b h = cc
  row_of_account (some r) b h = (r, refl, some_inj h)

  -- an email that no row has is free
  IsFree-of_rows :
      (email : String) (t : Table R)
      → ((id : String) (r : R) → t id ≡ some r → (dom r).email ≢ email)
      → IsFree email (accounts_of dom t)
  unfolding accounts_of
  IsFree-of_rows email t free id b h e =
      let (r, at, same) = row_of_account (t id) b h in free id r at (ap (λ x. x.email) same ∙ e)

  no_account :
      (id : String) (o : Option R)
      → ((r : R) → o ≡ some r → (dom r).id ≡ id)
      → ((r : R) → o ≡ some r → (dom r).id ≡ id → ⊥)
      → row_account dom o ≡ none
  no_account id none k n = refl
  no_account id (some r) k n = absurd (n r refl (k r refl))

  module _ {S : Type 0} (rows : S → Table R) where
    pub Created-lem :
        (a : Account) (row : R) (f : Error → Error) (t : Table R) (r : Result (Unit {0})) (s : S)
        → dom row ≡ a
        → Inserts dom a.id row t (rows s) r
        → let u : Result String × S = continue (map_result f r) (λ _. pure a.id) s in
          Created a (accounts_of dom t) (accounts_of dom (rows u.1)) u.0
    unfolding accounts_of
    Created-lem a row f t _ s same (inserts new free stored) =
        inserted (ap (row_account dom) new)
          (IsFree-of_rows a.email t (λ j r at e. free j r at (e ∙ ap (λ x. x.email) (sym same))))
          (ap (accounts_of dom) stored
            ∙ accounts_of-put a.id (some row) t
            ∙ ap (λ b. store a.id (some b) (accounts_of dom t)) same)
    Created-lem a row f t _ s same (insert_fails e foreign kept) =
        refused (f e) (ap (accounts_of dom) kept)

    pub Created-fault :
        (a : Account) (row : R) (f : Error → Error) (t : Table R) (r : Result (Unit {0})) (s : S)
        → Hides f
        → Inserts dom a.id row t (rows s) r
        → (e : Error) → (continue (map_result f r) (λ _. pure {S = S} a.id) s).0 ≡ err e
        → is_error e (app err_account_not_found) ≡ false
    Created-fault a row f t _ s hides (inserts new free stored) e h = cc
    Created-fault a row f t _ s hides (insert_fails fault foreign kept) e h =
        let hidden = hides fault foreign in cc

    pub Fetched-lem :
        (no_rows : Error) (id : String) (f : Error → Error) (t : Table R) (r : Result R) (s : S)
        → Reads no_rows f
        → IsKeyed dom t
        → Selects no_rows (λ x. (dom x).id ≡ id) t r
        → Fetched (accounts_of dom t id) (continue (map_result f r) (λ x. pure {S = S} (dom x)) s).0
    unfolding accounts_of
    Fetched-lem no_rows id f t _ s reads key (selects j x at p) =
        Fetched.hit (dom x)
          (ap (λ i. row_account dom (t i)) (sym p ∙ key j x at) ∙ ap (row_account dom) at)
    Fetched-lem no_rows id f t _ s reads key (selects_none e no_row foreign nf) =
        Fetched.miss (f e) (no_account id (t id) (key id) (no_row id)) (reads.none_found e nf)
    Fetched-lem no_rows id f t _ s reads key (select_fails e foreign other) =
        Fetched.broken (f e) (reads.failed e foreign other)

    pub FetchedBy-lem :
        (no_rows : Error) (email : String) (f : Error → Error) (t : Table R) (r : Result R) (s : S)
        → Reads no_rows f
        → IsKeyed dom t
        → Selects no_rows (λ x. (dom x).email ≡ email) t r
        → FetchedBy email
            (accounts_of dom t)
            (continue (map_result f r) (λ x. pure {S = S} (dom x)) s).0
    unfolding accounts_of
    FetchedBy-lem no_rows email f t _ s reads key (selects j x at p) =
        FetchedBy.hit (dom x)
          (ap (λ i. row_account dom (t i)) (key j x at) ∙ ap (row_account dom) at) p
    FetchedBy-lem no_rows email f t _ s reads key (selects_none e no_row foreign nf) =
        FetchedBy.miss (f e) (IsFree-of_rows email t no_row) (reads.none_found e nf)
    FetchedBy-lem no_rows email f t _ s reads key (select_fails e foreign other) =
        FetchedBy.broken (f e) (reads.failed e foreign other)

    pub Updated-lem :
        (p : UpdateAccountParams) (row : R → R) (f : Error → Error) (t : Table R) (r : Result ℕ)
        (s : S)
        → Hides f
        → ((x : R) → dom (row x) ≡ patch p (dom x))
        → Changes p.id (λ x. some (row x)) t (rows s) r
        → let u : Result (Unit {0}) × S = continue (map_result f r) counted s in
          Updated p (accounts_of dom t) (accounts_of dom (rows u.1)) u.0
    unfolding accounts_of
    Updated-lem p row f t _ s hides patches (changes x at stored) =
        Updated.written (dom x) (ap (row_account dom) at) (
          ap (accounts_of dom) stored
          ∙ accounts_of-put p.id (some (row x)) t
          ∙ ap (λ b. store p.id (some b) (accounts_of dom t)) (patches x))
    Updated-lem p row f t _ s hides patches (changes_none gone same) =
        Updated.missing (app err_account_not_found) (ap (row_account dom) gone) IsNotFound-is
          (ap (accounts_of dom) same)
    Updated-lem p row f t _ s hides patches (change_fails e foreign same) =
        Updated.broken (f e) (hides e foreign) (ap (accounts_of dom) same)

    pub Deleted-lem :
        (id : String) (f : Error → Error) (t : Table R) (r : Result ℕ) (s : S)
        → Hides f
        → Changes id (λ x. none) t (rows s) r
        → let u : Result (Unit {0}) × S = continue (map_result f r) counted s in
          Deleted id (accounts_of dom t) (accounts_of dom (rows u.1)) u.0
    unfolding accounts_of
    Deleted-lem id f t _ s hides (changes x at stored) =
        Deleted.removed (dom x) (ap (row_account dom) at)
          (ap (accounts_of dom) stored ∙ accounts_of-put id none t)
    Deleted-lem id f t _ s hides (changes_none gone same) =
        Deleted.missing (app err_account_not_found) (ap (row_account dom) gone) IsNotFound-is
          (ap (accounts_of dom) same)
    Deleted-lem id f t _ s hides (change_fails e foreign same) =
        Deleted.broken (f e) (hides e foreign) (ap (accounts_of dom) same)

-- A read leaves the state that its statement left.
pub after_read :
    {S A B : Type 0} (f : Error → Error) (g : A → B) (r : Result A) (s : S)
    → (continue (map_result f r) (λ a. pure (g a)) s).1 ≡ s
after_read f g (ok a) s = refl
after_read f g (err e) s = refl

pub Hides-internal : Hides (λ e. app (with_cause err_internal e))
unfolding is_error app_is with_cause
Hides-internal e foreign = foreign err_account_not_found

pub Hides-exists : Hides (λ e. app (with_cause err_account_already_exists e))
unfolding is_error app_is with_cause
Hides-exists e foreign = foreign err_account_not_found

-- the shape of the repositories' mappers of write errors
pub Hides-if :
    (test : Error → Bool)
    → Hides (λ e.
      if test e
      then app (with_cause err_account_already_exists e)
      else app (with_cause err_internal e))
Hides-if test e foreign = elim (Bool-cases (test e)) [
  | inl dup ↦ rw dup (Hides-exists e foreign)
  | inr more ↦ rw more (Hides-internal e foreign)
]

IsNotFound-cause : (e : Error) → IsNotFound (app (with_cause err_account_not_found e))
unfolding is_error app_is with_cause
IsNotFound-cause e = refl

-- and of their mappers of read errors
pub Reads-if :
    (no_rows : Error)
    → Reads no_rows (λ e.
      if is_error e no_rows
      then app (with_cause err_account_not_found e)
      else app (with_cause err_internal e))
Reads-if no_rows = record {
  none_found = λ e h. rw h (IsNotFound-cause e);
  failed = λ e foreign h. rw h (Hides-internal e foreign);
}
