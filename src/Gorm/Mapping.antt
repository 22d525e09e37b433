-- ===== src/Gorm/Mapping.antt =====
-- Rows and accounts: the mapper, and the columns of a partial update.
use mathlib.Core.Path.{fun_ext}
use go_clean_arch_template.Prelude.{
  some_inj, Bool-cases, inl, inr, ℕ, String, ◌≡◌, refl, Option, none, some, ◌==◌,
}
use go_clean_arch_template.Domain.{AccountStatus, Account, UpdateAccountParams}
use go_clean_arch_template.Ports.Contract.{Accounts, store, patch}
use go_clean_arch_template.Gorm.{AccountModel, to_model, to_domain, columns}
use go_clean_arch_template.Gorm.Contract.{Rows, put, assign_all}

abbrev pub row_to_domain : Option AccountModel → Option Account
row_to_domain none = none
row_to_domain (some m) = some (to_domain m)

-- The accounts that the rows hold.
unfoldable pub accounts_of : Rows → Accounts
accounts_of t id = row_to_domain (t id)

-- A model that is written and read back is the entity that was written.
pub to_domain-to_model : (a : Account) → to_domain (to_model a) ≡ a
unfolding to_domain to_model
to_domain-to_model a = refl

pub accounts_of-put :
    (id : String) (row : Option AccountModel) (t : Rows)
    → accounts_of (put id row t) ≡ store id (row_to_domain row) (accounts_of t)
unfolding accounts_of
accounts_of-put id row t =
    fun_ext λ j. elim (Bool-cases (id == j)) [ inl same ↦ rw same | inr differ ↦ rw differ ]

assign_options :
    (id : String) (first last : Option String) (st : Option AccountStatus) (now : ℕ)
    (m : AccountModel)
    → let p : UpdateAccountParams = record {
      id = id;
      first_name = first;
      last_name = last;
      status = st;
      updated_at = now;
    } in
      to_domain (assign_all (columns p) m) ≡ patch p (to_domain m)
unfolding to_domain columns
assign_options id none none none now m = refl
assign_options id none none (some st) now m = refl
assign_options id none (some l) none now m = refl
assign_options id none (some l) (some st) now m = refl
assign_options id (some f) none none now m = refl
assign_options id (some f) none (some st) now m = refl
assign_options id (some f) (some l) none now m = refl
assign_options id (some f) (some l) (some st) now m = refl

-- The columns of Update write exactly the fields that the domain's partial update replaces.
pub to_domain-assign_all :
    (p : UpdateAccountParams) (m : AccountModel)
    → to_domain (assign_all (columns p) m) ≡ patch p (to_domain m)
to_domain-assign_all p m = assign_options p.id p.first_name p.last_name p.status p.updated_at m

-- An account of the view comes from a row.
pub row_of_account :
    (o : Option AccountModel) (b : Account)
    → row_to_domain o ≡ some b
    → (m : AccountModel) × (o ≡ some m) × (to_domain m ≡ b)
row_of_account none b h = cc
row_of_account (some m) b h = (m, refl, some_inj h)
