-- ===== src/Gorm/Paging.antt =====
-- List of the GORM repository: the page and the total.
use go_clean_arch_template.Prelude.{
  ℕ, zero, suc, [], ◌∷◌, String, Option, none, some, List, map, ◌≡◌, refl, sym, ap, ◌∙◌, subst,
  length, arith,
}
use go_clean_arch_template.Prelude.Int.{ℤ, pos, negsuc}
use go_clean_arch_template.Prelude.Lists.{
  take, drop, length-map, All, map-All, In, Once, map-In, map-Once, map-take, map-drop,
}
use go_clean_arch_template.Effect.{Result, ok, ok_inj}
use go_clean_arch_template.Effect.Rules.{map_err_cases}
use go_clean_arch_template.Domain.{Account, ListAccountFilter}
use go_clean_arch_template.Ports.Contract.{Accounts}
use go_clean_arch_template.Gorm.{
  AccountModel, GormDb, to_domain, list, internal_error, when_positive,
}
use go_clean_arch_template.Gorm.Contract.{Rows}
use go_clean_arch_template.Gorm.Mapping.{accounts_of, row_of_account}

-- The rows from an offset on, up to a limit.
abbrev pub limited : Option ℤ → List AccountModel → List AccountModel
limited (some (pos n)) rows = take n rows
limited _ rows = rows

abbrev pub skipped : Option ℤ → List AccountModel → List AccountModel
skipped (some (pos n)) rows = drop n rows
skipped _ rows = rows

-- A stored row with the status that is asked for.
abbrev pub HasStatus : Option ℤ → ℤ → Type 0
HasStatus none n = Unit {0}
HasStatus (some st) n = n ≡ st

-- What List relies on of GORM's queries. `scan` are the rows with a status, each once, in the order in
-- which the database returns them; a query without ORDER BY leaves that order to the state of the
-- database.
pub record IsPaging {S : Type 0} (db : GormDb S) (rows : S → Rows)
    (scan : Option ℤ → S → List AccountModel) : Type 0 where
  pub scan_stored :
      (status : Option ℤ) (s : S)
      → All (λ m. (rows s m.id ≡ some m) × HasStatus status m.status) (scan status s)
  pub scan_complete :
      (status : Option ℤ) (s : S) (id : String) (m : AccountModel)
      → rows s id ≡ some m
      → HasStatus status m.status
      → In m (scan status s)
  pub scan_once : (status : Option ℤ) (s : S) → Once (λ m. m.id) (scan status s)
  pub count_ok :
      (status : Option ℤ) (s : S) (n : ℕ)
      → (db.count status s).0 ≡ ok n
      → n ≡ length (scan status s)
  pub count_scan : (status : Option ℤ) (s : S) → scan status (db.count status s).1 ≡ scan status s
  pub find_ok :
      (status limit offset : Option ℤ) (s : S) (page : List AccountModel)
      → (db.find status limit offset s).0 ≡ ok page
      → page ≡ limited limit (skipped offset (scan status s))

-- what an offset leaves of a list, and what a limit takes; at most 0 is no constraint
abbrev pub from {ℓ} : {A : Type ℓ} → ℤ → List A → List A
from (pos k) xs = drop k xs
from (negsuc k) xs = xs

abbrev pub up_to {ℓ} : {A : Type ℓ} → ℤ → List A → List A
up_to (pos zero) xs = xs
up_to (pos (suc k)) xs = take (suc k) xs
up_to (negsuc k) xs = xs

-- `every` lists the stored accounts with the status of the filter, all of them and each once.
pub record IsListing (v : Accounts) (f : ListAccountFilter) (every : List Account) : Type 0 where
  pub stored : All (λ a. (v a.id ≡ some a) × HasStatus f.status a.status) every
  pub complete :
      (id : String) (a : Account) → v id ≡ some a → HasStatus f.status a.status → In a every
  pub once : Once (λ a. a.id) every

-- A page of these accounts with their number.
pub record IsPage (v : Accounts) (f : ListAccountFilter) (page : List Account) (total : ℤ)
    : Type 0 where
  pub every : List Account
  pub listing : IsListing v f every
  pub total_is : total ≡ pos (length every)
  pub page_is : page ≡ up_to f.limit (from f.offset every)

positive : (n : ℕ) → when_positive (pos (suc n)) ≡ some (pos (suc n))
positive n = ground arith

limited_lem :
    (limit : ℤ) (xs : List AccountModel)
    → map to_domain (limited (when_positive limit) xs) ≡ up_to limit (map to_domain xs)
limited_lem (pos zero) xs = refl
limited_lem (pos (suc n)) xs = rw (positive n) (map-take to_domain (suc n) xs)
limited_lem (negsuc n) xs = refl

skipped_lem :
    (offset : ℤ) (xs : List AccountModel)
    → map to_domain (skipped (when_positive offset) xs) ≡ from offset (map to_domain xs)
skipped_lem (pos zero) [] = refl
skipped_lem (pos zero) (x ∷ xs) = refl
skipped_lem (pos (suc n)) xs = rw (positive n) (map-drop to_domain (suc n) xs)
skipped_lem (negsuc n) xs = refl

abbrev answer_of : List AccountModel → ℕ → List Account × ℤ
answer_of found n = (map to_domain found, pos n)

module _ {S : Type 0} (db : GormDb S) (rows : S → Rows) (scan : Option ℤ → S → List AccountModel)
    (paging : IsPaging db rows scan) where
  scanned-IsListing :
      (f : ListAccountFilter) (s : S)
      → IsListing (accounts_of (rows s)) f (map to_domain (scan f.status s))
  unfolding accounts_of to_domain
  scanned-IsListing f s = record {
    stored =
        map-All _ to_domain _ (λ m (at, status). (rw at refl, status))
          (paging.scan_stored f.status s);
    complete = λ id a at status.
        let (m, there, same) = row_of_account (rows s id) a at in
        subst (λ b. In b (map to_domain (scan f.status s))) same
          (map-In to_domain (
            paging.scan_complete f.status s id m there
              (subst (λ b. HasStatus f.status b.status) (sym same) status)));
    once = map-Once to_domain (λ m. m.id) (λ a. a.id) (λ m. refl) (paging.scan_once f.status s);
  }

  -- the page of a scan
  scanned-IsPage :
      (f : ListAccountFilter) (s : S)
      → IsPage
          (accounts_of (rows s))
          f
          (map to_domain
            (limited (when_positive f.limit) (skipped (when_positive f.offset) (scan f.status s))))
          (pos (length (scan f.status s)))
  scanned-IsPage f s = record {
    every = map to_domain (scan f.status s);
    listing = scanned-IsListing f s;
    total_is = ap pos (sym (length-map to_domain (scan f.status s)));
    page_is = limited_lem f.limit _ ∙ ap (up_to f.limit) (skipped_lem f.offset (scan f.status s));
  }

  -- what List returned is the page of the scan
  returned :
      (f : ListAccountFilter) (s : S) (page : List Account) (total : ℤ) (n : ℕ)
      (found : List AccountModel)
      → (db.count f.status s).0 ≡ ok n
      → (db.find f.status
          (when_positive f.limit)
          (when_positive f.offset)
          (db.count f.status s).1).0
        ≡ ok found
      → answer_of found n ≡ (page, total)
      → IsPage (accounts_of (rows s)) f page total
  returned f s page total n found counted given same =
      subst (λ p. IsPage (accounts_of (rows s)) f p.0 p.1)
        (ap (λ xs. answer_of xs (length (scan f.status s)))
            (sym (paging.find_ok _ _ _ _ found given ∙ ap cut (paging.count_scan f.status s)))
          ∙ ap (λ k. answer_of found k) (sym (paging.count_ok f.status s n counted))
          ∙ same)
        (scanned-IsPage f s)
    where
      cut : List AccountModel → List AccountModel
      cut xs = limited (when_positive f.limit) (skipped (when_positive f.offset) xs)

  -- If List returns, there is a listing of the stored accounts that have the status of the filter,
  -- all of them and each once, in the order of the database: the total is their number, and the page
  -- is what is left of the listing after the offset, up to the limit, where zero or less is no
  -- constraint.
  pub list-IsPage :
      (f : ListAccountFilter) (s : S) (page : List Account) (total : ℤ)
      → (list db f s).0 ≡ ok (page, total)
      → IsPage (accounts_of (rows s)) f page total
  unfolding list
  list-IsPage f s page total =
      map_err_cases P _ internal_error (db.count f.status) s
        (λ n counted.
          map_err_cases P _ internal_error
            (db.find f.status (when_positive f.limit) (when_positive f.offset))
            (db.count f.status s).1
            (λ found given same. returned f s page total n found counted given (ok_inj same))
            (λ e failed h. cc))
        (λ e failed h. cc)
    where
      P : Result (List Account × ℤ) × S → Type 0
      P t = t.0 ≡ ok (page, total) → IsPage (accounts_of (rows s)) f page total
