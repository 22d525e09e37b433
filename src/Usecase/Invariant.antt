-- ===== src/Usecase/Invariant.antt =====
-- The accounts that the service has stored, after any calls.
use mathlib.Core.Path.{subst₂}
use go_clean_arch_template.Prelude.{
  some_inj, get_or, ℕ, String, inl, inr, ◌≡◌, ◌≢◌, refl, sym, subst, ap, ◌∙◌, Option, none, some,
  arith, true, false, List, [], ◌∷◌,
}
use go_clean_arch_template.Prelude.Text.{contains_code}
use go_clean_arch_template.Domain.{
  AccountStatus, Account, CreateAccountRequest, valid, UpdateAccountRequest,
}
use go_clean_arch_template.Ports.Contract.{Accounts, store, patch}
use go_clean_arch_template.Usecase.{
  AccountUseCase, new_account, update_params, bad_status, Command, after, serve,
}
use go_clean_arch_template.Usecase.Outcome.{IsWired, IsStoring, IsWired-IsStoring}
use go_clean_arch_template.Usecase.Change.{store_cases}
use go_clean_arch_template.Usecase.Steps.{Steps, stays, adds, patches, removes, after-Steps}

-- What holds of one stored account: it has its own id, a status that can be assigned, and an email
-- with an "@".
pub record IsGood (id : String) (a : Account) : Type 0 where
  pub keyed : a.id ≡ id
  pub status : valid a.status ≡ true
  pub email : contains_code b'@' a.email ≡ true

-- Every stored account is good, and no two have one email.
pub record IsSound (v : Accounts) : Type 0 where
  pub good : (id : String) (a : Account) → v id ≡ some a → IsGood id a
  pub unique :
      (i j : String) (a b : Account) → v i ≡ some a → v j ≡ some b → a.email ≡ b.email → i ≡ j

-- A row put under an id keeps the accounts sound if it is good and its email is free elsewhere.
pub store-IsSound :
    (id : String) (a : Account) (v : Accounts)
    → IsGood id a
    → ((j : String) (b : Account) → v j ≡ some b → j ≢ id → b.email ≢ a.email)
    → IsSound v
    → IsSound (store id (some a) v)
store-IsSound id a v g free sound = record {
  good = λ j b h. elim (store_cases id j (some a) v h) [
    | inl (at, row) ↦ subst₂ IsGood (sym at) (some_inj row) g
    | inr (off, old) ↦ sound.good j b old
  ];
  unique = λ i j b c p q e. elim (store_cases id i (some a) v p) [
    | inl (at, row) ↦ elim (store_cases id j (some a) v q) [
      | inl (at', row') ↦ at ∙ sym at'
      | inr (off', old') ↦
          absurd (free j c old' off' (sym e ∙ ap (λ x. x.email) (sym (some_inj row))))
    ]
    | inr (off, old) ↦ elim (store_cases id j (some a) v q) [
      | inl (at', row') ↦ absurd (free i b old off (e ∙ ap (λ x. x.email) (sym (some_inj row'))))
      | inr (off', old') ↦ sound.unique i j b c old old' e
    ]
  ];
}

pub remove-IsSound : (id : String) (v : Accounts) → IsSound v → IsSound (store id none v)
remove-IsSound id v sound = record {
  good = λ j b h. sound.good j b (kept_row j h);
  unique = λ i j b c p q e. sound.unique i j b c (kept_row i p) (kept_row j q) e;
}
  where
    kept_row : (j : String) {b : Account} → store id none v j ≡ some b → v j ≡ some b
    kept_row j h = elim (store_cases id j none v h) [ inl (at, row) ↦ cc | inr (off, old) ↦ old ]

module _ {S : Type 0} (uc : AccountUseCase S) where
  pub new_account-IsGood :
      (now : ℕ) (uuid hashed : String) (req : CreateAccountRequest)
      → contains_code b'@' req.email ≡ true
      → IsGood uuid (new_account now uuid hashed req)
  unfolding new_account valid
  new_account-IsGood now uuid hashed req email = record {
    keyed = refl;
    status = ground arith;
    email = email;
  }

  pub patch-IsGood :
      (now : ℕ) (req : UpdateAccountRequest) (a : Account)
      → bad_status req.status ≡ false
      → IsGood req.id a
      → IsGood req.id (patch (update_params now req) a)
  patch-IsGood now req a fine g = record {
    keyed = g.keyed;
    status = patched_status req.status fine;
    email = g.email;
  }
    where
      patched_status :
          (o : Option AccountStatus) → bad_status o ≡ false → valid (get_or o a.status) ≡ true
      patched_status none _ = g.status
      patched_status (some st) h = ground arith

  Steps-IsSound : {v w : Accounts} {c : Command} → Steps uc v w c → IsSound v → IsSound w
  unfolding new_account
  Steps-IsSound (stays c same) sound = subst IsSound (sym same) sound
  Steps-IsSound {v} (adds now uuid hashed req email new free at) sound = subst IsSound (sym at) (
      store-IsSound uuid (new_account now uuid hashed req) v
        (new_account-IsGood now uuid hashed req email) (λ j b there off. free j b there) sound)
  Steps-IsSound {v} (patches now req a fine at new) sound = subst IsSound (sym new) (
      store-IsSound req.id (patch (update_params now req) a) v
        (patch-IsGood now req a fine (sound.good req.id a at))
        (λ j b there off same. off (sound.unique j req.id b a there at same)) sound)
  Steps-IsSound {v} (removes id a at gone) sound =
      subst IsSound (sym gone) (remove-IsSound id v sound)

  -- The same without the reads' part of the repository's contract.
  pub serve_storing-IsSound :
      (view : S → Accounts)
      → IsStoring uc view
      → (cs : List Command) (s : S) → IsSound (view s)
      → IsSound (view (serve uc cs s))
  unfolding serve
  serve_storing-IsSound view storing [] s h = h
  serve_storing-IsSound view storing (c ∷ cs) s h =
      serve_storing-IsSound view storing cs (after uc c s)
        (Steps-IsSound (after-Steps uc view storing c s) h)

  -- From sound accounts, after any calls, whichever of them fail, the stored accounts are sound:
  -- each stands under its own id with a status from 1 to 4 and an email with an "@", and no two
  -- have one email.
  pub serve-IsSound :
      (view : S → Accounts) (wired : IsWired uc view) (cs : List Command) (s : S)
      → IsSound (view s)
      → IsSound (view (serve uc cs s))
  serve-IsSound view wired = serve_storing-IsSound view (IsWired-IsStoring wired)
