-- ===== src/Usecase/Steps.antt =====
-- What one call of the use case does to the stored accounts, whatever the reads of its repository
-- answer.
use go_clean_arch_template.Prelude.{
  ℕ, String, ◌≡◌, refl, ◌∙◌, Bool-cases, inl, inr, true, false, some, none, ◌==◌,
}
use go_clean_arch_template.Prelude.Text.{contains_code}
use go_clean_arch_template.Apperr.{Error}
use go_clean_arch_template.Effect.{Result, ok, err, continue}
use go_clean_arch_template.Domain.{
  LimitResponse, Account, CreateAccountRequest, UpdateAccountRequest, UpdateAccountParams,
}
use go_clean_arch_template.Ports.Contract.{
  Accounts, store, patch, IsFree, Updated, written, Transacted, committed, not_committed,
  rolled_back,
}
use go_clean_arch_template.Usecase.{
  AccountUseCase, new_account, update_params, update_in_tx, update, bad_status, Command,
  create_with, get_with, list_with, update_with, delete_with, after, get, list,
}
use go_clean_arch_template.Usecase.Outcome.{
  IsStoring, CreateOutcome, created, rejected, DeleteOutcome, removed, kept,
}
use go_clean_arch_template.Usecase.Create.{create-CreateOutcome}
use go_clean_arch_template.Usecase.Change.{delete-DeleteOutcome}

-- The steps that a command can take from the accounts `v` to `w`: none at all, or its own change.
pub data Steps {S : Type 0} (uc : AccountUseCase S) (v w : Accounts) : Command → Type 0 where
  stays : (c : Command) → w ≡ v → Steps uc v w c
  adds :
      (now : ℕ) (uuid hashed : String) (req : CreateAccountRequest)
      → contains_code b'@' req.email ≡ true
      → v uuid ≡ none
      → IsFree req.email v
      → w ≡ store uuid (some (new_account now uuid hashed req)) v
      → Steps uc v w (create_with now uuid req)
  patches :
      (now : ℕ) (req : UpdateAccountRequest) (a : Account)
      → bad_status req.status ≡ false
      → v req.id ≡ some a
      → w ≡ store req.id (some (patch (update_params now req) a)) v
      → Steps uc v w (update_with now req)
  removes :
      (id : String) (a : Account)
      → v id ≡ some a
      → w ≡ store id none v
      → Steps uc v w (delete_with id)

module _ {S : Type 0} (uc : AccountUseCase S) where
  created-Steps :
      (now : ℕ) (uuid : String) (req : CreateAccountRequest) (limited : Result LimitResponse)
      (v w : Accounts) (r : Result Account)
      → CreateOutcome uc now uuid req limited v w r
      → Steps uc v w (create_with now uuid req)
  created-Steps now uuid req limited v w _
        (created verdict hashed asked allowed email strong hash new free at) =
      adds now uuid hashed req email new free at
  created-Steps now uuid req limited v w _ (rejected e same) = stays _ same

  deleted-Steps :
      (id : String) (v w : Accounts) (r : Result (Unit {0}))
      → DeleteOutcome id v w r
      → Steps uc v w (delete_with id)
  deleted-Steps id v w _ (removed a at gone) = removes id a at gone
  deleted-Steps id v w _ (kept e same) = stays _ same

-- The closure of Update's transaction: it fails, or it has written, whatever it then read.
data Patched (p : UpdateAccountParams) (v w : Accounts) : Result Account → Type 0 where
  patched :
      (a b : Account) → v p.id ≡ some a → w ≡ store p.id (some (patch p a)) v → Patched p v w (ok b)
  failed : (e : Error) → Patched p v w (err e)

module _ {S : Type 0} (uc : AccountUseCase S) (view : S → Accounts)
    (storing : IsStoring uc view) where
  get_reads : (id : String) (s : S) → view (get uc id s).1 ≡ view s
  unfolding get
  get_reads id s = elim (Bool-cases (id == "")) [
    | inl empty ↦ rw empty refl
    | inr present ↦ rw present (storing.repo.get_by_id_reads id s)
  ]

  written_and_read :
      (p : UpdateAccountParams) (a : Account) (v w : Accounts) (r : Result Account)
      → v p.id ≡ some a
      → w ≡ store p.id (some (patch p a)) v
      → Patched p v w r
  written_and_read p a v w (ok b) at new = patched a b at new
  written_and_read p a v w (err e) at new = failed e

  read_after_write :
      (p : UpdateAccountParams) (v : Accounts) (r : Result (Unit {0})) (s : S)
      → Updated p v (view s) r
      → let t = continue r (λ _. uc.repo.get_by_id p.id) s in Patched p v (view t.1) t.0
  read_after_write p v _ s (written a at new) =
      written_and_read p a v _ _ at (storing.repo.get_by_id_reads p.id s ∙ new)
  read_after_write p v _ s (Updated.missing e gone not_found same) = failed e
  read_after_write p v _ s (Updated.broken e other same) = failed e

  Patched-Transacted :
      (now : ℕ) (req : UpdateAccountRequest) (v w u : Accounts) (inner outer : Result Account)
      → bad_status req.status ≡ false
      → Patched (update_params now req) v w inner
      → Transacted v w u inner outer
      → Steps uc v u (update_with now req)
  Patched-Transacted now req v w u _ _ good (patched a b at new) (committed _ c) =
      patches now req a good at (c ∙ new)
  Patched-Transacted now req v w u _ _ good (patched a b at new) (not_committed _ e c) = stays _ c
  Patched-Transacted now req v w u _ _ good (failed e) (rolled_back _ e' keeps c) = stays _ c

  update-Steps :
      (now : ℕ) (req : UpdateAccountRequest) (s : S)
      → Steps uc (view s) (view (update uc now req s).1) (update_with now req)
  unfolding update update_in_tx
  update-Steps now req s = elim (Bool-cases (req.id == "")) [
    | inl empty ↦ rw empty (stays _ refl)
    | inr present ↦ rw present (elim (Bool-cases (bad_status req.status)) [
      | inl bad ↦ rw bad (stays _ refl)
      | inr good ↦ rw good (
          Patched-Transacted now req _ _ _ _ _ good
            (read_after_write (update_params now req) (view s) _ _
              (storing.repo.update (update_params now req) s))
            (storing.tx.atomic (update_in_tx uc now req) s))
    ])
  ]

  -- One call takes the stored accounts through a step of its own command: Create adds one account
  -- under a new id and a free email, Update patches one account that is stored, Delete removes one,
  -- or nothing changes. This holds whatever the reads of the repository answer.
  pub after-Steps : (c : Command) (s : S) → Steps uc (view s) (view (after uc c s)) c
  unfolding after list
  after-Steps (create_with now uuid req) s =
      created-Steps uc now uuid req _ _ _ _ (create-CreateOutcome uc view storing now uuid req s)
  after-Steps (get_with id) s = stays _ (get_reads id s)
  after-Steps (list_with f) s = stays _ (storing.repo.list_reads f s)
  after-Steps (update_with now req) s = update-Steps now req s
  after-Steps (delete_with id) s =
      deleted-Steps uc id _ _ _ (delete-DeleteOutcome uc view storing id s)
