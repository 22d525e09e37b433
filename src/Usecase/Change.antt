-- ===== src/Usecase/Change.antt =====
-- What Update and Delete of the use case do.
use go_clean_arch_template.Prelude.{
  ◌⊎◌, some_inj, Bool-cases, inl, inr, ℕ, String, ◌≡◌, refl, sym, subst, ap, ◌≢◌, false, Option,
  some, ◌∙◌, arith, eq_iff, eq_refl, ◌==◌,
}
use go_clean_arch_template.Effect.{Result, ok, continue}
use go_clean_arch_template.Domain.{Account, UpdateAccountRequest, UpdateAccountParams}
use go_clean_arch_template.Ports.Contract.{
  Accounts, store, patch, Updated, written, Transacted, committed, not_committed, rolled_back,
  Fetched, Deleted,
}
use go_clean_arch_template.Usecase.{
  AccountUseCase, update_params, update_in_tx, update, delete, bad_status,
}
use go_clean_arch_template.Usecase.Outcome.{
  IsWired, IsStoring, UpdateOutcome, updated, rejected, DeleteOutcome, removed, kept, Refreshed,
  refreshed, failed,
}

-- A row that is read out of a store is the one put there, or one that was there before.
pub store_cases :
    (id j : String) (row : Option Account) (v : Accounts) {b : Account}
    → store id row v j ≡ some b
    → ((j ≡ id) × (row ≡ some b)) ⊎ ((j ≢ id) × (v j ≡ some b))
store_cases id j row v h = elim (Bool-cases (id == j)) [
  | inl same ↦ inl (sym ((eq_iff id j).0 same), rw same at h)
  | inr differ ↦ inr (ground (arith, eq_iff id j), rw differ at h)
]

pub store_self : (id : String) (row : Option Account) (v : Accounts) → store id row v id ≡ row
store_self id row v = rw (eq_refl id)

module _ {S : Type 0} (uc : AccountUseCase S) (view : S → Accounts) (wired : IsWired uc view) where
  -- The account read back after the write.
  read_back :
      (p : UpdateAccountParams) (a : Account) (v w u : Accounts) (r : Result Account)
      → v p.id ≡ some a
      → w ≡ store p.id (some (patch p a)) v
      → u ≡ w
      → Fetched (w p.id) r
      → Refreshed p v u r
  read_back p a v w u _ at stored same (Fetched.hit b found) =
      subst (λ c. Refreshed p v u (ok c))
        (some_inj
          (sym (store_self p.id (some (patch p a)) v) ∙ sym (ap (λ x. x p.id) stored) ∙ found))
        (refreshed a at (same ∙ stored))
  read_back p a v w u _ at stored same (Fetched.miss e none_there not_found) = failed e
  read_back p a v w u _ at stored same (Fetched.broken e other) = failed e

  refresh_after_write :
      (p : UpdateAccountParams) (v : Accounts) (r : Result (Unit {0})) (s : S)
      → Updated p v (view s) r
      → let t = continue r (λ _. uc.repo.get_by_id p.id) s in Refreshed p v (view t.1) t.0
  refresh_after_write p v _ s (written a at stored) =
      read_back p a v (view s) _ _ at stored (wired.repo.get_by_id_reads p.id s)
        (wired.repo.get_by_id p.id s)
  refresh_after_write p v _ s (Updated.missing e gone not_found same) = failed e
  refresh_after_write p v _ s (Updated.broken e other same) = failed e

  update_in_tx-Refreshed :
      (now : ℕ) (req : UpdateAccountRequest) (s : S)
      → Refreshed
          (update_params now req)
          (view s)
          (view (update_in_tx uc now req s).1)
          (update_in_tx uc now req s).0
  unfolding update_in_tx
  update_in_tx-Refreshed now req s =
      refresh_after_write (update_params now req) (view s) _ _
        (wired.repo.update (update_params now req) s)

  Refreshed-Transacted :
      (now : ℕ) (req : UpdateAccountRequest) (v w u : Accounts) (inner outer : Result Account)
      → bad_status req.status ≡ false
      → Refreshed (update_params now req) v w inner
      → Transacted v w u inner outer
      → UpdateOutcome uc now req v u outer
  Refreshed-Transacted now req v w u _ _ good (refreshed a at stored) (committed _ c) =
      updated a good at (c ∙ stored)
  Refreshed-Transacted now req v w u _ _ good (refreshed a at stored) (not_committed _ e c) =
      rejected e c
  Refreshed-Transacted now req v w u _ _ good (failed e) (rolled_back _ e' keeps c) = rejected e' c

  -- Update stores and returns the account with exactly the given fields replaced, and no other
  -- account changes; or it returns an error and leaves every account as it was, also when the
  -- account was written and could not be read back, or the commit failed.
  pub update-UpdateOutcome :
      (now : ℕ) (req : UpdateAccountRequest) (s : S)
      → UpdateOutcome uc now req (view s) (view (update uc now req s).1) (update uc now req s).0
  unfolding update
  update-UpdateOutcome now req s = elim (Bool-cases (req.id == "")) [
    | inl empty ↦ rw empty (rejected _ refl)
    | inr present ↦ rw present (elim (Bool-cases (bad_status req.status)) [
      | inl bad ↦ rw bad (rejected _ refl)
      | inr good ↦ rw good (
          Refreshed-Transacted now req _ _ _ _ _ good (update_in_tx-Refreshed now req s)
            (wired.tx.atomic (update_in_tx uc now req) s))
    ])
  ]

module _ {S : Type 0} (uc : AccountUseCase S) (view : S → Accounts)
    (storing : IsStoring uc view) where
  Deleted-Transacted :
      (id : String) (v w u : Accounts) (inner outer : Result (Unit {0}))
      → Deleted id v w inner
      → Transacted v w u inner outer
      → DeleteOutcome id v u outer
  Deleted-Transacted id v w u _ _ (Deleted.removed a at e) (committed _ c) = removed a at (c ∙ e)
  Deleted-Transacted id v w u _ _ (Deleted.removed a at e) (not_committed _ f c) = kept f c
  Deleted-Transacted id v w u _ _ (Deleted.missing e gone nf same) (rolled_back _ f keeps c) =
      kept f c
  Deleted-Transacted id v w u _ _ (Deleted.broken e other same) (rolled_back _ f keeps c) = kept f c

  -- Delete removes an account that was stored and no other; or it returns an error and every
  -- account stays.
  pub delete-DeleteOutcome :
      (id : String) (s : S) → DeleteOutcome id (view s) (view (delete uc id s).1) (delete uc id s).0
  unfolding delete
  delete-DeleteOutcome id s = elim (Bool-cases (id == "")) [
    | inl empty ↦ rw empty (kept _ refl)
    | inr present ↦ rw present (
        Deleted-Transacted id _ _ _ _ _ (storing.repo.delete id s)
          (storing.tx.atomic (uc.repo.delete id) s))
  ]
