-- ===== src/Usecase/Disturbed.antt =====
-- The use case among other processes, which work on the stored accounts between any two calls of a
-- port.
use go_clean_arch_template.Prelude.{ℕ, zero, suc, String, ◌≡◌, sym, subst, false}
use go_clean_arch_template.Effect.{Result, M}
use go_clean_arch_template.Domain.{Account, UpdateAccountRequest}
use go_clean_arch_template.Ports.{TxManager}
use go_clean_arch_template.Ports.Contract.{
  Accounts, patch, Created, inserted, refused, Updated, Deleted, IsStore, IsRateLimiter,
}
use go_clean_arch_template.Usecase.{AccountUseCase, update_params, bad_status}
use go_clean_arch_template.Usecase.Invariant.{
  IsGood, IsSound, store-IsSound, remove-IsSound, patch-IsGood,
}

module _ {S : Type 0} (others : S → S) where
  -- a call, and then what the other processes do before the next one
  abbrev pub then_others : {A : Type 0} → M S A → M S A
  then_others m s = let (r, t) = m s in (r, others t)

  -- the same use case among other processes
  abbrev pub disturbed : AccountUseCase S → AccountUseCase S
  disturbed uc = record {
    repo = record {
      create = λ a. then_others (uc.repo.create a);
      get_by_id = λ id. then_others (uc.repo.get_by_id id);
      get_by_email = λ email. then_others (uc.repo.get_by_email email);
      update = λ p. then_others (uc.repo.update p);
      delete = λ id. then_others (uc.repo.delete id);
      list = λ f. then_others (uc.repo.list f);
    };
    tx = record { with_tx = λ m. then_others (uc.tx.with_tx m) };
    limiter = record { limit = λ q. then_others (uc.limiter.limit q) };
    passwords = uc.passwords;
  }

  -- what the others do in `n` pauses
  unfoldable pub pauses : ℕ → S → S
  pauses zero s = s
  pauses (suc n) s = pauses n (others s)

  -- A transaction from `s`, whose closure left `t`, to `u`: it is committed, or its own writes are
  -- undone, and what the others did stays.
  pub data Isolated (view : S → Accounts) (s t u : S) : Type 0 where
    committed : view u ≡ view t → Isolated view s t u
    undone : (n : ℕ) → view u ≡ view (pauses n s) → Isolated view s t u

-- Every transaction is isolated in this way.
pub record IsIsolated {S : Type 0} (tx : TxManager S) (view : S → Accounts) (others : S → S)
    : Type 1 where
  pub isolated :
      {A : Type 0} (m : M S A) (s : S) → Isolated others view s (m s).1 (tx.with_tx m s).1

-- The ports keep their contracts, and the others keep sound accounts sound.
pub record IsShared {S : Type 0} (uc : AccountUseCase S) (view : S → Accounts) (others : S → S)
    : Type 1 where
  pub repo : IsStore uc.repo view
  pub limiter : IsRateLimiter uc.limiter view
  pub tx : IsIsolated uc.tx view others
  pub others_sound : (s : S) → IsSound (view s) → IsSound (view (others s))

module _ {S : Type 0} (uc : AccountUseCase S) (view : S → Accounts) (others : S → S)
    (shared : IsShared uc view others) where
  abbrev P : {A : Type 0} → Result A × S → Type 0
  P x = IsSound (view x.1)

  -- a port's call among others
  pub port_P :
      {A : Type 0} (m : M S A) (s : S) → IsSound (view (m s).1) → P (then_others others m s)
  port_P m s h = shared.others_sound (m s).1 h

  pub read_P :
      {A : Type 0} (m : M S A) (s : S)
      → view (m s).1 ≡ view s
      → IsSound (view s)
      → P (then_others others m s)
  read_P m s same h = port_P m s (subst IsSound (sym same) h)

  pauses-IsSound : (n : ℕ) (s : S) → IsSound (view s) → IsSound (view (pauses others n s))
  unfolding pauses
  pauses-IsSound zero s h = h
  pauses-IsSound (suc n) s h = pauses-IsSound n (others s) (shared.others_sound s h)

  Isolated-IsSound :
      (s t u : S)
      → Isolated others view s t u
      → IsSound (view s)
      → IsSound (view t)
      → IsSound (view u)
  Isolated-IsSound s t u (committed same) h k = subst IsSound (sym same) k
  Isolated-IsSound s t u (undone n same) h k = subst IsSound (sym same) (pauses-IsSound n s h)

  pub tx_P :
      {A : Type 0} (m : M S A) (s : S)
      → IsSound (view s)
      → P (m s)
      → P (then_others others (uc.tx.with_tx m) s)
  tx_P m s h k = port_P (uc.tx.with_tx m) s (Isolated-IsSound s _ _ (shared.tx.isolated m s) h k)

  pub Created-IsSound :
      (a : Account) (v w : Accounts) (r : Result String)
      → IsGood a.id a
      → Created a v w r
      → IsSound v
      → IsSound w
  Created-IsSound a v w r good (inserted new free at) h =
      subst IsSound (sym at) (store-IsSound a.id a v good (λ j b there off. free j b there) h)
  Created-IsSound a v w r good (refused e same) h = subst IsSound (sym same) h

  pub Updated-IsSound :
      (now : ℕ) (req : UpdateAccountRequest) (v w : Accounts) (r : Result (Unit {0}))
      → bad_status req.status ≡ false
      → Updated (update_params now req) v w r
      → IsSound v
      → IsSound w
  Updated-IsSound now req v w r fine (Updated.written a at new) h = subst IsSound (sym new) (
      store-IsSound req.id (patch (update_params now req) a) v
        (patch-IsGood uc now req a fine (h.good req.id a at))
        (λ j b there off same. off (h.unique j req.id b a there at same)) h)
  Updated-IsSound now req v w r fine (Updated.missing e gone nf same) h = subst IsSound (sym same) h
  Updated-IsSound now req v w r fine (Updated.broken e other same) h = subst IsSound (sym same) h

  pub Deleted-IsSound :
      (id : String) (v w : Accounts) (r : Result (Unit {0}))
      → Deleted id v w r
      → IsSound v
      → IsSound w
  Deleted-IsSound id v w r (Deleted.removed a at new) h =
      subst IsSound (sym new) (remove-IsSound id v h)
  Deleted-IsSound id v w r (Deleted.missing e gone nf same) h = subst IsSound (sym same) h
  Deleted-IsSound id v w r (Deleted.broken e other same) h = subst IsSound (sym same) h
