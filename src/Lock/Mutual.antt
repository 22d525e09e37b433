-- ===== src/Lock/Mutual.antt =====
-- Mutual exclusion, over any steps of any processes: a lock that is neither released by its
-- holder nor expired is given to no one else.
use go_clean_arch_template.Prelude.{
  ℕ, String, Option, none, some, List, ◌≡◌, ◌≢◌, refl, sym, ap, ◌∙◌, ◌==◌, eq_iff, eq_refl,
  Bool-cases, inl, inr, some_inj,
}
use go_clean_arch_template.Prelude.Text.{◌^^◌}
use go_clean_arch_template.Prelude.Int.{ℤ}
use go_clean_arch_template.Apperr.{Error}
use go_clean_arch_template.Effect.{Result, ok, err, M, ok_inj}
use go_clean_arch_template.Lock.{Redis, lock_key_prefix, new_token, release, acquire}
use go_clean_arch_template.Lock.Contract
use go_clean_arch_template.Lock.Exclusion.{
  Acquired, taken, refused, broken, orphaned, acquire-Acquired, Released, freed, not_own, not_run,
  unanswered, release-Released,
}

-- `key` is not `k`: its entry is not touched by a write to `k`.
put_other :
    (k j : String) (o : Option String) (v : Contract.Values) → k ≢ j → Contract.put k o v j ≡ v j
put_other k j o v h = elim (Bool-cases (k == j)) [
  | inl same ↦ elim (h ((eq_iff k j).0 same)) [ ]
  | inr differ ↦ rw differ refl
]

put_self : (k : String) (o : Option String) (v : Contract.Values) → Contract.put k o v k ≡ o
put_self k o v = rw (eq_refl k) refl

module _ {S Ctx : Type 0} (redis : Redis S Ctx) (values : S → Contract.Values)
    (quote : String → String) where
  -- a step of the system in which the lock at the Redis key `k` with the token `t` is neither
  -- released nor expires
  pub data Step (k t : String) : S → S → Type 0 where
    acquiring :
        (entropy : Result (List ℕ)) (ctx : Ctx) (key : String) (ttl : ℤ) (s : S)
        → Step k t s (acquire redis quote entropy ctx key ttl s).1
    releasing :
        (j u : String) (ctx : Ctx) (s : S)
        → ((j ≡ k) → (u ≢ t))
        → Step k t s (release redis quote j u ctx s).1
    expiring :
        (j : String) (s s' : S) → j ≢ k → values s' ≡ Contract.put j none (values s) → Step k t s s'
    -- whatever does not touch the locks
    elsewhere : (s s' : S) → values s' ≡ values s → Step k t s s'

  pub data Steps (k t : String) : S → S → Type 0 where
    done : (s : S) → Steps k t s s
    next : (s s' s'' : S) → Step k t s s' → Steps k t s' s'' → Steps k t s s''

  module _ (isRedis : Contract.IsRedis redis values) where
    Holds : String → String → S → Type 0
    Holds k t s = values s k ≡ some t

    free_differs : (k j t : String) (v : Contract.Values) → v k ≡ some t → v j ≡ none → j ≢ k
    free_differs k j t v h free e = cc (sym free ∙ ap v e ∙ h)

    own_differs :
        (k j t u : String) (v : Contract.Values)
        → ((j ≡ k) → (u ≢ t))
        → v k ≡ some t
        → v j ≡ some u
        → j ≢ k
    own_differs k j t u v other h own e = other e (some_inj (sym own ∙ ap v e ∙ h))

    pub Acquired-Holds :
        (k t j : String) {R : Type 0} (f : String → R) (token : Result String)
        (v w : Contract.Values) (r : Result R)
        → v k ≡ some t
        → Acquired j f token v w r
        → w k ≡ some t
    Acquired-Holds k t j f token v w r h (taken u e free same) =
        ap (λ x. x k) same ∙ put_other j k _ v (free_differs k j t v h free) ∙ h
    Acquired-Holds k t j f token v w r h (refused o e same) = ap (λ x. x k) same ∙ h
    Acquired-Holds k t j f token v w r h (broken e same) = ap (λ x. x k) same ∙ h
    Acquired-Holds k t j f token v w r h (orphaned e u free same) =
        ap (λ x. x k) same ∙ put_other j k _ v (free_differs k j t v h free) ∙ h

    Released-Holds :
        (k t j u : String) (v w : Contract.Values) (r : Result (Unit {0}))
        → ((j ≡ k) → (u ≢ t))
        → v k ≡ some t
        → Released j u v w r
        → w k ≡ some t
    Released-Holds k t j u v w r other h (freed own same) =
        ap (λ x. x k) same ∙ put_other j k none v (own_differs k j t u v other h own) ∙ h
    Released-Holds k t j u v w r other h (unanswered e own same) =
        ap (λ x. x k) same ∙ put_other j k none v (own_differs k j t u v other h own) ∙ h
    Released-Holds k t j u v w r other h (not_own own same) = ap (λ x. x k) same ∙ h
    Released-Holds k t j u v w r other h (not_run e same) = ap (λ x. x k) same ∙ h

    Step-Holds : (k t : String) (s s' : S) → Step k t s s' → Holds k t s → Holds k t s'
    unfolding Holds
    Step-Holds k t s s' (acquiring entropy ctx key ttl _) h =
        Acquired-Holds k t _ _ _ _ _ _ h
          (acquire-Acquired redis values isRedis quote entropy ctx key ttl s)
    Step-Holds k t s s' (releasing j u ctx _ other) h =
        Released-Holds k t j u _ _ _ other h (release-Released redis values isRedis quote j u ctx s)
    Step-Holds k t s s' (expiring j _ _ differ same) h =
        ap (λ x. x k) same ∙ put_other j k none (values s) differ ∙ h
    Step-Holds k t s s' (elsewhere _ _ same) h = ap (λ x. x k) same ∙ h

    Steps-Holds : (k t : String) (s s' : S) → Steps k t s s' → Holds k t s → Holds k t s'
    Steps-Holds k t s s' (done _) h = h
    Steps-Holds k t s s' (next _ u _ one rest) h =
        Steps-Holds k t u s' rest (Step-Holds k t s u one h)

    pub refuses :
        {R : Type 0} (k t : String) (f : String → R) (token : Result String) (v w : Contract.Values)
        (r : Result R)
        → v k ≡ some t
        → Acquired k f token v w r
        → (e : Error) × (r ≡ err e)
    refuses k t f token v w r h (taken u e free same) = elim (free_differs k k t v h free refl) [ ]
    refuses k t f token v w r h (refused o e same) = (_, refl)
    refuses k t f token v w r h (broken e same) = (e, refl)
    refuses k t f token v w r h (orphaned e u free same) = (e, refl)

    takes :
        {R : Type 0} (k t : String) (f : String → R) (token : Result String) (v w : Contract.Values)
        (r : Result R) (rel : R)
        → token ≡ ok t
        → r ≡ ok rel
        → Acquired k f token v w r
        → w k ≡ some t
    takes k t f token v w r rel h g (taken u e free same) =
        ap (λ x. x k) same ∙ put_self k (some u) v ∙ ap some (ok_inj (sym e ∙ h))
    takes k t f token v w r rel h g (refused o e same) = cc
    takes k t f token v w r rel h g (broken e same) = cc
    takes k t f token v w r rel h g (orphaned e u free same) = cc

    -- From an Acquire that succeeded on, through any steps of any processes in which that lock is
    -- not released with its own token and does not expire, the key keeps the token, and every
    -- further Acquire of the key fails.
    pub acquire-excludes :
        (entropy : Result (List ℕ)) (ctx : Ctx) (key t : String) (ttl : ℤ)
        (rel : Ctx → M S (Unit {0})) (s s' : S)
        → new_token entropy ≡ ok t
        → (acquire redis quote entropy ctx key ttl s).0 ≡ ok rel
        → Steps (lock_key_prefix ^^ key) t (acquire redis quote entropy ctx key ttl s).1 s'
        → (other : Result (List ℕ)) (ctx' : Ctx) (span : ℤ)
        → (values s' (lock_key_prefix ^^ key) ≡ some t)
          × ((e : Error) × ((acquire redis quote other ctx' key span s').0 ≡ err e))
    unfolding Holds
    acquire-excludes entropy ctx key t ttl rel s s' h g steps other ctx' span =
        let k = lock_key_prefix ^^ key in
        let held = Steps-Holds k t _ s' steps (
          takes k t _ _ _ _ _ rel h g
            (acquire-Acquired redis values isRedis quote entropy ctx key ttl s)) in
        (
          held,
          refuses k t _ _ _ _ _ held
              (acquire-Acquired redis values isRedis quote other ctx' key span s'),
        )
