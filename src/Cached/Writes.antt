-- ===== src/Cached/Writes.antt =====
-- What the cached repository does on writes, and over any sequence of calls.
use mathlib.Core.Path.{subst₂}
use go_clean_arch_template.Prelude.{ℕ, String, ◌≡◌, sym, ap, ◌∙◌, Option, none, some, List, [], ◌∷◌}
use go_clean_arch_template.Effect.{Result, ok, continue, ◌>>=◌, pure}
use go_clean_arch_template.Domain.{
  Account, UpdateAccountParams, ListAccountFilter, account_cache_key_by_id,
}
use go_clean_arch_template.Ports.{AccountRepository}
use go_clean_arch_template.Ports.Contract.{
  Accounts, store, patch, Fetched, IsRepository, Created, inserted, refused, Updated, Deleted,
}
use go_clean_arch_template.Cache.{LibCache}
use go_clean_arch_template.Cache
use go_clean_arch_template.Cache.Contract.{
  Entries, entry_put, IsCache, Wrote, wrote, not_written, written_anyway,
}
use go_clean_arch_template.Cached
use go_clean_arch_template.Cached.{invalidate}
use go_clean_arch_template.Cached.Coherence.{IsCoherent, IsCoherent-evict, IsCoherent-insert}
use go_clean_arch_template.Cached.Reads.{LeavesCache, get_by_id-IsCoherent, get_by_email-settles}

-- A call of the repository.
pub data Call : Type 0 where
  creates : Account → Call
  gets_by_id gets_by_email deletes : String → Call
  updates : UpdateAccountParams → Call
  lists : ListAccountFilter → Call

module _ {S : Type 0} (inner : AccountRepository S) (cache : LibCache S Account) (ttl : ℕ) where
  -- the state after one call, whatever it returned
  pub after_call : Call → S → S
  after_call (creates a) s = (Cached.create inner cache ttl a s).1
  after_call (gets_by_id id) s = (Cached.get_by_id inner cache ttl id s).1
  after_call (gets_by_email email) s = (Cached.get_by_email inner cache ttl email s).1
  after_call (deletes id) s = (Cached.delete inner cache ttl id s).1
  after_call (updates p) s = (Cached.update inner cache ttl p s).1
  after_call (lists f) s = (Cached.list inner cache ttl f s).1

  pub after_calls : List Call → S → S
  unfolding after_call
  after_calls [] s = s
  after_calls (c ∷ cs) s = after_calls cs (after_call c s)

pub Wrote-ok :
    {k : String} {o : Option Account} {c d : Entries Account} {r : Result (Unit {0})}
    → Wrote k o c d r
    → r ≡ ok tt
    → d ≡ entry_put k o c
Wrote-ok (wrote e) h = e
Wrote-ok (not_written _ e) h = cc
Wrote-ok (written_anyway _ e) h = e

module _ {S : Type 0} (inner : AccountRepository S) (cache : LibCache S Account) (ttl : ℕ)
    (view : S → Accounts) (entries : S → Entries Account) (repo : IsRepository inner view)
    (lib : IsCache cache entries view) (leaves : LeavesCache inner entries) where
  -- evicting the entry of the account that was changed
  evicted :
      (id : String) (row : Option Account) (s t : S)
      → IsCoherent (view s) (entries s)
      → view t ≡ store id row (view s)
      → entries t ≡ entries s
      → (cache.delete (account_cache_key_by_id id) t).0 ≡ ok tt
      → IsCoherent
          (view (invalidate inner cache ttl (account_cache_key_by_id id) t).1)
          (entries (invalidate inner cache ttl (account_cache_key_by_id id) t).1)
  unfolding invalidate
  evicted id row s t h changed same evicts =
      subst₂ IsCoherent (sym accounts) (sym cached) (IsCoherent-evict h id row)
    where
      key : String
      key = account_cache_key_by_id id

      accounts : view (Cache.delete cache key t).1 ≡ store id row (view s)
      accounts = lib.delete_rest key t ∙ changed

      cached : entries (Cache.delete cache key t).1 ≡ entry_put key none (entries s)
      cached = Wrote-ok (lib.delete key t) evicts ∙ ap (entry_put key none) same

  unchanged :
      (s t : S)
      → IsCoherent (view s) (entries s)
      → view t ≡ view s
      → entries t ≡ entries s
      → IsCoherent (view t) (entries t)
  unchanged s t h v c = subst₂ IsCoherent (sym v) (sym c) h

  create-IsCoherent :
      (a : Account) (s : S) (r : Result String)
      → Created a (view s) (view (inner.create a s).1) r
      → IsCoherent (view s) (entries s)
      → IsCoherent (view (inner.create a s).1) (entries (inner.create a s).1)
  create-IsCoherent a s _ (inserted new free stored) h =
      subst₂ IsCoherent (sym stored) (sym (leaves.create a s))
        (IsCoherent-insert h a.id (some a) new)
  create-IsCoherent a s _ (refused e same) h = unchanged s _ h same (leaves.create a s)

  -- a write that was followed by an eviction, or failed
  module _ (evicts : (k : String) (s : S) → (cache.delete k s).0 ≡ ok tt) where
    update-IsCoherent :
        (p : UpdateAccountParams) (s : S) (r : Result (Unit {0})) (t : S)
        → Updated p (view s) (view t) r
        → entries t ≡ entries s
        → IsCoherent (view s) (entries s)
        → let u =
            (continue r
              (λ _. invalidate inner cache ttl (account_cache_key_by_id p.id) >>= λ _. pure tt)
              t).1 in
          IsCoherent (view u) (entries u)
    unfolding invalidate
    update-IsCoherent p s _ t (Updated.written a at stored) same h =
        evicted p.id (some (patch p a)) s t h stored same (evicts (account_cache_key_by_id p.id) t)
    update-IsCoherent p s _ t (Updated.missing e gone nf kept) same h = unchanged s t h kept same
    update-IsCoherent p s _ t (Updated.broken e other kept) same h = unchanged s t h kept same

    delete-IsCoherent :
        (id : String) (s : S) (r : Result (Unit {0})) (t : S)
        → Deleted id (view s) (view t) r
        → entries t ≡ entries s
        → IsCoherent (view s) (entries s)
        → let u =
            (continue r
              (λ _. invalidate inner cache ttl (account_cache_key_by_id id) >>= λ _. pure tt)
              t).1 in
          IsCoherent (view u) (entries u)
    unfolding invalidate
    delete-IsCoherent id s _ t (Deleted.removed a at stored) same h =
        evicted id none s t h stored same (evicts (account_cache_key_by_id id) t)
    delete-IsCoherent id s _ t (Deleted.missing e gone nf kept) same h = unchanged s t h kept same
    delete-IsCoherent id s _ t (Deleted.broken e other kept) same h = unchanged s t h kept same

    call-IsCoherent :
        (c : Call) (s : S)
        → IsCoherent (view s) (entries s)
        → IsCoherent
            (view (after_call inner cache ttl c s))
            (entries (after_call inner cache ttl c s))
    unfolding after_call Cached.create Cached.update Cached.delete Cached.list
    call-IsCoherent (creates a) s h = create-IsCoherent a s _ (repo.create a s) h
    call-IsCoherent (gets_by_id id) s h =
        (get_by_id-IsCoherent inner cache ttl view entries repo lib leaves id s h).2
    call-IsCoherent (gets_by_email email) s h =
        (get_by_email-settles inner cache ttl view entries repo lib leaves email s h).1
    call-IsCoherent (updates p) s h =
        update-IsCoherent p s (inner.update p s).0 (inner.update p s).1 (repo.update p s)
          (leaves.update p s) h
    call-IsCoherent (deletes id) s h =
        delete-IsCoherent id s (inner.delete id s).0 (inner.delete id s).1 (repo.delete id s)
          (leaves.delete id s) h
    call-IsCoherent (lists f) s h = unchanged s _ h (repo.list_reads f s) (leaves.list f s)

    calls-IsCoherent :
        (cs : List Call) (s : S)
        → IsCoherent (view s) (entries s)
        → IsCoherent
            (view (after_calls inner cache ttl cs s))
            (entries (after_calls inner cache ttl cs s))
    unfolding after_calls
    calls-IsCoherent [] s h = h
    calls-IsCoherent (c ∷ cs) s h =
        calls-IsCoherent cs (after_call inner cache ttl c s) (call-IsCoherent c s h)

    -- While evictions do not fail: from a coherent cache, after any calls of the repository with any
    -- results, GetByID returns the account that is stored then, or ErrAccountNotFound if none is, or
    -- a failure of a backend. It never returns an account as it was before a write.
    pub get_by_id-fresh :
        (cs : List Call) (id : String) (s : S)
        → IsCoherent (view s) (entries s)
        → let t = after_calls inner cache ttl cs s in
          Fetched (view t id) (Cached.get_by_id inner cache ttl id t).0
    get_by_id-fresh cs id s h =
        (get_by_id-IsCoherent inner cache ttl view entries repo lib leaves id
          (after_calls inner cache ttl cs s) (calls-IsCoherent cs s h)).0
