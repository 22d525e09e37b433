-- ===== src/Cached/Coherence.antt =====
-- The cached entries under id keys, and the accounts that are stored.
use go_clean_arch_template.Prelude.{
  Bool-cases, inl, inr, String, ◌≡◌, ◌≢◌, ◌⊎◌, sym, ap, ◌∙◌, subst, Option, none, some, ◌==◌,
  eq_iff, arith,
}
use go_clean_arch_template.Effect.{Result}
use go_clean_arch_template.Domain.{Account, account_cache_key_by_id, account_cache_key_by_email}
use go_clean_arch_template.Domain.Keys.{
  account_cache_key_by_id-injective, account_cache_key_by_id-ne-email,
}
use go_clean_arch_template.Ports.Contract.{Accounts, store}
use go_clean_arch_template.Cache.Contract.{
  Entries, entry_put, Wrote, wrote, not_written, written_anyway,
}

-- An account that is cached under the key of an id is the one that is stored under that id.
pub record IsCoherent (v : Accounts) (c : Entries Account) : Type 0 where
  pub stored : (id : String) (a : Account) → c (account_cache_key_by_id id) ≡ some a → v id ≡ some a

pub Wrote_cases :
    {k : String} {o : Option Account} {c d : Entries Account} {r : Result (Unit {0})}
    → Wrote k o c d r
    → (d ≡ entry_put k o c) ⊎ (d ≡ c)
Wrote_cases (wrote e) = inl e
Wrote_cases (not_written _ e) = inr e
Wrote_cases (written_anyway _ e) = inl e

pub Wrote-IsCoherent :
    {k : String} {o : Option Account} {v : Accounts} {c d : Entries Account} {r : Result (Unit {0})}
    → Wrote k o c d r
    → IsCoherent v (entry_put k o c)
    → IsCoherent v c
    → IsCoherent v d
Wrote-IsCoherent {v = v} w new old = elim (Wrote_cases w) [
  | inl e ↦ subst (IsCoherent v) (sym e) new
  | inr e ↦ subst (IsCoherent v) (sym e) old
]

pub entry_cases :
    (k j : String) (o : Option Account) (c : Entries Account) {b : Account}
    → entry_put k o c j ≡ some b
    → ((k ≡ j) × (o ≡ some b)) ⊎ ((k ≢ j) × (c j ≡ some b))
entry_cases k j o c h = elim (Bool-cases (k == j)) [
  | inl same ↦ inl ((eq_iff k j).0 same, rw same at h)
  | inr differ ↦ inr (ground (arith, eq_iff k j), rw differ at h)
]

module _ {v : Accounts} {c : Entries Account} (h : IsCoherent v c) where
  -- caching what is stored
  pub IsCoherent-load :
      (id : String) (a : Account)
      → v id ≡ some a
      → IsCoherent v (entry_put (account_cache_key_by_id id) (some a) c)
  IsCoherent-load id a at = record {
    stored = λ j b e.
        elim (entry_cases (account_cache_key_by_id id) (account_cache_key_by_id j) (some a) c e) [
          | inl (same, row) ↦
              subst (λ i. v i ≡ some b) (account_cache_key_by_id-injective id j same) (at ∙ row)
          | inr (differ, old) ↦ h.stored j b old
        ];
  }

  -- caching anything under the key of an email
  pub IsCoherent-email :
      (email : String) (o : Option Account)
      → IsCoherent v (entry_put (account_cache_key_by_email email) o c)
  IsCoherent-email email o = record {
    stored = λ j b e.
        elim (entry_cases (account_cache_key_by_email email) (account_cache_key_by_id j) o c e) [
          | inl (same, row) ↦ absurd (account_cache_key_by_id-ne-email j email (sym same))
          | inr (differ, old) ↦ h.stored j b old
        ];
  }

  -- changing one account and evicting its entry
  pub IsCoherent-evict :
      (id : String) (row : Option Account)
      → IsCoherent (store id row v) (entry_put (account_cache_key_by_id id) none c)
  IsCoherent-evict id row = record {
    stored = λ j b e.
        elim (entry_cases (account_cache_key_by_id id) (account_cache_key_by_id j) none c e) [
          | inl (same, gone) ↦ cc
          | inr (differ, old) ↦
              off j b (λ same. differ (ap account_cache_key_by_id same)) (h.stored j b old)
        ];
  }
    where
      off : (j : String) (b : Account) → id ≢ j → v j ≡ some b → store id row v j ≡ some b
      off j b differ at = ground (arith, eq_iff id j)

  -- adding an account that was not there
  pub IsCoherent-insert :
      (id : String) (row : Option Account) → v id ≡ none → IsCoherent (store id row v) c
  IsCoherent-insert id row new = record {
    stored = λ j b e. elim (Bool-cases (id == j)) [
      | inl same ↦ absurd (clash (sym (h.stored j b e) ∙ ap v (sym ((eq_iff id j).0 same)) ∙ new))
      | inr differ ↦ rw differ (h.stored j b e)
    ];
  }
    where
      clash : {a : Account} → some a ≡ none → ⊥
      clash e = cc
