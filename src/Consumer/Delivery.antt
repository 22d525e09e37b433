-- ===== src/Consumer/Delivery.antt =====
-- Which messages the consumer loop commits. Kafka commits one position for each topic and
-- partition, the offset that follows the committed message: all smaller offsets count as committed.
use go_clean_arch_template.Prelude.{
  ℕ, suc, String, Option, ◌≡◌, ◌⊎◌, inl, inr, refl, ap, ◌∙◌, subst,
}
use go_clean_arch_template.Apperr.{Error}
use go_clean_arch_template.Effect.{Result, ok, err}
use go_clean_arch_template.Consumer.{
  Message, Consumer, after_commit, after_handle, after_decode, after_fetch, turn, Run, returns,
  loops,
}

-- What the loop relies on: `position` is what the group has committed, and `Handled` says that a
-- message has been handled without an error.
pub record IsConsumer {S T : Type 0} (c : Consumer S T) (position : S → String → ℕ → ℕ)
    (Handled : S → Message → Type 0) : Type 0 where
  pub fetch_position :
      (s : S) (t : String) (p : ℕ) → position (c.reader.fetch_message s).1 t p ≡ position s t p
  pub fetch_handled : (s : S) (m : Message) → Handled s m → Handled (c.reader.fetch_message s).1 m
  pub handle_position :
      (x : T) (s : S) (t : String) (p : ℕ) → position (c.handle x s).1 t p ≡ position s t p
  pub handle_handled : (x : T) (s : S) (m : Message) → Handled s m → Handled (c.handle x s).1 m
  pub handle_ok :
      (m : Message) (x : T) (s : S)
      → c.unmarshal m.value ≡ ok x
      → (c.handle x s).0 ≡ ok tt
      → Handled (c.handle x s).1 m
  pub commit_handled :
      (n : Message) (s : S) (m : Message) → Handled s m → Handled (c.reader.commit_messages n s).1 m
  pub commit_position :
      (m : Message) (s : S) (t : String) (p : ℕ)
      → (position (c.reader.commit_messages m s).1 t p ≡ position s t p)
        ⊎ ((m.topic ≡ t)
            × (m.partition ≡ p)
            × (position (c.reader.commit_messages m s).1 t p ≡ suc m.offset))
  pub commit_ok :
      (m : Message) (s : S)
      → (c.reader.commit_messages m s).0 ≡ ok tt
      → position (c.reader.commit_messages m s).1 m.topic m.partition ≡ suc m.offset

module _ {S T : Type 0} (c : Consumer S T) (position : S → String → ℕ → ℕ)
    (Handled : S → Message → Type 0) (isConsumer : IsConsumer c position Handled)
    (base : String → ℕ → ℕ) where
  -- A position that is not the one of the start follows a message that has been handled.
  Justified : S → Type 0
  Justified s =
      (t : String) (p : ℕ)
      → (position s t p ≡ base t p)
        ⊎ ((m : Message) × Handled s m
            × (m.topic ≡ t)
            × (m.partition ≡ p)
            × (position s t p ≡ suc m.offset))

  Justified-keep :
      (s s' : S)
      → ((t : String) (p : ℕ) → position s' t p ≡ position s t p)
      → ((m : Message) → Handled s m → Handled s' m)
      → Justified s
      → Justified s'
  unfolding Justified
  Justified-keep s s' same kept j t p = elim (j t p) [
    | inl e ↦ inl (same t p ∙ e)
    | inr (m, h, a, b, e) ↦ inr (m, kept m h, a, b, same t p ∙ e)
  ]

  Justified-commit :
      (m : Message) (s : S) → Handled s m → Justified s → Justified (c.reader.commit_messages m s).1
  unfolding Justified
  Justified-commit m s h j t p = elim (isConsumer.commit_position m s t p) [
    | inl same ↦ elim (j t p) [
      | inl e ↦ inl (same ∙ e)
      | inr (n, g, a, b, e) ↦ inr (n, isConsumer.commit_handled m s n g, a, b, same ∙ e)
    ]
    | inr (a, b, e) ↦ inr (m, isConsumer.commit_handled m s m h, a, b, e)
  ]

  after_commit-Justified :
      (r : Result (Unit {0})) (s : S) → Justified s → Justified (after_commit c (r, s)).1
  after_commit-Justified (ok u) s j = j
  after_commit-Justified (err e) s j = j

  after_handle-Justified :
      (m : Message) (r : Result (Unit {0})) (s : S)
      → (r ≡ ok tt → Handled s m)
      → Justified s
      → Justified (after_handle c m (r, s)).1
  after_handle-Justified m (err e) s h j = j
  after_handle-Justified m (ok u) s h j =
      let p = c.reader.commit_messages m s in
      after_commit-Justified p.0 p.1 (Justified-commit m s (h refl) j)

  after_decode-Justified :
      (m : Message) (r : Result T) (s : S)
      → c.unmarshal m.value ≡ r
      → Justified s
      → Justified (after_decode c m r s).1
  after_decode-Justified m (err e) s h j = j
  after_decode-Justified m (ok x) s h j =
      after_handle-Justified m (c.handle x s).0 (c.handle x s).1 (isConsumer.handle_ok m x s h) (
        Justified-keep s (c.handle x s).1 (isConsumer.handle_position x s)
          (isConsumer.handle_handled x s) j)

  after_fetch-Justified :
      (r : Result Message) (s : S) → Justified s → Justified (after_fetch c (r, s)).1
  after_fetch-Justified (err e) s j = j
  after_fetch-Justified (ok m) s j = after_decode-Justified m (c.unmarshal m.value) s refl j

  turn-Justified : (s : S) → Justified s → Justified (turn c s).1
  unfolding turn
  turn-Justified s j =
      let p = c.reader.fetch_message s in
      after_fetch-Justified p.0 p.1
        (Justified-keep s p.1 (isConsumer.fetch_position s) (isConsumer.fetch_handled s) j)

  Run-Justified : (s : S) (end : Option Error × S) → Run c s end → Justified s → Justified end.1
  Run-Justified s end (returns _ s' r e) j = subst Justified (ap (λ x. x.1) e) (turn-Justified s j)
  Run-Justified s end (loops _ s' _ e rest) j =
      Run-Justified s' end rest (subst Justified (ap (λ x. x.1) e) (turn-Justified s j))

  -- Run commits only after it has handled: when it returns, each position is the one that it had
  -- at the start, or follows a message of that topic and partition of which `Handled` holds.
  pub Run-commits :
      (s : S) (end : Option Error × S)
      → Run c s end
      → ((t : String) (p : ℕ) → position s t p ≡ base t p)
      → (t : String) (p : ℕ)
      → (position end.1 t p ≡ base t p)
        ⊎ ((m : Message) × Handled end.1 m
            × (m.topic ≡ t)
            × (m.partition ≡ p)
            × (position end.1 t p ≡ suc m.offset))
  unfolding Justified
  Run-commits s end run start t p = Run-Justified s end run (λ u q. inl (start u q)) t p
