-- ===== src/Consumer/Ends.antt =====
-- When the loop of Run ends, and with what.
use go_clean_arch_template.Prelude.{
  ℕ, zero, suc, ◌≤◌, ◌<◌, Option, none, some, false, ◌≡◌, refl, sym, ◌∙◌, subst, Bool-cases, inl,
  inr, arith,
}
use go_clean_arch_template.Apperr.{Error, is_error}
use go_clean_arch_template.Effect.{Result, ok, err}
use go_clean_arch_template.Consumer.{
  Message, Consumer, Turn, again, return, canceled, after_commit, after_handle, after_decode,
  after_fetch, turn, Run, returns, loops,
}

-- A reader that delivers finitely many messages until a fetch fails, as it does once its context
-- has been canceled: `left` bounds how many it still delivers.
pub record IsFinite {S T : Type 0} (c : Consumer S T) (left : S → ℕ) : Type 0 where
  pub fetch :
      (s : S) (m : Message)
      → (c.reader.fetch_message s).0 ≡ ok m
      → left (c.reader.fetch_message s).1 < left s
  pub handle : (x : T) (s : S) → left (c.handle x s).1 ≤ left s
  pub commit : (m : Message) (s : S) → left (c.reader.commit_messages m s).1 ≤ left s

-- What Run may return: nil, or an error that is not the cancellation of its context.
pub data Stops : Option Error → Type 0 where
  cleanly : Stops none
  on_error : (e : Error) → is_error e canceled ≡ false → Stops (some e)

return_inj : {r q : Option Error} → return r ≡ return q → r ≡ q
return_inj h = cc

module _ {S T : Type 0} (c : Consumer S T) where
  -- Run returns in one way only.
  Run-unique : (s : S) (e f : Option Error × S) → Run c s e → Run c s f → e ≡ f
  Run-unique s _ _ (returns _ u r p) (returns _ v q p') = same (sym p ∙ p')
    where
      same :
          {r q : Option Error} {u v : S}
          → ◌≡◌ {A = Turn × S} (return r, u) (return q, v)
          → ◌≡◌ {A = Option Error × S} (r, u) (q, v)
      same h = cc
  Run-unique s _ f (returns _ u r p) (loops _ v _ p' rest) = absurd (differ (sym p ∙ p'))
    where
      differ : {r : Option Error} {u v : S} → ◌≡◌ {A = Turn × S} (return r, u) (again, v) → ⊥
      differ h = cc
  Run-unique s e _ (loops _ v _ p' rest) (returns _ u r p) = absurd (differ (sym p ∙ p'))
    where
      differ : {r : Option Error} {u v : S} → ◌≡◌ {A = Turn × S} (return r, u) (again, v) → ⊥
      differ h = cc
  Run-unique s e f (loops _ u _ p rest) (loops _ v _ q other) =
      Run-unique v e f (subst (λ x. Run c x e) (next (sym p ∙ q)) rest) other
    where
      next : {u v : S} → ◌≡◌ {A = Turn × S} (again, u) (again, v) → u ≡ v
      next h = cc

module _ {S T : Type 0} (c : Consumer S T) (left : S → ℕ) (finite : IsFinite c left) where
  -- an iteration from a state in which at most `n` messages are left
  abbrev Falls : ℕ → Turn × S → Type 0
  Falls n (again, s) = left s < n
  Falls n (return r, s) = Stops r

  commit-Falls :
      (n : ℕ) (r : Result (Unit {0})) (s : S) → left s < n → Falls n (after_commit c (r, s))
  commit-Falls n (ok u) s h = h
  commit-Falls n (err e) s h = elim (Bool-cases (is_error e canceled)) [
    | inl stop ↦ rw stop cleanly
    | inr go ↦ rw go h
  ]

  handle-Falls :
      (n : ℕ) (m : Message) (r : Result (Unit {0})) (s : S)
      → left s < n
      → Falls n (after_handle c m (r, s))
  handle-Falls n m (err e) s h = h
  handle-Falls n m (ok u) s h =
      let p = c.reader.commit_messages m s in commit-Falls n p.0 p.1 (bound (finite.commit m s) h)
    where
      bound : {a b : ℕ} → a ≤ b → b < n → a < n
      bound p q = omega arith

  decode-Falls :
      (n : ℕ) (m : Message) (r : Result T) (s : S) → left s < n → Falls n (after_decode c m r s)
  decode-Falls n m (err e) s h = h
  decode-Falls n m (ok x) s h =
      handle-Falls n m (c.handle x s).0 (c.handle x s).1 (bound (finite.handle x s) h)
    where
      bound : {a b : ℕ} → a ≤ b → b < n → a < n
      bound p q = omega arith

  fetch-Falls :
      (n : ℕ) (r : Result Message) (s : S)
      → ((m : Message) → r ≡ ok m → left s < n)
      → Falls n (after_fetch c (r, s))
  fetch-Falls n (err e) s h = elim (Bool-cases (is_error e canceled)) [
    | inl stop ↦ rw stop cleanly
    | inr go ↦ rw go (on_error e go)
  ]
  fetch-Falls n (ok m) s h = decode-Falls n m (c.unmarshal m.value) s (h m refl)

  turn-Falls : (s : S) → Falls (left s) (turn c s)
  unfolding turn
  turn-Falls s =
      fetch-Falls (left s) (c.reader.fetch_message s).0 (c.reader.fetch_message s).1
        (finite.fetch s)

  -- Run from one state on
  abbrev Ends : S → Type 0
  Ends s = (end : Option Error × S) × Run c s end × Stops end.0

  from_turn :
      (n : ℕ) (s : S) (t : Turn × S)
      → turn c s ≡ t
      → Falls n t
      → ((u : S) → left u < n → Ends u)
      → Ends s
  from_turn n s (return r, u) e stops next = ((r, u), returns s u r e, stops)
  from_turn n s (again, u) e falls next =
      let (end, rest, stops) = next u falls in (end, loops s u end e rest, stops)

  run_within : (n : ℕ) (s : S) → left s < n → Ends s
  run_within zero s h = absurd (omega arith)
  run_within (suc n) s h =
      from_turn (left s) s (turn c s) refl (turn-Falls s) (λ u fewer. run_within n u (omega arith))

  -- If the reader delivers finitely many messages before a fetch fails, Run returns, whatever the
  -- handler, the decoder and the commits do: with nil, or with an error that is not the
  -- cancellation of its context; and there is one end only that it can come to.
  pub Run-ends :
      (s : S)
      → (end : Option Error × S) × Run c s end
        × Stops end.0
        × ((end2 : Option Error × S) → Run c s end2 → end2 ≡ end)
  Run-ends s =
      let (end, run, stops) = run_within (suc (left s)) s (omega arith) in
      (end, run, stops, λ end2 r. Run-unique c s end2 end r run)
