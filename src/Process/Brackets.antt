-- ===== src/Process/Brackets.antt =====
-- Hooks that undo on stop what they did on start, one by one and in a row.
use go_clean_arch_template.Prelude.{List, [], ◌∷◌, ◌≡◌, refl}
use go_clean_arch_template.Apperr.{Error}
use go_clean_arch_template.Effect.{Result, ok, err}
use go_clean_arch_template.Process.{Hook}
use go_clean_arch_template.Process.Contract.{
  Started, started, start_next, start_failed, Stopped, stopped, stop_next, last_first, Fx, IsFx,
  lived, started_then,
}

module _ {S : Type 0} where
  -- what a start leaves: all of it on success, nothing after a failure
  pub data Outcome (Before After : S → Type 0) (s : S) : Result (Unit {0}) → Type 0 where
    up : After s → Outcome Before After s (ok tt)
    down : (e : Error) → Before s → Outcome Before After s (err e)

  Outcome-After :
      (Before After : S → Type 0) (s : S) (r : Result (Unit {0}))
      → Outcome Before After s r
      → r ≡ ok tt
      → After s
  Outcome-After _ _ _ _ (up a) h = a
  Outcome-After _ _ _ _ (down e b) h = cc

  Outcome-Before :
      (Before After : S → Type 0) (s : S) (r : Result (Unit {0})) (e : Error)
      → Outcome Before After s r
      → r ≡ err e
      → Before s
  Outcome-Before _ _ _ _ e (up a) h = cc
  Outcome-Before _ _ _ _ e (down _ b) h = b

  pub weaken :
      (Before After More : S → Type 0) (s : S) (r : Result (Unit {0}))
      → ((t : S) → After t → More t)
      → Outcome Before After s r
      → Outcome Before More s r
  weaken _ _ _ s _ f (up a) = up (f s a)
  weaken _ _ _ s _ f (down e b) = down e b

  -- Start takes what satisfies `Before` to what satisfies `After` or fails, and stop takes that back.
  pub record IsBracket (h : Hook S) (Before After : S → Type 0) : Type 0 where
    pub starts : (s : S) → Before s → Outcome Before After (h.on_start s).1 (h.on_start s).0
    pub stops : (s : S) → After s → Before (h.on_stop s).1

  -- brackets in a row
  pub data Chain : List (Hook S) → (Before After : S → Type 0) → Type 1 where
    here : (P : S → Type 0) → Chain [] P P
    link :
        (h : Hook S) (rest : List (Hook S)) (P Q R : S → Type 0)
        → IsBracket h P Q
        → Chain rest Q R
        → Chain (h ∷ rest) P R

  -- the stops of brackets, the last one first
  pub data Undo : List (Hook S) → (After Before : S → Type 0) → Type 1 where
    undone : (P : S → Type 0) → Undo [] P P
    back :
        (h : Hook S) (rest : List (Hook S)) (R Q P : S → Type 0)
        → ((s : S) → R s → Q (h.on_stop s).1)
        → Undo rest Q P
        → Undo (h ∷ rest) R P

  Stopped-Undo :
      (hooks : List (Hook S)) (s t : S) (R P : S → Type 0)
      → Stopped hooks s t
      → Undo hooks R P
      → R s
      → P t
  Stopped-Undo _ _ _ _ _ (stopped s) (undone P) r = r
  Stopped-Undo _ _ _ _ _ (stop_next h rest s t st) (back _ _ R Q P stops u) r =
      Stopped-Undo rest (h.on_stop s).1 t Q P st u (stops s r)

  Chain-Undo :
      (hooks done : List (Hook S)) (P Q R : S → Type 0)
      → Chain hooks Q R
      → Undo done Q P
      → Undo (last_first hooks done) R P
  unfolding last_first
  Chain-Undo _ done P _ _ (here Q) u = u
  Chain-Undo _ done P _ _ (link h rest Q Q' R b c) u =
      Chain-Undo rest (h ∷ done) P Q' R c (back h done Q' Q P b.stops u)

  Started-Outcome :
      (hooks done : List (Hook S)) (P Q R : S → Type 0) (s t : S) (r : Result (Unit {0}))
      → Chain hooks Q R
      → Undo done Q P
      → Q s
      → Started hooks done s r t
      → Outcome P R t r
  Started-Outcome _ done P _ _ _ _ _ (here Q) u q (started _ s) = up q
  Started-Outcome _ done P _ _ _ _ _ (link h rest Q Q' R b c) u q (start_next _ _ _ s t r fine st) =
      Started-Outcome rest (h ∷ done) P Q' R (h.on_start s).1 t r c (back h done Q' Q P b.stops u)
        (Outcome-After Q Q' _ _ (b.starts s q) fine) st
  Started-Outcome _ done P _ _ _ _ _ (link h rest Q Q' R b c) u q
        (start_failed _ _ _ s t e bad st) =
      down e (
        Stopped-Undo done (h.on_start s).1 t Q P st u
          (Outcome-Before Q Q' _ _ e (b.starts s q) bad))

  started_then-Before :
      (Before After : S → Type 0) (rest : S → S) (x : Result (Unit {0}) × S)
      → Outcome Before After x.1 x.0
      → ((t : S) → After t → Before (rest t))
      → Before (started_then rest x)
  started_then-Before B A rest (ok u, t) o undo = undo t (Outcome-After B A t (ok u) o refl)
  started_then-Before B A rest (err e, t) o undo = Outcome-Before B A t (err e) e o refl

  module _ (fx : Fx S) (isFx : IsFx fx) (hooks : List (Hook S)) (Before After : S → Type 0)
      (chain : Chain hooks Before After) (s : S) (before : Before s) where
    pub start-Outcome : Outcome Before After (fx.start hooks s).1 (fx.start hooks s).0
    start-Outcome =
        Started-Outcome hooks [] Before Before After s (fx.start hooks s).1 (fx.start hooks s).0
          chain (undone Before) before (isFx.start-Started hooks s)

    pub lived-Before :
        (work : S → S) → ((t : S) → After t → After (work t)) → Before (lived fx hooks work s)
    unfolding lived
    lived-Before work keeps =
        started_then-Before Before After (λ t. (fx.stop hooks (work t)).1) (fx.start hooks s)
          start-Outcome
          (λ t after.
            Stopped-Undo (last_first hooks []) (work t) (fx.stop hooks (work t)).1 After Before
              (isFx.stop-Stopped hooks (work t))
              (Chain-Undo hooks [] Before Before After chain (undone Before)) (keeps t after))
