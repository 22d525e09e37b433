-- ===== src/Server/Checked.antt =====
-- The checks that the readiness probe runs, and what its report says of them.
use go_clean_arch_template.Prelude.{String, Bool, false, List, [], ◌∷◌, ◌≡◌, refl, ◌↔◌}
use go_clean_arch_template.Apperr.{Error, error_text}
use go_clean_arch_template.Effect.{Result, ok, err, M}
use go_clean_arch_template.Ginx.Readiness.{Passed, all, next, checked}
use go_clean_arch_template.Server.{Checks, run_checks}

module _ {S : Type 0} where
  -- Each check is called once, in this order, from the state that the one before it left. The report
  -- starts as `ready` and `details`; a check that passes adds "ok" under its name, one that fails
  -- adds the text of its error and makes the report not ready.
  pub data Probed
      : Checks S
        → S
        → Bool
        → List (String × String)
        → Bool × List (String × String)
        → S
        → Type 0 where
    done :
        (s : S) (ready : Bool) (details : List (String × String))
        → Probed [] s ready details (ready, details) s
    passes :
        (name : String) (check : M S (Unit {0})) (rest : Checks S) (s t : S) (ready : Bool)
        (details : List (String × String)) (out : Bool × List (String × String))
        → (check s).0 ≡ ok tt
        → Probed rest (check s).1 ready ((name, "ok") ∷ details) out t
        → Probed ((name, check) ∷ rest) s ready details out t
    fails :
        (name : String) (check : M S (Unit {0})) (rest : Checks S) (s t : S) (ready : Bool)
        (details : List (String × String)) (out : Bool × List (String × String)) (e : Error)
        → (check s).0 ≡ err e
        → Probed rest (check s).1 false ((name, error_text e) ∷ details) out t
        → Probed ((name, check) ∷ rest) s ready details out t

  -- Every check passes, called in this order.
  pub data Passing : Checks S → S → Type 0 where
    none_left : (s : S) → Passing [] s
    one_more :
        (name : String) (check : M S (Unit {0})) (rest : Checks S) (s : S)
        → (check s).0 ≡ ok tt
        → Passing rest (check s).1
        → Passing ((name, check) ∷ rest) s

  pub run_checks-Probed :
      (checks : Checks S) (s : S) (ready : Bool) (details : List (String × String))
      → Probed checks s ready details
          (checked (run_checks checks s).0 ready details)
          (run_checks checks s).1
  unfolding run_checks checked
  run_checks-Probed [] s ready details = done s ready details
  run_checks-Probed ((name, check) ∷ rest) s ready details =
      by_result (run_checks-Probed rest (check s).1) (check s).0 refl
    where
      by_result :
          ((b : Bool) (d : List (String × String))
            → Probed rest
                (check s).1
                b
                d
                (checked (run_checks rest (check s).1).0 b d)
                (run_checks rest (check s).1).1)
          → (r : Result (Unit {0})) → (check s).0 ≡ r
          → Probed
              ((name, check) ∷ rest)
              s
              ready
              details
              (checked ((name, r) ∷ (run_checks rest (check s).1).0) ready details)
              (run_checks rest (check s).1).1
      by_result more (ok u) h = passes name check rest s _ ready details _ h (more ready _)
      by_result more (err e) h = fails name check rest s _ ready details _ e h (more false _)

  Passed-Passing : (checks : Checks S) (s : S) → Passed (run_checks checks s).0 → Passing checks s
  unfolding run_checks
  Passed-Passing [] s p = none_left s
  Passed-Passing ((name, check) ∷ rest) s p =
      by_result (Passed-Passing rest (check s).1) (check s).0 refl p
    where
      by_result :
          (Passed (run_checks rest (check s).1).0 → Passing rest (check s).1)
          → (r : Result (Unit {0})) → (check s).0 ≡ r
          → Passed ((name, r) ∷ (run_checks rest (check s).1).0)
          → Passing ((name, check) ∷ rest) s
      by_result further (ok u) h (next _ _ _ more) = one_more name check rest s h (further more)
      by_result further (err e) h failed = elim failed [ ]

  Passing-Passed : (checks : Checks S) (s : S) → Passing checks s → Passed (run_checks checks s).0
  unfolding run_checks
  Passing-Passed _ _ (none_left s) = all
  Passing-Passed _ _ (one_more name check rest s h more) =
      rw h (next name tt _ (Passing-Passed rest (check s).1 more))

  pub Passed-iff : (checks : Checks S) (s : S) → Passed (run_checks checks s).0 ↔ Passing checks s
  Passed-iff checks s = (Passed-Passing checks s, Passing-Passed checks s)
