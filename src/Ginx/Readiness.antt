-- ===== src/Ginx/Readiness.antt =====
-- internal/infra/ginx/handler.go: the probes. What each check returned is an argument, in the order
-- in which the map of the checks was ranged over; the deadline is left to the checks.
use go_clean_arch_template.Prelude.{
  ℕ, String, Bool, true, false, ◌≡◌, ◌≢◌, arith, ◌↔◌, refl, sym, ◌∙◌, List, arith, [], ◌∷◌,
  if◌then◌else◌, false≢true,
}
use go_clean_arch_template.Apperr.{error_text}
use go_clean_arch_template.Effect.{Result, ok, err}

-- what the probe answers
pub record Report : Type 0 where
  pub status : ℕ
  pub ready : Bool
  pub details : List (String × String)

-- the body of the loop over the checks
unfoldable pub checked :
    List (String × Result (Unit {0}))
    → (ready : Bool) (details : List (String × String)) → Bool × List (String × String)
unfolding error_text
checked [] ready details = (ready, details)
checked ((name, ok u) ∷ rest) ready details = checked rest ready ((name, "ok") ∷ details)
checked ((name, err e) ∷ rest) ready details = checked rest false ((name, error_text e) ∷ details)

-- `status`
abbrev status_of : Bool → ℕ
status_of ready = if ready then 200 else 503

-- ReadinessHandler
unfoldable pub readiness : List (String × Result (Unit {0})) → Report
unfolding checked
readiness results =
    let (ready, details) = checked results true [] in
    record { status = status_of ready; ready = ready; details = details }

-- Every check passed.
pub data Passed : List (String × Result (Unit {0})) → Type 0 where
  all : Passed []
  next : (name : String) (u : Unit {0}) (rest : List _) → Passed rest → Passed ((name, ok u) ∷ rest)

checked-false :
    (l : List (String × Result (Unit {0}))) (d : List (String × String))
    → (checked l false d).0 ≡ false
unfolding checked
checked-false [] d = refl
checked-false ((name, ok u) ∷ rest) d = checked-false rest _
checked-false ((name, err e) ∷ rest) d = checked-false rest _

pub checked-Passed :
    (l : List (String × Result (Unit {0}))) (d : List (String × String))
    → ((checked l true d).0 ≡ true) ↔ Passed l
unfolding checked
checked-Passed [] d = (λ h. all, λ p. refl)
checked-Passed ((name, ok u) ∷ rest) d =
    (λ h. next name u rest ((checked-Passed rest _).0 h), λ p. (checked-Passed rest _).1 (tail p))
  where
    tail : Passed ((name, ok u) ∷ rest) → Passed rest
    tail (next _ _ _ p) = p
checked-Passed ((name, err e) ∷ rest) d =
    (λ h. absurd (false≢true (sym (checked-false rest _) ∙ h)), λ p. elim p [ ])

unlike : ◌≢◌ {A = ℕ} 503 200
unlike h = omega arith

ready_status : (b : Bool) → (status_of b ≡ 200) ↔ (b ≡ true)
ready_status true = (λ h. refl, λ h. refl)
ready_status false = (λ h. absurd (unlike h), λ h. absurd (false≢true h))

-- The readiness probe answers 200 if and only if every check passed.
pub readiness_iff :
    (l : List (String × Result (Unit {0}))) → ((readiness l).status ≡ 200) ↔ Passed l
unfolding readiness
readiness_iff l = (
  λ h. (checked-Passed l []).0 ((ready_status (checked l true []).0).0 h),
  λ p. (ready_status (checked l true []).0).1 ((checked-Passed l []).1 p),
)
