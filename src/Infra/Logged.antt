-- ===== src/Infra/Logged.antt =====
-- Which queries the logger that NewGormDB sets writes a line for.
use go_clean_arch_template.Prelude.{
  false, ◌≡◌, refl, inl, inr, Option, none, some, List, [], ◌∷◌, arith, ltb, Bool-cases, ◌<◌, ◌≤◌,
}
use go_clean_arch_template.Apperr.{Error, is_error}
use go_clean_arch_template.Gorm.{err_record_not_found}
use go_clean_arch_template.Infra.QueryLog.{
  Query, QueryLine, failed_query, slow_query_line, new_gorm_logger, parse_level, trace, trace_slow,
  is_failure,
}

-- what is written for a query
pub data Written (q : Query) : Option Error → List QueryLine → Type 0 where
  failure :
      (e : Error)
      → is_error e err_record_not_found ≡ false
      → Written q (some e) (failed_query q e ∷ [])
  slow :
      (o : Option Error)
      → is_failure o ≡ false
      → 200000000 < q.elapsed
      → Written q o (slow_query_line q ∷ [])
  quiet : (o : Option Error) → is_failure o ≡ false → q.elapsed ≤ 200000000 → Written q o []

slow-Written :
    (q : Query) (o : Option Error)
    → is_failure o ≡ false
    → Written q o (trace_slow (new_gorm_logger "warn") q)
unfolding new_gorm_logger parse_level
slow-Written q o fine = elim (Bool-cases (ltb 200000000 q.elapsed)) [
  | inl long ↦ rw long (slow o fine (ground arith))
  | inr short ↦ rw short (quiet o fine (ground arith))
]

-- The logger that NewGormDB sets writes one line at the error level for a query that failed with
-- an error other than ErrRecordNotFound, else one at the warning level if it took more than
-- 200 milliseconds, and else nothing.
pub trace-Written :
    (q : Query) (o : Option Error) → Written q o (trace (new_gorm_logger "warn") q o)
unfolding trace new_gorm_logger parse_level
trace-Written q none = slow-Written q none refl
trace-Written q (some e) = elim (Bool-cases (is_error e err_record_not_found)) [
  | inl missing ↦ rw missing (slow-Written q (some e) (rw missing refl))
  | inr broken ↦ rw broken (failure e broken)
]
