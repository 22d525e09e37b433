-- ===== src/Infra/QueryLog.antt =====
-- internal/infra/gorm/logger.go: the queries that GORM's logger writes to slog. GORM's LogLevel is a
-- number, its ErrRecordNotFound a sentinel; times are in nanoseconds.
use go_clean_arch_template.Prelude.{
  ℕ, String, Bool, false, not, Option, none, some, List, [], ◌∷◌, ◌==◌, ◌&&◌, ◌||◌, if◌then◌else◌,
  leb, ltb,
}
use go_clean_arch_template.Prelude.Int.{ℤ}
use go_clean_arch_template.Apperr.{Error, is_error}
use go_clean_arch_template.Gorm.{err_record_not_found}

abbrev pub LogLevel : Type 0
LogLevel = ℕ

-- logger.Silent, Error, Warn and Info
abbrev pub level_silent : LogLevel
level_silent = 1

abbrev pub level_error : LogLevel
level_error = 2

abbrev pub level_warn : LogLevel
level_warn = 3

abbrev pub level_info : LogLevel
level_info = 4

-- slogLogger; the slog.Logger is the list of the lines
pub record SlogLogger : Type 0 where
  pub level : LogLevel
  pub slow_query : ℕ

-- the attributes of a query
pub record Query : Type 0 where
  pub sql : String
  pub rows : ℤ
  pub elapsed : ℕ

-- a line, by the method of slog.Logger
pub data QueryLine : Type 0 where
  info_line : String → QueryLine
  warn_line : String → QueryLine
  error_line : String → QueryLine
  failed_query : Query → Error → QueryLine
  slow_query_line : Query → QueryLine
  debug_query : Query → QueryLine

-- parseLevel
unfoldable pub parse_level : String → LogLevel
parse_level level =
    if level == "silent"
    then level_silent
    else if level == "error"
    then level_error
    else if level == "warn" || level == "warning"
    then level_warn
    else level_info

-- NewGormLogger
unfoldable pub new_gorm_logger : (level : String) → SlogLogger
unfolding parse_level
new_gorm_logger level = record { level = parse_level level; slow_query = 200000000 }

-- LogMode
unfoldable pub log_mode : LogLevel → SlogLogger → SlogLogger
log_mode level l = record l { level = level }

-- Info, Warn and Error, without their data
unfoldable pub log_info : SlogLogger → String → List QueryLine
log_info l msg = if leb level_info l.level then info_line msg ∷ [] else []

unfoldable pub log_warn : SlogLogger → String → List QueryLine
log_warn l msg = if leb level_warn l.level then warn_line msg ∷ [] else []

unfoldable pub log_error : SlogLogger → String → List QueryLine
log_error l msg = if leb level_error l.level then error_line msg ∷ [] else []

-- `err != nil && !errors.Is(err, logger.ErrRecordNotFound)`
abbrev pub is_failure : Option Error → Bool
is_failure none = false
is_failure (some e) = not (is_error e err_record_not_found)

-- the switch of Trace from its second case on
abbrev pub trace_slow : SlogLogger → Query → List QueryLine
trace_slow l q =
    if ltb l.slow_query q.elapsed && leb level_warn l.level
    then slow_query_line q ∷ []
    else if leb level_info l.level
    then debug_query q ∷ []
    else []

-- the switch of Trace
abbrev pub trace_case : SlogLogger → Query → Option Error → List QueryLine
trace_case l q none = trace_slow l q
trace_case l q (some e) =
    if leb level_error l.level && not (is_error e err_record_not_found)
    then failed_query q e ∷ []
    else trace_slow l q

-- Trace
unfoldable pub trace : SlogLogger → Query → Option Error → List QueryLine
trace l q err = if leb l.level level_silent then [] else trace_case l q err
