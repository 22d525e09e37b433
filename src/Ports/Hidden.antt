-- ===== src/Ports/Hidden.antt =====
-- What a transport may show: an account without its password hash, an AppError without its cause.
use go_clean_arch_template.Prelude.{List, map}
use go_clean_arch_template.Apperr.{AppError, app_error, no_cause}
use go_clean_arch_template.Domain.{Account}

abbrev pub hide_account : Account → Account
hide_account a = record a { password_hash = "" }

abbrev pub hide_accounts : List Account → List Account
hide_accounts = map hide_account

abbrev pub without_cause : AppError → AppError
without_cause (app_error c m h g e d) = app_error c m h g no_cause d
