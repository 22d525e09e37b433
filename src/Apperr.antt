-- ===== src/Apperr.antt =====
-- internal/infra/apperr: application errors, the `error` values that wrap them, and the catalog.
-- An `Error` is a non-nil Go error. Besides *AppError it is what the program meets of other
-- packages: a text wrapped by fmt.Errorf("…: %w"), a sentinel that a package compares by identity,
-- a gRPC status, and any other value with its kind and its text.
pub mod Matching
pub mod Catalog
use go_clean_arch_template.Prelude.{
  ℕ, String, Bool, true, false, ◌||◌, Option, none, some, List, [], ◌∷◌, ◌==◌, if◌then◌else◌,
  nat_eq, ◌&&◌,
}
use go_clean_arch_template.Prelude.Text.{◌^^◌}

-- map[string]string; nil is the empty map
abbrev pub Metadata : Type 0
Metadata = List (String × String)

mutual
  pub data AppError : Type 0 where
    app_error :
        (code message : String) (http_status grpc_code : ℕ) (cause : Cause) (meta : Metadata)
        → AppError

  pub data Cause : Type 0 where
    no_cause : Cause
    caused_by : Error → Cause

  pub data Error : Type 0 where
    app : AppError → Error
    wrapped : (text : String) → Error → Error
    sentinel : (name : String) → Error
    grpc_status : (code : ℕ) (message : String) → Error
    other : (kind text : String) → Error

-- New
abbrev pub new : String → String → ℕ → ℕ → AppError
new code message http_status grpc_code = app_error code message http_status grpc_code no_cause []

-- Code
abbrev pub code : AppError → String
code (app_error c m h g e d) = c

-- Message
abbrev pub message : AppError → String
message (app_error c m h g e d) = m

-- HTTPStatus
abbrev pub http_status : AppError → ℕ
http_status (app_error c m h g e d) = h

-- GRPCCode
abbrev pub grpc_code : AppError → ℕ
grpc_code (app_error c m h g e d) = g

-- Unwrap
abbrev pub unwrap : AppError → Cause
unwrap (app_error c m h g e d) = e

-- m[key] = value
unfoldable pub set_key : String → String → Metadata → Metadata
set_key key value [] = (key, value) ∷ []
set_key key value ((k, v) ∷ rest) =
    if k == key then (key, value) ∷ rest else (k, v) ∷ set_key key value rest

-- Metadata: a copy, entry by entry
unfoldable pub metadata_copy : Metadata → Metadata
metadata_copy [] = []
metadata_copy ((k, v) ∷ rest) = (k, v) ∷ metadata_copy rest

unfoldable pub metadata : AppError → Metadata
unfolding metadata_copy
metadata (app_error c m h g e d) = metadata_copy d

unfoldable pub clone : AppError → AppError
unfolding metadata
clone (app_error c m h g e d) = app_error c m h g e (metadata_copy d)

abbrev set_cause : Error → AppError → AppError
set_cause err (app_error c m h g e d) = app_error c m h g (caused_by err) d

abbrev set_message : String → AppError → AppError
set_message msg (app_error c m h g e d) = app_error c msg h g e d

abbrev set_metadata : String → String → AppError → AppError
set_metadata key value (app_error c m h g e d) = app_error c m h g e (set_key key value d)

-- Cause
unfoldable pub with_cause : AppError → Error → AppError
unfolding clone
with_cause ae err = set_cause err (clone ae)

-- WithMessage
unfoldable pub with_message : AppError → String → AppError
unfolding clone
with_message ae msg = set_message msg (clone ae)

-- WithMetadata
unfoldable pub with_metadata : AppError → String → String → AppError
unfolding clone set_key
with_metadata ae key value = set_metadata key value (clone ae)

-- errors.As(err, &ae): the first *AppError of the chain
unfoldable pub as_app : Error → Option AppError
as_app (app ae) = some ae
as_app (wrapped text err) = as_app err
as_app (sentinel name) = none
as_app (grpc_status c m) = none
as_app (other kind text) = none

same_code : Option AppError → AppError → Bool
same_code none ae = false
same_code (some t) ae = code ae == code t

-- Is: by code, whatever the pointers
unfoldable pub app_is : AppError → Error → Bool
unfolding same_code as_app
app_is ae target = same_code (as_app target) ae

-- `err == target`, or the Is method of a gRPC status. Two values of the other kinds are never one.
abbrev same_value : Error → Error → Bool
same_value (sentinel n) (sentinel m) = n == m
same_value (grpc_status c m) (grpc_status d n) = nat_eq c d && (m == n)
same_value _ _ = false

-- errors.Is(err, target)
unfoldable mutual
  unfolding app_is

  pub is_error : Error → Error → Bool
  is_error (app ae) target = is_app ae target
  is_error (wrapped text err) target = is_error err target
  is_error (sentinel n) target = same_value (sentinel n) target
  is_error (grpc_status c m) target = same_value (grpc_status c m) target
  is_error (other kind text) target = false

  pub is_app : AppError → Error → Bool
  is_app (app_error c m h g e d) target = app_is (app_error c m h g e d) target || is_cause e target

  pub is_cause : Cause → Error → Bool
  is_cause no_cause target = false
  is_cause (caused_by err) target = is_error err target

-- Error()
unfoldable mutual
  pub error_text : Error → String
  error_text (app ae) = app_text ae
  error_text (wrapped text err) = text ^^ ": " ^^ error_text err
  error_text (sentinel name) = name
  error_text (grpc_status c m) = m
  error_text (other kind text) = text

  pub app_text : AppError → String
  app_text (app_error c m h g e d) = c ^^ ": " ^^ m ^^ cause_text e

  pub cause_text : Cause → String
  cause_text no_cause = ""
  cause_text (caused_by err) = ": " ^^ error_text err
