-- ===== src/Apperr/Matching.antt =====
-- What derived errors keep, and which errors errors.Is matches.
use go_clean_arch_template.Prelude.{
  ℕ, String, ◌≡◌, refl, ap, ◌∙◌, Bool-cases, Bool, ◌||◌, true, false, [], ◌∷◌, ◌==◌, eq_iff, arith,
  inl, inr, ◌↔◌,
}
use go_clean_arch_template.Apperr.{
  AppError, app_error, Cause, no_cause, caused_by, Error, app, wrapped, sentinel, grpc_status,
  other, Metadata, code, http_status, grpc_code, metadata_copy, clone, with_cause, with_message,
  with_metadata, app_is, is_error, is_app, is_cause,
}

pub metadata_copy_lem : (m : Metadata) → metadata_copy m ≡ m
unfolding metadata_copy
metadata_copy_lem [] = refl
metadata_copy_lem ((k, v) ∷ m) = ap (λ r. (k, v) ∷ r) (metadata_copy_lem m)

-- A clone is equal to what it copies.
pub clone_lem : (ae : AppError) → clone ae ≡ ae
unfolding clone
clone_lem (app_error c m h g e d) = ap (λ r. app_error c m h g e r) (metadata_copy_lem d)

-- `Derived ae d`: `d` comes from `ae` by any calls of Cause, WithMessage and WithMetadata.
pub data Derived (ae : AppError) : AppError → Type 0 where
  itself : Derived ae ae
  by_cause : {d : AppError} → Derived ae d → (err : Error) → Derived ae (with_cause d err)
  by_message : {d : AppError} → Derived ae d → (msg : String) → Derived ae (with_message d msg)
  by_metadata : {d : AppError} → Derived ae d → (k v : String) → Derived ae (with_metadata d k v)

-- What a derived error shares with the error that it comes from.
pub record SameFace (ae d : AppError) : Type 0 where
  pub same_code : code d ≡ code ae
  pub same_http : http_status d ≡ http_status ae
  pub same_grpc : grpc_code d ≡ grpc_code ae

with_cause-SameFace : (d : AppError) (err : Error) → SameFace d (with_cause d err)
unfolding with_cause
with_cause-SameFace (app_error c m h g e x) err = record {
  same_code = refl;
  same_http = refl;
  same_grpc = refl;
}

with_message-SameFace : (d : AppError) (msg : String) → SameFace d (with_message d msg)
unfolding with_message
with_message-SameFace (app_error c m h g e x) msg = record {
  same_code = refl;
  same_http = refl;
  same_grpc = refl;
}

with_metadata-SameFace : (d : AppError) (k v : String) → SameFace d (with_metadata d k v)
unfolding with_metadata
with_metadata-SameFace (app_error c m h g e x) k v = record {
  same_code = refl;
  same_http = refl;
  same_grpc = refl;
}

SameFace-trans : {a b c : AppError} → SameFace a b → SameFace b c → SameFace a c
SameFace-trans p q = record {
  same_code = q.same_code ∙ p.same_code;
  same_http = q.same_http ∙ p.same_http;
  same_grpc = q.same_grpc ∙ p.same_grpc;
}

pub Derived-SameFace : {ae d : AppError} → Derived ae d → SameFace ae d
Derived-SameFace itself = record { same_code = refl; same_http = refl; same_grpc = refl }
Derived-SameFace (by_cause {d = d} h err) =
    SameFace-trans (Derived-SameFace h) (with_cause-SameFace d err)
Derived-SameFace (by_message {d = d} h msg) =
    SameFace-trans (Derived-SameFace h) (with_message-SameFace d msg)
Derived-SameFace (by_metadata {d = d} h k v) =
    SameFace-trans (Derived-SameFace h) (with_metadata-SameFace d k v)

pub is_error_of_code-eq : (d ae : AppError) → code d ≡ code ae → is_error (app d) (app ae) ≡ true
unfolding is_error app_is
is_error_of_code-eq (app_error c m h g e x) ae p = ground (arith, eq_iff (code ae) c)

-- An error that comes from `ae` by any calls of Cause, WithMessage and WithMetadata, in any order,
-- keeps its code, HTTP status and gRPC code, and errors.Is matches it with `ae`.
pub is_error-Derived :
    (ae d : AppError) → Derived ae d → SameFace ae d × (is_error (app d) (app ae) ≡ true)
is_error-Derived ae d h =
    (Derived-SameFace h, is_error_of_code-eq d ae (Derived-SameFace h).same_code)

-- Some AppError of the chain has the code `c`.
pub data HasCode (c : String) : Error → Type 0 where
  here : (ae : AppError) → code ae ≡ c → HasCode c (app ae)
  below :
      {c' m : String} {h g : ℕ} {err : Error} {x : Metadata}
      → HasCode c err
      → HasCode c (app (app_error c' m h g (caused_by err) x))
  under : {text : String} {err : Error} → HasCode c err → HasCode c (wrapped text err)

right_of_or : (a b : Bool) → (a || b) ≡ true → a ≡ false → b ≡ true
right_of_or a b h n = ground arith

module _ (t : AppError) where
  is_error_of_HasCode : {err : Error} → HasCode (code t) err → is_error err (app t) ≡ true
  unfolding is_error
  is_error_of_HasCode (here ae p) = is_error_of_code-eq ae t p
  is_error_of_HasCode (below h) = ground (arith, is_error_of_HasCode h)
  is_error_of_HasCode (under h) = is_error_of_HasCode h

  is_cause_of_is_app :
      (c m : String) (i g : ℕ) (e : Cause) (x : Metadata)
      → is_app (app_error c m i g e x) (app t) ≡ true
      → (c == code t) ≡ false
      → is_cause e (app t) ≡ true
  unfolding is_app app_is
  is_cause_of_is_app c m i g e x h n = right_of_or (c == code t) (is_cause e (app t)) h n

  mutual
    unfolding is_error is_cause

    HasCode-of_is_error : (err : Error) → is_error err (app t) ≡ true → HasCode (code t) err
    HasCode-of_is_error (app ae) h = HasCode-of_is_app ae h
    HasCode-of_is_error (wrapped text err) h = under (HasCode-of_is_error err h)
    HasCode-of_is_error (sentinel name) h = cc
    HasCode-of_is_error (grpc_status c m) h = cc
    HasCode-of_is_error (other kind text) h = cc

    HasCode-of_is_app : (ae : AppError) → is_app ae (app t) ≡ true → HasCode (code t) (app ae)
    HasCode-of_is_app (app_error c m i g e x) h = elim (Bool-cases (c == code t)) [
      | inl p ↦ here _ ((eq_iff _ _).0 p)
      | inr n ↦ HasCode-of_is_cause c m i g e x (is_cause_of_is_app c m i g e x h n)
    ]

    HasCode-of_is_cause :
        (c m : String) (i g : ℕ) (e : Cause) (x : Metadata)
        → is_cause e (app t) ≡ true
        → HasCode (code t) (app (app_error c m i g e x))
    HasCode-of_is_cause c m i g no_cause x h = cc
    HasCode-of_is_cause c m i g (caused_by err) x h = below (HasCode-of_is_error err h)

-- errors.Is of an error and a catalog entry holds exactly if some AppError of the error's chain of
-- causes and wrappers has the entry's code.
pub is_error_iff :
    (err : Error) (t : AppError) → (is_error err (app t) ≡ true) ↔ HasCode (code t) err
is_error_iff err t = (HasCode-of_is_error t err, is_error_of_HasCode t)
