-- ===== src/Grpc/Errors.antt =====
-- What a gRPC client does not see.
use go_clean_arch_template.Prelude.{
  false, Option, none, some, List, [], ◌∷◌, ◌≡◌, refl, ap, if◌then◌else◌, Bool-cases, inl, inr,
}
use go_clean_arch_template.Prelude.Int.{to_int32}
use go_clean_arch_template.Apperr.{AppError, Error, app, app_error, other, as_app}
use go_clean_arch_template.Effect.{Result, ok, err, M, continue, pure}
use go_clean_arch_template.Domain.{Account}
use go_clean_arch_template.Ports.{AccountUseCase}
use go_clean_arch_template.Ports.Hidden.{hide_account, hide_accounts, without_cause}
use go_clean_arch_template.Grpc.{
  Library, Call, create_call, get_call, list_call, update_call, delete_call, Response, convert,
  converted, serve, handle, create_account, get_account, list_accounts, update_account,
  delete_account, created, got, listed, updated, deleted, error_interceptor, validation_interceptor,
  to_proto_account, to_proto_accounts, validated,
}

-- an error that says nothing
abbrev pub unknown_error : Error
unknown_error = other "" ""

module _ (lib : Library) where
  abbrev public_part : Option AppError → Error → Error
  public_part (some ae) e = app (without_cause ae)
  public_part none e = if lib.is_status e then e else unknown_error

  abbrev pub hide_error : Error → Error
  hide_error e = public_part (as_app e) e

  abbrev hidden : {A : Type 0} → (A → A) → Result A → Result A
  hidden f (ok a) = ok (f a)
  hidden f (err e) = err (hide_error e)

  abbrev hide_call : {S A : Type 0} → (A → A) → M S A → M S A
  hide_call f m s = (hidden f (m s).0, (m s).1)

  -- the use case, with every password hash, every cause and every unknown error taken out of what
  -- it returns
  abbrev pub hiding : {S : Type 0} → AccountUseCase S → AccountUseCase S
  hiding uc = record {
    create = λ req. hide_call hide_account (uc.create req);
    get = λ id. hide_call hide_account (uc.get id);
    list = λ f. hide_call (λ page. (hide_accounts page.0, page.1)) (uc.list f);
    update = λ req. hide_call hide_account (uc.update req);
    delete = λ id. hide_call (λ u. u) (uc.delete id);
  }

  module _ (plain : lib.is_status unknown_error ≡ false) where
    convert-public_part :
        (e : Error) (o : Option AppError)
        → as_app e ≡ o
        → convert lib (public_part o e) ≡ convert lib e
    unfolding convert
    convert-public_part e (some (app_error c m k g d meta)) h = rw h
    convert-public_part e none h = elim (Bool-cases (lib.is_status e)) [
      | inl is ↦ rw is refl
      | inr isnt ↦ rw (isnt, h, isnt, plain) refl
    ]

    abbrev Shown : {S A : Type 0} → Result A × S → Result A × S
    Shown p = (converted lib p.0, p.1)

    hidden-Shown :
        {S A : Type 0} (f : A → A) (g : A → Response)
        → ((a : A) → g (f a) ≡ g a)
        → (r : Result A) (s : S)
        → ◌≡◌ {A = Result Response × S}
            (Shown (continue (hidden f r) (λ a. pure (g a)) s))
            (Shown (continue r (λ a. pure (g a)) s))
    hidden-Shown f g h (ok a) s = ap (λ x. (ok x, s)) (h a)
    hidden-Shown f g h (err e) s = ap (λ x. (err x, s)) (convert-public_part e (as_app e) refl)

    validated-Shown :
        {S : Type 0} (v : Result (Unit {0})) (m k : M S Response) (s : S)
        → Shown (m s) ≡ Shown (k s)
        → Shown (validated lib v m s) ≡ Shown (validated lib v k s)
    validated-Shown (ok u) m k s h = h
    validated-Shown (err e) m k s h = refl

    to_proto_accounts-hide :
        (page : List Account) → to_proto_accounts (hide_accounts page) ≡ to_proto_accounts page
    unfolding to_proto_accounts to_proto_account
    to_proto_accounts-hide [] = refl
    to_proto_accounts-hide (a ∷ rest) =
        ap (λ l. to_proto_account a ∷ l) (to_proto_accounts-hide rest)

    handle-Shown :
        {S : Type 0} (uc : AccountUseCase S) (req : Call) (s : S)
        → Shown (handle (hiding uc) req s) ≡ Shown (handle uc req s)
    unfolding handle create_account get_account list_accounts update_account delete_account
        to_proto_account
    handle-Shown uc (create_call req) s =
        hidden-Shown hide_account (λ a. created a.id) (λ a. refl) _ _
    handle-Shown uc (get_call id) s =
        hidden-Shown hide_account (λ a. got (to_proto_account a)) (λ a. refl) _ _
    handle-Shown uc (list_call req) s =
        hidden-Shown _
          (λ page. listed (record { accounts = to_proto_accounts page.0; total = to_int32 page.1 }))
          (λ page.
            ap (λ l. listed (record { accounts = l; total = to_int32 page.1 }))
              (to_proto_accounts-hide page.0))
          _ _
    handle-Shown uc (update_call req) s =
        hidden-Shown hide_account (λ a. updated (to_proto_account a)) (λ a. refl) _ _
    handle-Shown uc (delete_call id) s = hidden-Shown (λ u. u) (λ _. deleted) (λ u. refl) _ _

    -- Every RPC, through both interceptors, answers and changes the state exactly as it would if
    -- the use case returned its accounts without password hashes, its AppErrors without causes,
    -- and, in place of any other error that is no gRPC status, one that says nothing. An error
    -- that says nothing must not count as a gRPC status.
    pub serve-hiding :
        {S : Type 0} (uc : AccountUseCase S) (req : Call) (s : S)
        → serve lib (hiding uc) req s ≡ serve lib uc req s
    unfolding serve error_interceptor validation_interceptor
    serve-hiding uc req s =
        validated-Shown (lib.validate req) (handle (hiding uc) req) (handle uc req) s
          (handle-Shown uc req s)
