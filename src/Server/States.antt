-- ===== src/Server/States.antt =====
-- What a request of either transport does to the state: nothing, or one call of the use case.
use go_clean_arch_template.Prelude.{ℕ, String}
use go_clean_arch_template.Prelude.Int.{pos}
use go_clean_arch_template.Effect.{Result, ok, err, M, continue, pure, map_result}
use go_clean_arch_template.Http.{
  Library, Route, post_accounts, get_account, get_accounts, patch_account, delete_account,
  invalid_body, create_to_domain, update_to_domain, status_filter,
}
use go_clean_arch_template.Http.Atoi.{atoi_default}
use go_clean_arch_template.Http.Contract.{Reply, answer}
use go_clean_arch_template.Usecase.{
  AccountUseCase, Command, create_with, get_with, list_with, update_with, delete_with, after,
}
use go_clean_arch_template.Usecase.Inbound.{new_account_use_case}
use go_clean_arch_template.Grpc
use go_clean_arch_template.Grpc.{status_given}

module _ {S : Type 0} (P : S → Type 0) where
  returned_state :
      {A : Type 0} (f : A → Reply) (r : Result A) (s : S)
      → P s
      → P (continue r (λ a. pure (f a)) s).1
  returned_state f (ok a) s h = h
  returned_state f (err e) s h = h

  read_state :
      {A : Type 0} (k : A → M S Reply) (r : Result A) (s : S)
      → P s
      → ((a : A) → P (k a s).1)
      → P (continue r k s).1
  read_state k (ok a) s h each = each a
  read_state k (err e) s h each = h

module _ {C S : Type 0} (lib : Library C) (uc : AccountUseCase S) (P : S → Type 0)
    (step : (c : Command) (s : S) → P s → P (after uc c s)) where
  pub answer_state :
      (now : ℕ) (uuid : String) (route : Route) (c : C) (s : S)
      → P s
      → P (answer lib (new_account_use_case uc now uuid) route c s).1
  unfolding answer after
  answer_state now uuid post_accounts c s h =
      read_state P _ (map_result invalid_body (lib.gin.bind_create c)) s h
        (λ req. returned_state P _ _ _ (step (create_with now uuid (create_to_domain req)) s h))
  answer_state now uuid get_account c s h =
      returned_state P _ _ _ (step (get_with (lib.gin.param "id" c)) s h)
  answer_state now uuid get_accounts c s h =
      read_state P _ (status_filter lib.atoi_error (lib.gin.query "status" c)) s h (λ status.
        returned_state P _ _ _ (
          step
            (list_with (record {
              status = status;
              limit = atoi_default (lib.gin.query "limit" c) (pos 0);
              offset = atoi_default (lib.gin.query "offset" c) (pos 0);
            }))
            s h))
  answer_state now uuid patch_account c s h =
      read_state P _ (map_result invalid_body (lib.gin.bind_update c)) s h (λ req.
        returned_state P _ _ _
          (step (update_with now (update_to_domain (lib.gin.param "id" c) req)) s h))
  answer_state now uuid delete_account c s h =
      returned_state P _ _ _ (step (delete_with (lib.gin.param "id" c)) s h)

module _ {S : Type 0} (lib : Grpc.Library) (uc : AccountUseCase S) (P : S → Type 0)
    (step : (c : Command) (s : S) → P s → P (after uc c s)) where
  called_state :
      {A : Type 0} (f : A → Grpc.Response) (r : Result A) (s : S)
      → P s
      → P (continue r (λ a. pure (f a)) s).1
  called_state f (ok a) s h = h
  called_state f (err e) s h = h

  handle_state :
      (now : ℕ) (uuid : String) (call : Grpc.Call) (s : S)
      → P s
      → P (Grpc.handle (new_account_use_case uc now uuid) call s).1
  unfolding Grpc.handle Grpc.create_account Grpc.get_account Grpc.list_accounts Grpc.update_account
      Grpc.delete_account after
  handle_state now uuid (Grpc.create_call req) s h = called_state _ _ _ (
      step
        (create_with now uuid (record {
          email = req.email;
          password = req.password;
          first_name = req.first_name;
          last_name = req.last_name;
          status = pos 0;
        }))
        s h)
  handle_state now uuid (Grpc.get_call id) s h = called_state _ _ _ (step (get_with id) s h)
  handle_state now uuid (Grpc.list_call req) s h = called_state _ _ _ (
      step
        (list_with
          (record { status = status_given req.status; limit = req.limit; offset = req.offset }))
        s h)
  handle_state now uuid (Grpc.update_call req) s h = called_state _ _ _ (
      step
        (update_with now (record {
          id = req.id;
          first_name = req.first_name;
          last_name = req.last_name;
          status = status_given req.status;
        }))
        s h)
  handle_state now uuid (Grpc.delete_call id) s h = called_state _ _ _ (step (delete_with id) s h)

  validated_state :
      (r : Result (Unit {0})) (m : M S Grpc.Response) (s : S)
      → P s
      → P (m s).1
      → P (Grpc.validated lib r m s).1
  validated_state (ok u) m s h after_call = after_call
  validated_state (err e) m s h after_call = h

  pub rpc_state :
      (now : ℕ) (uuid : String) (call : Grpc.Call) (s : S)
      → P s
      → P (Grpc.serve lib (new_account_use_case uc now uuid) call s).1
  unfolding Grpc.serve Grpc.error_interceptor Grpc.validation_interceptor
  rpc_state now uuid call s h =
      validated_state (lib.validate call) (Grpc.handle (new_account_use_case uc now uuid) call) s h
        (handle_state now uuid call s h)
