-- ===== src/Tests/Requests.antt =====
-- The theorems about the HTTP adapter, at a request against the small world.
use go_clean_arch_template.Prelude.{ℕ, String, Bool, true, false, Option, none, some, ◌≡◌, refl}
use go_clean_arch_template.Prelude.Int.{pos}
use go_clean_arch_template.Prelude.Decimal.{decimal}
use go_clean_arch_template.Ports.{AccountUseCase}
use go_clean_arch_template.Apperr.{Error, other}
use go_clean_arch_template.Effect.{ok, err}
use go_clean_arch_template.Http.{
  Gin, Library, Body, CreateAccountRequest, respond, get_account, patch_account,
}
use go_clean_arch_template.Http.Contract.{Reply, IsGin, IsFresh, render, answer}
use go_clean_arch_template.Http.Replies.{respond-answer}
use go_clean_arch_template.Http.Secrets.{hiding, respond-hiding}
use go_clean_arch_template.Usecase.Inbound.{new_account_use_case}
use go_clean_arch_template.Tests.World.{World, jane_world}
use go_clean_arch_template.Tests.Wiring.{service}

pub record Context : Type 0 where
  pub id : String
  pub errors : Option Error
  pub status : ℕ
  pub body : Option Body

abbrev joe_body : CreateAccountRequest
joe_body = record {
  email = "joe@example.com";
  password = "s3cretpw";
  first_name = "Joe";
  last_name = "Doe";
  status = pos 0;
}

abbrev is_some : Option Body → Bool
is_some none = false
is_some (some b) = true

abbrev plain_gin : Gin Context
plain_gin = record {
  bind_create = λ c. ok joe_body;
  bind_update = λ c. err (other "json" "EOF");
  param = λ name c. c.id;
  query = λ name c. "";
  error = λ e c. record c { errors = some e };
  json = λ n b c. record c { status = n; body = some b };
  status = λ n c. record c { status = n };
  last_error = λ c. c.errors;
  written = λ c. is_some c.body;
}

abbrev pub reply_of : Context → Reply
reply_of c = (c.status, c.body)

abbrev pub fresh_request : Context
fresh_request = record { id = "a1"; errors = none; status = 200; body = none }

abbrev uc : AccountUseCase World
uc = new_account_use_case service 9 "b2"

abbrev pub library : Library Context
library = record { gin = plain_gin; format_time = λ z t. decimal t; atoi_error = other "num" }

pub plain_gin-IsGin : IsGin plain_gin reply_of
plain_gin-IsGin = record {
  last_error-error = λ e c. refl;
  written-error = λ e c. refl;
  last_error-json = λ n b c. refl;
  reply-json = λ n b c h. refl;
  last_error-status = λ n c. refl;
  reply-status = λ n c h. unwritten n c.body h;
}
  where
    unwritten : (n : ℕ) (b : Option Body) → is_some b ≡ false → ◌≡◌ {A = Reply} (n, b) (n, none)
    unwritten n none h = refl
    unwritten n (some b) h = cc

pub fresh_request-IsFresh : IsFresh plain_gin fresh_request
fresh_request-IsFresh = record { no_error = refl; not_written = refl }

respond-answer_example :
    (reply_of (respond library uc get_account fresh_request jane_world).0
      ≡ render (answer library uc get_account fresh_request jane_world).0)
    × ((respond library uc get_account fresh_request jane_world).1
        ≡ (answer library uc get_account fresh_request jane_world).1)
respond-answer_example =
    respond-answer library reply_of plain_gin-IsGin fresh_request fresh_request-IsFresh uc
      get_account jane_world

respond-hiding_example :
    reply_of (respond library (hiding uc) get_account fresh_request jane_world).0
    ≡ reply_of (respond library uc get_account fresh_request jane_world).0
respond-hiding_example =
    respond-hiding library reply_of plain_gin-IsGin fresh_request fresh_request-IsFresh uc
      get_account jane_world

status_test : (reply_of (respond library uc patch_account fresh_request jane_world).0).0 ≡ 400
unfolding respond
status_test = refl
