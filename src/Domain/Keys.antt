-- ===== src/Domain/Keys.antt =====
-- The cache keys of an account.
use go_clean_arch_template.Prelude.{String, ◌≡◌, ◌≢◌, arith}
use go_clean_arch_template.Prelude.Text.{to_lower, append-ne_of_heads, append-ne_of_prefix}
use go_clean_arch_template.Domain.{account_cache_key_by_id, account_cache_key_by_email}
use text.Mathlib.TextLemmas.{append_cancel_left}

pub account_cache_key_by_id-injective :
    (a b : String) → account_cache_key_by_id a ≡ account_cache_key_by_id b → a ≡ b
unfolding account_cache_key_by_id
account_cache_key_by_id-injective a b h = append_cancel_left "account:id:" a b h

pub account_cache_key_by_id-ne-email :
    (id email : String) → account_cache_key_by_id id ≢ account_cache_key_by_email email
unfolding account_cache_key_by_id account_cache_key_by_email
account_cache_key_by_id-ne-email id email =
    append-ne_of_prefix "account:" "id:" "email:" id (to_lower email)
      (append-ne_of_heads _ _ "d:" "mail:" id (to_lower email) (omega arith))
