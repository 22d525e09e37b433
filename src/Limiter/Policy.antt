-- ===== src/Limiter/Policy.antt =====
-- Create's rate limit, by the email that it is asked for.
use text.Mathlib.TextLemmas.{append_cancel_left}
use go_clean_arch_template.Prelude.{String, ◌≡◌, ◌≢◌, refl, ap, ◌∙◌}
use go_clean_arch_template.Prelude.Text.{to_lower}
use go_clean_arch_template.Prelude.Int.{pos}
use go_clean_arch_template.Apperr.{Error}
use go_clean_arch_template.Effect.{Result, ok, err, map_result, continue, pure}
use go_clean_arch_template.Domain.{CreateAccountRequest, LimitResponse}
use go_clean_arch_template.Usecase.{limit_request}
use go_clean_arch_template.Limiter.{
  Limit, RedisRate, Verdict, new_redis_limiter, limit, limit_key, to_limits, limit_of,
}

-- the policy of create_account: 5 in a minute, 5 at once
abbrev pub create_policy : Limit
create_policy = record { rate = pos 5; burst = pos 5; period = pos 60000000000 }

-- What redis_rate promises: a call for a key counts against that key only.
pub record IsRedisRate {S B : Type 0} (rl : RedisRate S) (bucket : S → String → B) : Type 0 where
  pub allow_other :
      (key : String) (p : Limit) (s : S) (other : String)
      → key ≢ other
      → bucket (rl.allow key p s).1 other ≡ bucket s other

limit_key-injective :
    (a b : CreateAccountRequest)
    → limit_key (limit_request a) ≡ limit_key (limit_request b)
    → to_lower a.email ≡ to_lower b.email
unfolding limit_key limit_request
limit_key-injective a b h = append_cancel_left "create_account:" _ _ h

module _ {S B : Type 0} (rl : RedisRate S) (bucket : S → String → B)
    (isRedisRate : IsRedisRate rl bucket) (quote : String → String) where
  state_of :
      (f : Error → Error) (g : Verdict → LimitResponse) (r : Result Verdict) (s : S)
      → (continue (map_result f r) (λ v. pure (g v)) s).1 ≡ s
  state_of f g (ok v) s = refl
  state_of f g (err e) s = refl

  -- A Create is limited by the policy of 5 a minute with a burst of 5, and counts against its own
  -- email only: it makes one call of redis_rate with that policy, and leaves the count of every
  -- email whose text in lower case differs from that of its own.
  pub limit-other_email :
      (a b : CreateAccountRequest) (s : S)
      → to_lower a.email ≢ to_lower b.email
      → ((limit (new_redis_limiter rl) quote (limit_request a) s).1
          ≡ (rl.allow (limit_key (limit_request a)) create_policy s).1)
        × (bucket
              (limit (new_redis_limiter rl) quote (limit_request a) s).1
              (limit_key (limit_request b))
            ≡ bucket s (limit_key (limit_request b)))
  unfolding limit limit_of to_limits limit_request
  limit-other_email a b s differ =
      let p = rl.allow (limit_key (limit_request a)) create_policy s in
      let same = state_of _ _ p.0 p.1 in
      (
        same,
        ap (λ t. bucket t (limit_key (limit_request b))) same
            ∙ isRedisRate.allow_other _ create_policy s _ (λ h. differ (limit_key-injective a b h)),
      )
