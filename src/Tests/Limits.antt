-- ===== src/Tests/Limits.antt =====
-- The theorem about the rate limiter, over counters.
use go_clean_arch_template.Prelude.{
  ℕ, suc, String, Bool, true, false, ◌≡◌, ◌≢◌, refl, ◌==◌, eq_iff, false≢true,
}
use go_clean_arch_template.Prelude.Int.{pos}
use go_clean_arch_template.Prelude.Text.{to_lower}
use go_clean_arch_template.Effect.{ok}
use go_clean_arch_template.Domain.{CreateAccountRequest}
use go_clean_arch_template.Usecase.{limit_request}
use go_clean_arch_template.Limiter.{RedisRate, new_redis_limiter, limit, limit_key}
use go_clean_arch_template.Limiter.Policy.{create_policy, IsRedisRate, limit-other_email}
use go_clean_arch_template.Tests.World.{jane}

abbrev Counts : Type 0
Counts = String → ℕ

abbrev count_at : Bool → ℕ → ℕ
count_at true n = suc n
count_at false n = n

abbrev counting : RedisRate Counts
counting = record {
  allow = λ key p s. (
    ok (record { allowed = pos 1; remaining = pos 4; retry_after = pos 0 }),
    λ k. count_at (key == k) (s k),
  );
  per_minute = λ n. record { rate = n; burst = n; period = pos 60000000000 };
}

not_counted : (b : Bool) (n : ℕ) → b ≢ true → count_at b n ≡ n
not_counted true n h = elim (h refl) [ ]
not_counted false n h = refl

counting-IsRedisRate : IsRedisRate counting (λ s. s)
counting-IsRedisRate = record {
  allow_other = λ key p s k h. not_counted (key == k) (s k) (λ e. h ((eq_iff key k).0 e));
}

abbrev joe : CreateAccountRequest
joe = record jane { email = "joe@example.com" }

abbrev nothing : Counts
nothing k = 0

abbrev plain : String → String
plain t = t

emails_differ : to_lower jane.email ≢ to_lower joe.email
unfolding to_lower
emails_differ h = false≢true ((eq_iff "jane@example.com" "joe@example.com").1 h)

limit-other_email_example :
    ((limit (new_redis_limiter counting) plain (limit_request jane) nothing).1
      ≡ (counting.allow (limit_key (limit_request jane)) create_policy nothing).1)
    × ((limit (new_redis_limiter counting) plain (limit_request jane) nothing).1
          (limit_key (limit_request joe))
        ≡ 0)
limit-other_email_example =
    limit-other_email counting (λ s. s) counting-IsRedisRate plain jane joe nothing emails_differ
