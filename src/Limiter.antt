-- ===== src/Limiter.antt =====
-- internal/adapter/limiter/limiter.go: the rate limiter over Redis. redis_rate is a parameter, as
-- its Allow and PerMinute; strconv.Quote, for the error text, is an argument.
pub mod Policy
use go_clean_arch_template.Prelude.{
  ℕ, String, Option, none, some, List, [], ◌∷◌, ◌==◌, if◌then◌else◌,
}
use go_clean_arch_template.Prelude.Text.{◌^^◌}
use go_clean_arch_template.Prelude.Int.{ℤ, pos, is_positive}
use go_clean_arch_template.Apperr.{wrapped}
use go_clean_arch_template.Effect.{Result, ok, err, M, pure, map_err, ◌>>=◌}
use go_clean_arch_template.Domain.{
  RateLimitConfig, rate_limit_defaults, LimitRequest, LimitResponse,
}
use go_clean_arch_template.Ports.{RateLimiter}

-- redis_rate.Limit
pub record Limit : Type 0 where
  pub rate : ℤ
  pub burst : ℤ
  pub period : ℤ

-- redis_rate.Result
pub record Verdict : Type 0 where
  pub allowed : ℤ
  pub remaining : ℤ
  pub retry_after : ℤ

-- *redis_rate.Limiter and redis_rate.PerMinute
pub record RedisRate (S : Type 0) : Type 0 where
  pub allow : (key : String) → Limit → M S Verdict
  pub per_minute : ℤ → Limit

-- defaultRate
abbrev pub default_rate : ℤ
default_rate = pos 60

-- `redis_rate.Limit{...}` in NewRedisLimiter
abbrev pub to_limit : RateLimitConfig → Limit
to_limit cfg = record { rate = cfg.rate; burst = cfg.burst; period = cfg.period }

unfoldable pub to_limits : List (String × RateLimitConfig) → List (String × Limit)
to_limits [] = []
to_limits ((action, cfg) ∷ rest) = (action, to_limit cfg) ∷ to_limits rest

-- l.limits[action]
unfoldable pub limit_of : String → List (String × Limit) → Option Limit
limit_of action [] = none
limit_of action ((a, limit) ∷ rest) = if a == action then some limit else limit_of action rest

-- Limiter
pub record Limiter (S : Type 0) : Type 0 where
  pub rl : RedisRate S
  pub limits : List (String × Limit)

-- NewRedisLimiter
abbrev pub new_redis_limiter : {S : Type 0} → RedisRate S → Limiter S
new_redis_limiter rl = record { rl = rl; limits = to_limits rate_limit_defaults }

-- the key of one unit of an action
unfoldable pub limit_key : LimitRequest → String
limit_key req = req.action ^^ ":" ^^ req.key

module _ {S : Type 0} (l : Limiter S) where
  abbrev pub limit_or_default : Option Limit → Limit
  limit_or_default none = l.rl.per_minute default_rate
  limit_or_default (some limit) = limit

  -- Limit
  unfoldable pub limit : (quote : String → String) → LimitRequest → M S LimitResponse
  unfolding limit_key limit_of
  limit quote req = do
    res ←
        map_err (wrapped ("limiter: allow " ^^ quote (limit_key req)))
          (l.rl.allow (limit_key req) (limit_or_default (limit_of req.action l.limits)))
    pure (record {
      allowed = is_positive res.allowed;
      remaining = res.remaining;
      retry_after = res.retry_after;
    })

  abbrev pub redis_limiter : (quote : String → String) → RateLimiter S
  redis_limiter quote = record { limit = limit quote }
