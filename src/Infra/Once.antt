-- ===== src/Infra/Once.antt =====
-- GetConfig reads the environment once.
use go_clean_arch_template.Prelude.{ℕ, zero, suc, true, none, some, ◌≡◌, refl, ◌∙◌, ap}
use go_clean_arch_template.Apperr.{wrapped}
use go_clean_arch_template.Effect.{Result, ok, err, M, map_result}
use go_clean_arch_template.Infra.Config.{
  Config, Vars, Got, returned, panicked, load, init, get_config, unread,
}

module _ {W Ratio : Type 0} (parse : M W (Config Ratio)) where
  -- The first call, by what env.Parse did, and each later one.
  abbrev pub first : Result (Config Ratio) → Got parse
  first (ok c) = returned (some c)
  first (err e) = panicked (wrapped "parse config" e)

  abbrev pub later : Result (Config Ratio) → Got parse
  later (ok c) = returned (some c)
  later (err e) = returned none

  -- the state after `n` calls
  unfoldable pub after_calls : ℕ → Vars parse → Vars parse
  unfolding get_config
  after_calls zero v = v
  after_calls (suc n) v = after_calls n (get_config parse v).1

  init-first :
      (r : Result (Config Ratio)) (w : W)
      → (init parse (map_result (wrapped "parse config") r, w) none).0 ≡ first r
  init-first (ok c) w = refl
  init-first (err e) w = refl

  -- done, with what is cached
  record IsDone (r : Result (Config Ratio)) (w : W) (v : Vars parse) : Type 0 where
    once : v.once ≡ true
    cached : returned v.cached ≡ later r
    world : v.world ≡ w

  init-IsDone :
      (r : Result (Config Ratio)) (w : W)
      → IsDone r w (init parse (map_result (wrapped "parse config") r, w) none).1
  init-IsDone (ok c) w = record { once = refl; cached = refl; world = refl }
  init-IsDone (err e) w = record { once = refl; cached = refl; world = refl }

  get_config-again : (v : Vars parse) → v.once ≡ true → get_config parse v ≡ (returned v.cached, v)
  unfolding get_config
  get_config-again v h = rw h refl

  after_calls-again : (n : ℕ) (v : Vars parse) → v.once ≡ true → after_calls n v ≡ v
  unfolding after_calls
  after_calls-again zero v h = refl
  after_calls-again (suc n) v h =
      ap (after_calls n) (ap (λ x. x.1) (get_config-again v h)) ∙ after_calls-again n v h

  -- GetConfig calls env.Parse the first time only: that call returns the configuration, or panics
  -- with the wrapped error; and after it and any number of further calls, a call returns that same
  -- configuration, or nil if the first panicked, and the world is as the first call left it.
  pub get_config-once :
      (w : W) (n : ℕ)
      → let v = unread parse w in
        let (r, w') = parse w in
        ((get_config parse v).0 ≡ first r)
        × (((get_config parse (after_calls (suc n) v)).0 ≡ later r)
            × ((get_config parse (after_calls (suc n) v)).1.world ≡ w'))
  unfolding get_config load after_calls
  get_config-once w n =
      let r = (parse w).0 in
      let v = (get_config parse (unread parse w)).1 in
      let done = init-IsDone r (parse w).1 in
      let settled = after_calls-again n v done.once in
      let again = get_config-again v done.once in
      (
        init-first r (parse w).1,
        (
          ap (λ x. (get_config parse x).0) settled ∙ ap (λ x. x.0) again ∙ done.cached,
          ap (λ x. (get_config parse x).1.world) settled ∙ ap (λ x. x.1.world) again ∙ done.world,
        ),
      )
