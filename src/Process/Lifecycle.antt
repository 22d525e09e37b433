-- ===== src/Process/Lifecycle.antt =====
-- Each hook ends on stop what it started, and its failed start leaves nothing launched.
use go_clean_arch_template.Prelude.{
  String, Option, some, List, ◌∷◌, ◌≡◌, refl, sym, ap, ◌∙◌, subst, ◌==◌, Bool-cases, inl, inr, true,
  false,
}
use go_clean_arch_template.Apperr.{Error, wrapped}
use go_clean_arch_template.Effect.{Result, ok, err, continue}
use go_clean_arch_template.Effect.Keeps.{Keeps, map_err-Keeps}
use go_clean_arch_template.Effect.Rules.{map_err_cases, bind_cases}
use go_clean_arch_template.Process.{
  Library, State, TracerConfig, HttpServer, init_tracer, exporter_of, installed, tracing_hook,
  redis_hook, http_hook, grpc_hook, grpc_start, grpc_stop, consumer_hook, job_hook, event_task,
  job_task, call, assign_shutdown, call_shutdown,
}
use go_clean_arch_template.Process.Contract.{Launched, tracer, http, grpc, task, IsLibrary}
use go_clean_arch_template.Process.Brackets.{IsBracket, Outcome, up, down}

-- what holds of what is launched, and of setupTracing's variable
abbrev pub Shape : {W : Type 0} → Library W → Type 1
Shape lib = List (Launched lib) → Option lib.Provider → Type 0

module _ {W : Type 0} {lib : Library W} where
  abbrev pub On : (launched : W → List (Launched lib)) → Shape lib → State lib → Type 0
  On launched P s = P (launched s.world) s.shutdown

  -- nothing but `l` is launched
  abbrev pub Base : List (Launched lib) → Shape lib
  Base l now o = now ≡ l

  abbrev pub Traced : List (Launched lib) → Shape lib
  Traced l now o = (p : lib.Provider) × ((now ≡ tracer p ∷ l) × (o ≡ some p))

  abbrev pub Pushed : Launched lib → Shape lib → Shape lib
  Pushed x P now o = (l : List (Launched lib)) × ((now ≡ x ∷ l) × P l o)

  abbrev pub Bound : Shape lib → Shape lib
  Bound P now o = (lis : lib.Listener) × Pushed (grpc lis) P now o

module _ {W : Type 0} (lib : Library W) (launched : W → List (Launched lib))
    (laws : IsLibrary lib launched) where
  pub redis-IsBracket : (P : Shape lib) → IsBracket (redis_hook lib) (On launched P) (On launched P)
  unfolding redis_hook
  redis-IsBracket P = record {
    starts = λ s before. up before;
    stops = λ s after. subst (λ l. P l s.shutdown) (sym (laws.close_redis_keeps s.world)) after;
  }

  pub http-IsBracket :
      (v : HttpServer) (addr : String) (P : Shape lib)
      → IsBracket (http_hook lib v addr) (On launched P) (On launched (Pushed (http v) P))
  unfolding http_hook
  http-IsBracket v addr P = record {
    starts =
        λ s before. up (launched s.world, (laws.listen_and_serve_launches v addr s.world, before));
    stops = λ s (l, (e, before)).
        subst (λ x. P x s.shutdown) (sym (laws.shutdown_http_ends v s.world l e)) before;
  }

  pub consumer-IsBracket :
      (P : Shape lib)
      → IsBracket (consumer_hook lib) (On launched P) (On launched (Pushed (task event_task) P))
  unfolding consumer_hook
  consumer-IsBracket P = record {
    starts = λ s before. up (launched s.world, (laws.task_launches event_task s.world, before));
    stops = λ s (l, (e, before)).
        subst (λ x. P x s.shutdown)
          (sym (laws.close_consumer_keeps _ ∙ laws.cancel_ends event_task s.world l e)) before;
  }

  pub job-IsBracket :
      (P : Shape lib)
      → IsBracket (job_hook lib) (On launched P) (On launched (Pushed (task job_task) P))
  unfolding job_hook
  job-IsBracket P = record {
    starts = λ s before. up (launched s.world, (laws.task_launches job_task s.world, before));
    stops = λ s (l, (e, before)).
        subst (λ x. P x s.shutdown)
          (sym (laws.cancel_ends job_task _ l (laws.stop_ticker_keeps s.world ∙ e))) before;
  }

  pub grpc-IsBracket :
      (addr : String) (P : Shape lib)
      → IsBracket (grpc_hook lib addr) (On launched P) (On launched (Bound P))
  unfolding grpc_hook grpc_start grpc_stop
  grpc-IsBracket addr P = record {
    starts = λ s before.
        bind_cases (λ x. Outcome (On launched P) (On launched (Bound P)) x.1 x.0) _
          (call lib (lib.listen addr)) s
          (λ lis bound. up (
            lis,
            (
              launched s.world,
              (
                laws.serve_keeps lis _
                    ∙ laws.set_serving_keeps true _
                    ∙ laws.listen_ok addr s.world lis bound,
                before,
              ),
            ),
          ))
          (λ e refused.
            down e
              (subst (λ x. P x s.shutdown) (sym (laws.listen_err addr s.world e refused)) before));
    stops = λ s (lis, (l, (e, before))).
        subst (λ x. P x s.shutdown)
          (sym (laws.graceful_stop_ends lis _ l (laws.set_serving_keeps false s.world ∙ e))) before;
  }

  -- what is left of InitTracer
  data IsTraced (l : List (Launched lib)) : Result lib.Provider × W → Type 0 where
    traced : (p : lib.Provider) (w : W) → launched w ≡ tracer p ∷ l → IsTraced l (ok p, w)
    untraced : (e : Error) (w : W) → launched w ≡ l → IsTraced l (err e, w)

  exporter_of-Keeps : (cfg : TracerConfig lib.Ratio) → Keeps launched (exporter_of lib cfg)
  exporter_of-Keeps cfg w = elim (Bool-cases (cfg.otlp_endpoint == "")) [
    | inl absent ↦ rw absent refl
    | inr given ↦ rw given (
        map_err-Keeps launched _ (wrapped "otlp exporter")
          (lib.new_exporter cfg.otlp_endpoint cfg.insecure)
          (laws.exporter_keeps cfg.otlp_endpoint cfg.insecure) (λ x s. refl) w)
  ]

  installed-IsTraced :
      (q : lib.Ratio) (a : lib.Attributes) (e : Option lib.Exporter) (l : List (Launched lib))
      (w : W)
      → launched w ≡ l
      → IsTraced l (installed lib q a e w)
  installed-IsTraced q a e l w h =
      let made = lib.new_provider q a e w in
      traced made.0 (lib.set_global made.0 made.1) (
        laws.set_global_keeps made.0 made.1
        ∙ laws.new_provider_launches q a e w
        ∙ ap (λ x. tracer made.0 ∷ x) h)

  init_tracer-IsTraced :
      (cfg : TracerConfig lib.Ratio) (l : List (Launched lib)) (w : W)
      → launched w ≡ l
      → IsTraced l (init_tracer lib cfg w)
  unfolding init_tracer
  init_tracer-IsTraced cfg l w h =
      map_err_cases (IsTraced l) _ (wrapped "otel resource")
        (lib.new_resource cfg.service_name cfg.environment) w
        (λ res _.
          bind_cases (IsTraced l) _ (exporter_of lib cfg) _
            (λ exporter _.
              installed-IsTraced cfg.sample_ratio res exporter l _
                (exporter_of-Keeps cfg _ ∙ attributes))
            (λ e _. untraced e _ (exporter_of-Keeps cfg _ ∙ attributes)))
        (λ e _. untraced _ _ attributes)
    where
      attributes : launched (lib.new_resource cfg.service_name cfg.environment w).1 ≡ l
      attributes = laws.resource_keeps cfg.service_name cfg.environment w ∙ h

  assigned :
      (l : List (Launched lib)) (x : Result lib.Provider × W) (o : Option lib.Provider)
      → IsTraced l x
      → let y =
          continue x.0 (λ tp. assign_shutdown lib tp) (record { world = x.1; shutdown = o }) in
        Outcome (On launched (Base l)) (On launched (Traced l)) y.1 y.0
  assigned l _ o (traced p w h) = up (p, (h, refl))
  assigned l _ o (untraced e w h) = down e h

  ended :
      (l : List (Launched lib)) (s : State lib) (p : lib.Provider)
      → launched s.world ≡ tracer p ∷ l
      → s.shutdown ≡ some p
      → On launched (Base l) (call_shutdown lib s.shutdown s).1
  ended l s p h set = rw set (laws.shutdown_provider_ends p s.world l h)

  pub tracing-IsBracket :
      (cfg : TracerConfig lib.Ratio) (l : List (Launched lib))
      → IsBracket (tracing_hook lib cfg) (On launched (Base l)) (On launched (Traced l))
  unfolding tracing_hook
  tracing-IsBracket cfg l = record {
    starts = λ s before.
        assigned l (init_tracer lib cfg s.world) s.shutdown
          (init_tracer-IsTraced cfg l s.world before);
    stops = λ s (p, (h, set)). ended l s p h set;
  }
