-- ===== src/Tests/Processes.antt =====
-- The theorem about starts and stops, at an API process whose gRPC port is taken.
use go_clean_arch_template.Prelude.{
  ℕ, String, true, none, List, [], ◌∷◌, ◌≡◌, refl, sym, ap, ◌∙◌, map, ◌==◌, if◌then◌else◌, inl, inr,
  Bool-cases, ◌≢◌,
}
use go_clean_arch_template.Prelude.Lists.{drop}
use go_clean_arch_template.Apperr.{Error, other}
use go_clean_arch_template.Effect.{ok, err, M, Result-cases}
use go_clean_arch_template.Process.{Library, HttpServer, Task, Hook, State, TracerConfig}
use go_clean_arch_template.Process.Contract.{
  Fx, IsFx, Launched, tracer, http, grpc, task, IsLibrary, lived, Started, started, start_next,
  start_failed, Stopped, stopped, stop_next, last_first,
}
use go_clean_arch_template.Process.Brackets.{Outcome}
use go_clean_arch_template.Process.Hooks.{
  Addresses, server, hooks_of, new_app, with_provides, with_invokes, Dependency,
}
use go_clean_arch_template.Process.Releases.{IsUp, start-IsUp}

data Item : Type 0 where
  a_tracer : Item
  a_server : HttpServer → Item
  a_listener : Item
  a_task : Task → Item

abbrev Items : Type 0
Items = List Item

abbrev bind : String → M Items (Unit {0})
bind addr w = if addr == "taken" then (err (other "net" "in use"), w) else (ok tt, a_listener ∷ w)

abbrev library : Library Items
library = record {
  Ratio = ℕ;
  Attributes = Unit {0};
  Exporter = Unit {0};
  Provider = Unit {0};
  Listener = Unit {0};
  new_resource = λ name env w. (ok tt, w);
  new_exporter = λ endpoint b w. (ok tt, w);
  new_provider = λ q a e w. (tt, a_tracer ∷ w);
  set_global = λ p w. w;
  shutdown_provider = λ p w. (ok tt, drop 1 w);
  go_listen_and_serve = λ v addr w. a_server v ∷ w;
  shutdown_http = λ v w. (ok tt, drop 1 w);
  listen = bind;
  set_serving = λ b w. w;
  go_serve = λ lis w. w;
  graceful_stop = λ w. drop 1 w;
  close_redis = λ w. (ok tt, w);
  go_task = λ t w. a_task t ∷ w;
  cancel = λ t w. drop 1 w;
  close_consumer = λ w. (ok tt, w);
  stop_ticker = λ w. w;
}

abbrev shown : Item → Launched library
shown a_tracer = tracer tt
shown (a_server v) = http v
shown a_listener = grpc tt
shown (a_task t) = task t

abbrev launched : Items → List (Launched library)
launched w = map shown w

abbrev rest_of : List (Launched library) → List (Launched library)
rest_of l = drop 1 l

popped :
    (x : Launched library) (w : Items) (l : List (Launched library))
    → launched w ≡ x ∷ l
    → launched (drop 1 w) ≡ l
popped x [] l h = cc
popped x (i ∷ w) l h = ap rest_of h

ok≢err : {A : Type 0} {a : A} {e : Error} → ok a ≢ err e
ok≢err h = cc

bound :
    (addr : String) (w : Items) (lis : Unit {0})
    → (bind addr w).0 ≡ ok lis
    → launched (bind addr w).1 ≡ grpc lis ∷ launched w
bound addr w lis h = elim (Bool-cases (addr == "taken")) [
  | inl busy ↦ absurd (ok≢err {e = other "net" "in use"} (sym h ∙ rw busy refl))
  | inr free ↦ rw free refl
]

refused :
    (addr : String) (w : Items) (e : Error)
    → (bind addr w).0 ≡ err e
    → launched (bind addr w).1 ≡ launched w
refused addr w e h = elim (Bool-cases (addr == "taken")) [
  | inl busy ↦ rw busy refl
  | inr free ↦ absurd (ok≢err (sym (rw free refl) ∙ h))
]

library-IsLibrary : IsLibrary library launched
library-IsLibrary = record {
  resource_keeps = λ name env w. refl;
  exporter_keeps = λ endpoint b w. refl;
  new_provider_launches = λ q a e w. refl;
  set_global_keeps = λ p w. refl;
  shutdown_provider_ends = λ p w l h. popped (tracer p) w l h;
  listen_and_serve_launches = λ v addr w. refl;
  shutdown_http_ends = λ v w l h. popped (http v) w l h;
  listen_ok = bound;
  listen_err = refused;
  set_serving_keeps = λ b w. refl;
  serve_keeps = λ lis w. refl;
  graceful_stop_ends = λ lis w l h. popped (grpc lis) w l h;
  close_redis_keeps = λ w. refl;
  task_launches = λ t w. refl;
  cancel_ends = λ t w l h. popped (task t) w l h;
  close_consumer_keeps = λ w. refl;
  stop_ticker_keeps = λ w. refl;
}

module _ {S : Type 0} where
  abbrev stop_all : List (Hook S) → S → S
  stop_all [] s = s
  stop_all (h ∷ rest) s = stop_all rest (h.on_stop s).1

  abbrev start_all : List (Hook S) → (done : List (Hook S)) → M S (Unit {0})
  start_all [] done s = (ok tt, s)
  start_all (h ∷ rest) done s =
      let r = h.on_start s in
      elim r.0 [ ok u ↦ start_all rest (h ∷ done) r.1 | err e ↦ (err e, stop_all done r.1) ]

  stop_all-Stopped : (hooks : List (Hook S)) (s : S) → Stopped hooks s (stop_all hooks s)
  stop_all-Stopped [] s = stopped s
  stop_all-Stopped (h ∷ rest) s = stop_next h rest s _ (stop_all-Stopped rest (h.on_stop s).1)

  start_all-Started :
      (hooks done : List (Hook S)) (s : S)
      → Started hooks done s (start_all hooks done s).0 (start_all hooks done s).1
  start_all-Started [] done s = started done s
  start_all-Started (h ∷ rest) done s = elim (Result-cases (h.on_start s).0) [
    | inl (u, fine) ↦
        rw (start_all, fine)
          (start_next h rest done s _ _ fine (start_all-Started rest (h ∷ done) _))
    | inr (e, bad) ↦
        rw (start_all, bad) (start_failed h rest done s _ e bad (stop_all-Stopped done _))
  ]

  abbrev fx : Fx S
  fx = record {
    start = λ hooks. start_all hooks [];
    stop = λ hooks s. (ok tt, stop_all (last_first hooks []) s);
  }

  fx-IsFx : IsFx fx
  fx-IsFx = record {
    start-Started = λ hooks s. start_all-Started hooks [] s;
    stop-Stopped = λ hooks s. stop_all-Stopped (last_first hooks []) s;
  }

abbrev tracing : TracerConfig ℕ
tracing = record {
  service_name = "account";
  environment = "local";
  otlp_endpoint = "";
  sample_ratio = 1;
  insecure = true;
}

abbrev addresses : Addresses
addresses = record {
  http_addr = ":8080";
  grpc_addr = "taken";
  grpc_health_addr = ":9091";
  worker_health_addr = ":8081";
}

abbrev booted : State library
booted = record { world = []; shutdown = none }

start-IsUp_example :
    Outcome
      (λ u. launched u.world ≡ [])
      (λ u. IsUp library [] server (launched u.world))
      (fx.start (hooks_of library server tracing addresses) booted).1
      (fx.start (hooks_of library server tracing addresses) booted).0
    × (launched (lived fx (hooks_of library server tracing addresses) (λ s. s) booted).world ≡ [])
start-IsUp_example =
    start-IsUp library launched library-IsLibrary fx fx-IsFx server tracing addresses (λ s. s)
      (λ t. refl) (λ t. refl) booted

abbrev options : List (Dependency String → Dependency String)
options = with_provides ("http" ∷ "grpc" ∷ []) ∷ with_invokes ("warm" ∷ []) ∷ []

new_app_test : new_app "cfg" "run" options ≡ record {
  provides = "http" ∷ "grpc" ∷ [];
  supplies = "cfg" ∷ [];
  invokes = "warm" ∷ "run" ∷ [];
}
unfolding new_app
new_app_test = refl
