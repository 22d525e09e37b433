-- ===== src/Process/Releases.antt =====
-- Whatever a process launches it tells to end, on a failed start as on stop.
use go_clean_arch_template.Prelude.{Option, List, ◌∷◌, ◌≡◌, refl, sym, subst}
use go_clean_arch_template.Process.{
  Library, State, TracerConfig, event_task, job_task, api_server, grpc_health_server,
  worker_probe_server,
}
use go_clean_arch_template.Process.Contract.{
  Fx, IsFx, Launched, tracer, http, grpc, task, IsLibrary, lived,
}
use go_clean_arch_template.Process.Brackets.{
  Chain, here, link, Outcome, start-Outcome, lived-Before, weaken,
}
use go_clean_arch_template.Process.Hooks.{
  Addresses, Binary, server, worker, hooks_of, server_hooks, worker_hooks, register_http,
  register_grpc,
}
use go_clean_arch_template.Process.Lifecycle.{
  Shape, On, Base, Traced, Pushed, Bound, redis-IsBracket, http-IsBracket, consumer-IsBracket,
  job-IsBracket, grpc-IsBracket, tracing-IsBracket,
}

-- what each process has launched once it has started, where `l` was before
pub data IsUp {W : Type 0} (lib : Library W) (l : List (Launched lib))
    : Binary → List (Launched lib) → Type 0 where
  server_up :
      (p : lib.Provider) (lis : lib.Listener)
      → IsUp lib l server (http grpc_health_server ∷ grpc lis ∷ http api_server ∷ tracer p ∷ l)
  worker_up :
      (p : lib.Provider)
      → IsUp lib l worker
          (task job_task ∷ task event_task ∷ http worker_probe_server ∷ tracer p ∷ l)

module _ {W : Type 0} (lib : Library W) (launched : W → List (Launched lib))
    (laws : IsLibrary lib launched) where
  abbrev Up : Binary → List (Launched lib) → Shape lib
  Up server l = Pushed (http grpc_health_server) (Bound (Pushed (http api_server) (Traced l)))
  Up worker l =
      Pushed (task job_task)
        (Pushed (task event_task) (Pushed (http worker_probe_server) (Traced l)))

  Up-IsUp :
      (b : Binary) (l now : List (Launched lib)) (o : Option lib.Provider)
      → Up b l now o
      → IsUp lib l b now
  Up-IsUp server l now o (l1, (e1, (lis, (l2, (e2, (l3, (e3, (p, (e4, _))))))))) =
      rw (e1, e2, e3, e4) (server_up p lis)
  Up-IsUp worker l now o (l1, (e1, (l2, (e2, (l3, (e3, (p, (e4, _)))))))) =
      rw (e1, e2, e3, e4) (worker_up p)

  hooks_of-Chain :
      (b : Binary) (cfg : TracerConfig lib.Ratio) (a : Addresses) (l : List (Launched lib))
      → Chain (hooks_of lib b cfg a) (On launched (Base l)) (On launched (Up b l))
  unfolding hooks_of server_hooks worker_hooks register_http register_grpc
  hooks_of-Chain server cfg a l = link _ _ _ _ _ (tracing-IsBracket lib launched laws cfg l) (
      link _ _ _ _ _ (redis-IsBracket lib launched laws (Traced l)) (
        link _ _ _ _ _ (http-IsBracket lib launched laws api_server a.http_addr (Traced l)) (
          link _ _ _ _ _ (grpc-IsBracket lib launched laws a.grpc_addr _) (
            link _ _ _ _ _
              (http-IsBracket lib launched laws grpc_health_server a.grpc_health_addr _)
              (here _)))))
  hooks_of-Chain worker cfg a l = link _ _ _ _ _ (tracing-IsBracket lib launched laws cfg l) (
      link _ _ _ _ _ (redis-IsBracket lib launched laws (Traced l)) (
        link _ _ _ _ _
          (http-IsBracket lib launched laws worker_probe_server a.worker_health_addr (Traced l))
          (link _ _ _ _ _ (consumer-IsBracket lib launched laws _)
            (link _ _ _ _ _ (job-IsBracket lib launched laws _) (here _)))))

  module _ (fx : Fx (State lib)) (isFx : IsFx fx) where
    -- Whichever of its hooks fails: a start of the API or of the worker either fails, and whatever it
    -- had launched it has told to end, or it succeeds, and it has launched exactly the servers,
    -- the tasks and the tracer of the process. After a start, and after it has succeeded, work that
    -- neither launches nor ends anything of these, and a stop, whatever the hooks return on stop,
    -- everything that was launched has been told to end. Launched is not the same as running: an
    -- HTTP server counts although its port may not be bound, and nothing waits for a task's end.
    pub start-IsUp :
        (b : Binary) (cfg : TracerConfig lib.Ratio) (a : Addresses) (work : State lib → State lib)
        → ((t : State lib) → launched (work t).world ≡ launched t.world)
        → ((t : State lib) → (work t).shutdown ≡ t.shutdown)
        → (s : State lib)
        → let hooks = hooks_of lib b cfg a in
          let (r, t) = fx.start hooks s in
          Outcome
            (λ u. launched u.world ≡ launched s.world)
            (λ u. IsUp lib (launched s.world) b (launched u.world))
            t
            r
          × (launched (lived fx hooks work s).world ≡ launched s.world)
    start-IsUp b cfg a work keeps same s =
        let l = launched s.world in
        let chain = hooks_of-Chain b cfg a l in
        (
          weaken _ _ _ _ _ (λ t h. Up-IsUp b l (launched t.world) t.shutdown h)
              (start-Outcome fx isFx (hooks_of lib b cfg a) (On launched (Base l))
                (On launched (Up b l)) chain s refl),
          lived-Before fx isFx (hooks_of lib b cfg a) (On launched (Base l)) (On launched (Up b l))
              chain s refl work
              (λ t h.
                subst (λ x. Up b l x (work t).shutdown) (sym (keeps t))
                  (subst (λ o. Up b l (launched t.world) o) (sym (same t)) h)),
        )
