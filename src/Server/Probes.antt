-- ===== src/Server/Probes.antt =====
-- The readiness probe, through the whole server.
use go_clean_arch_template.Prelude.{
  ℕ, String, Bool, if◌then◌else◌, true, some, List, [], ◌++◌, ◌≡◌, refl, sym, ap, ◌∙◌, subst, ◌↔◌,
}
use go_clean_arch_template.Ports.{AccountUseCase}
use go_clean_arch_template.Http.{Library, Body, ready_body}
use go_clean_arch_template.Http.Contract.{Reply, IsFresh}
use go_clean_arch_template.Http.Replies.{reply-json_sent}
use go_clean_arch_template.Ginx.{Values, Request, Ran, ended, Handler, Call, is_ops, is_key}
use go_clean_arch_template.Ginx.Contract.{Seen, seen}
use go_clean_arch_template.Ginx.Observed.{Answered, answered, arrived, notes}
use go_clean_arch_template.Ginx.Served.{chain-Answered}
use go_clean_arch_template.Ginx.Readiness.{readiness, checked, checked-Passed}
use go_clean_arch_template.Server.{
  Endpoint, readiness_probe, Checks, run_checks, serve_endpoint, serve_http,
}
use go_clean_arch_template.Server.Checked.{Probed, Passing, run_checks-Probed, Passed-iff}
use go_clean_arch_template.Server.Contract.{IsContext, IsTransparent}
use go_clean_arch_template.Server.Api.{handed_of, handed_of-IsFresh}

module _ {C K : Type 0} (lib : Library C) (request : Request C K) (values : Values K)
    (reply : C → Reply) (echoed : C → String)
    (laws : IsContext lib.gin request values reply echoed) where
  -- A request that was seen like this got this reply, and no call was made for it.
  pub data IsProbed {S : Type 0} (r : Seen) (calls : List Call) (status : ℕ) (body : Body) (s : S)
      : Ran C S → Type 0 where
    probed :
        (c' : C)
        → seen request values echoed c' ≡ r
        → reply c' ≡ (status, some body)
        → IsProbed r calls status body s (ended c' s calls)

  notes-ops : (r : Seen) (n : ℕ) → is_ops r.path ≡ true → notes r n ≡ []
  notes-ops r n ops = rw ops refl

  of_Answered :
      {S : Type 0} (r : Seen) (calls : List Call) (n : ℕ) (b : Body) (s : S) (c : C) (ran : Ran C S)
      → is_ops r.path ≡ true
      → reply c ≡ (n, some b)
      → Answered lib.gin request values reply echoed laws.requests r c s calls ran
      → IsProbed r calls n b s ran
  of_Answered r calls n b s c _ ops e (answered c' kept sent) =
      subst (λ l. IsProbed r calls n b s (ended c' s (l ++ calls))) (sym (notes-ops r _ ops))
        (probed c' kept (sent ∙ e))

  module _ {S : Type 0} (uc : AccountUseCase S) (checks : Checks S)
      (foreign : Endpoint → Handler C S) (tracing : Handler C S → Handler C S)
      (tr : IsTransparent lib.gin request values reply echoed tracing) (uuid : String) where
    -- A request for the readiness probe, through the whole server: each check is called once, in the
    -- order in which they are ranged over, and the reply reports under its name "ok" or the text of
    -- its error; its status is 200 if every check passes, else 503. The probe is neither logged nor
    -- measured.
    pub readiness-IsProbed :
        (c : C) (s : S) (calls : List Call)
        → IsFresh lib.gin c
        → request.full_path c ≡ "/readiness"
        → (out : Bool × List (String × String)) × (t : S) × Probed checks s true [] out t
          × IsProbed
              (arrived lib.gin request values reply echoed laws.requests uuid c)
              calls
              (if out.0 then 200 else 503)
              (ready_body out.0 out.1)
              t
              (serve_http lib request values uc checks foreign uuid tracing readiness_probe c s
                calls)
          × ((out.0 ≡ true) ↔ Passing checks s)
    unfolding serve_http serve_endpoint is_ops is_key readiness
    readiness-IsProbed c s calls fresh matched =
        let q = run_checks checks s in
        let report = readiness q.0 in
        let d =
          handed_of lib request values reply echoed laws uc checks foreign tracing tr uuid c in
        let passed = checked-Passed q.0 [] in
        let passing = Passed-iff checks s in
        (
          checked q.0 true [],
          q.1,
          run_checks-Probed checks s true [],
          of_Answered (arrived lib.gin request values reply echoed laws.requests uuid c) calls
              report.status (ready_body report.ready report.details) q.1 _ _ (ap is_ops matched)
              (reply-json_sent lib reply laws.replies d
                (handed_of-IsFresh lib request values reply echoed laws uc checks foreign tracing tr
                  uuid c fresh)
                report.status (ready_body report.ready report.details))
              (chain-Answered lib.gin request values reply echoed laws.requests tracing tr.spans
                uuid (serve_endpoint lib request values uc checks foreign readiness_probe) c s q.1 _
                calls calls refl (laws.requests.seen-json _ _ d)),
          (λ h. passing.0 (passed.0 h), λ p. passed.1 (passing.1 p)),
        )
