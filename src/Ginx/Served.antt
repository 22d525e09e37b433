-- ===== src/Ginx/Served.antt =====
-- A request through the whole chain of middleware, whether its handler ends or panics.
use go_clean_arch_template.Prelude.{String, false, ◌≡◌, sym, ap, ◌∙◌, subst, List, ◌++◌}
use go_clean_arch_template.Http.{Gin, new_error, error_middleware}
use go_clean_arch_template.Http.Contract.{Reply}
use go_clean_arch_template.Ginx.{
  Values, Request, ended, panicked, raised, Handler, Call, correlated, recover, chain,
  correlation_middleware,
}
use go_clean_arch_template.Ginx.Contract.{Seen, seen, IsRequest, IsTracing, deferred}
use go_clean_arch_template.Ginx.Chain.{seen-correlated}
use go_clean_arch_template.Ginx.Observed.{
  notes, Recovered, recovered, error_middleware-seen, arrived, Answered, answered, noted, skipped,
}

module _ {C K S : Type 0} (gin : Gin C) (request : Request C K) (values : Values K)
    (reply : C → Reply) (echoed : C → String)
    (laws : IsRequest gin request values reply echoed) where
  module _ (tracing : Handler C S → Handler C S)
      (tr : IsTracing gin request values reply echoed tracing) (uuid : String) (h : Handler C S)
      (c : C) where
    -- the context that the handler gets
    abbrev pub handed : C
    handed = tr.enter (correlated gin request values uuid c)

    handed-seen :
        seen request values echoed handed ≡ arrived gin request values reply echoed laws uuid c
    handed-seen = tr.seen-enter _ ∙ seen-correlated gin request values reply echoed laws uuid c

    -- what is left once the span has ended
    rendered-Answered :
        (x d : C) (t : S) (later : List Call)
        → seen request values echoed d ≡ seen request values echoed x
        → (r : Seen) → seen request values echoed x ≡ r
        → Answered gin request values reply echoed laws r (error_middleware gin d) t later (
            ended
              (tr.leave (error_middleware gin d))
              t
              (notes (seen request values echoed x) (reply (error_middleware gin d)).0 ++ later))
    rendered-Answered x d t later kept r same =
        subst
          (λ y. Answered gin request values reply echoed laws r (error_middleware gin d) t later (
            ended (tr.leave (error_middleware gin d)) t
              (notes y (reply (error_middleware gin d)).0 ++ later)))
          (sym same)
          (answered (tr.leave (error_middleware gin d))
            (tr.seen-leave _
              ∙ error_middleware-seen gin request values reply echoed laws d
              ∙ kept
              ∙ same)
            (tr.reply-leave _))

    -- A request whose handler ends, and keeps the request, is answered with what the error
    -- middleware made of the handler's reply; the reply's header echoes the correlation id. Unless
    -- the path is a probe's, exactly one line is logged, with that status and that id, and one
    -- observation with that status is made if a route fits.
    pub chain-Answered :
        (s t : S) (d : C) (calls later : List Call)
        → h handed s calls ≡ ended d t later
        → seen request values echoed d ≡ seen request values echoed handed
        → Answered gin request values reply echoed laws
            (arrived gin request values reply echoed laws uuid c)
            (error_middleware gin d)
            t
            later
            (chain gin request values uuid tracing h c s calls)
    unfolding chain recover correlation_middleware
    chain-Answered s t d calls later e kept =
        subst
          (Answered gin request values reply echoed laws
            (arrived gin request values reply echoed laws uuid c) (error_middleware gin d) t later)
          (sym (
            ap (recover gin request values) (
              tr.wraps _ _ s calls
              ∙ ap (deferred tr.leave)
                  (noted gin request values reply echoed laws h handed d s t calls later e kept))))
          (rendered-Answered handed d t later kept
            (arrived gin request values reply echoed laws uuid c) handed-seen)

    -- A request whose handler panics, before it has written, without changing the request and not
    -- with the error of a lost connection, is answered with status 500 and the body of the internal
    -- error. Its only trace is the line of the panic: LoggerMiddleware logs no line for it, and
    -- MetricsMiddleware counts no request.
    pub chain-Recovered :
        (s t : S) (d : C) (calls later : List Call)
        → h handed s calls ≡ panicked raised d t later
        → seen request values echoed d ≡ seen request values echoed handed
        → gin.written d ≡ false
        → Recovered gin request values reply echoed laws
            (arrived gin request values reply echoed laws uuid c)
            t
            later
            (chain gin request values uuid tracing h c s calls)
    unfolding chain recover correlation_middleware new_error
    chain-Recovered s t d calls later e kept unwritten =
        subst
          (Recovered gin request values reply echoed laws
            (arrived gin request values reply echoed laws uuid c) t later)
          (sym (
            ap (recover gin request values) (
              tr.wraps _ _ s calls
              ∙ ap (deferred tr.leave)
                  (skipped gin request values reply echoed laws h handed d s t calls later e))))
          (recovered _ (laws.seen-abort_json _ _ _ ∙ tr.seen-leave d ∙ kept ∙ handed-seen)
            (laws.reply-abort_json 500 _ _ (tr.written-leave d ∙ unwritten)))
