-- ===== src/Ginx/Observed.antt =====
-- What a request leaves behind in the request log and in the metrics.
use go_clean_arch_template.Prelude.{
  ℕ, String, ◌≡◌, refl, ap, ◌∙◌, none, some, List, [], ◌∷◌, ◌++◌, ◌==◌, if◌then◌else◌, Bool-cases,
  Option-cases, inl, inr,
}
use go_clean_arch_template.Http.{Gin, error_body, new_error, error_middleware}
use go_clean_arch_template.Http.Contract.{Reply}
use go_clean_arch_template.Ginx.{
  Values, Request, Ran, ended, panicked, raised, Handler, Call, Line, http_request, panic_recovered,
  observe_http, line_of, logger_middleware, metrics_middleware, errors_rendered, is_ops,
}
use go_clean_arch_template.Ginx.Contract.{Seen, seen, IsRequest}
use go_clean_arch_template.Ginx.Chain.{id_of}

abbrev line_at : Seen → ℕ → Line
line_at r status = record {
  method = r.method;
  path = r.path;
  status = status;
  correlation_id = r.correlation_id;
}

-- The calls of the logger and the metrics for one request, the latest first: none for a probe, and
-- nothing is measured where no route fits.
abbrev pub notes : Seen → (status : ℕ) → List Call
notes r status =
    if is_ops r.path
    then []
    else http_request (line_at r status)
      ∷ (if r.path == "" then [] else observe_http r.method r.path status ∷ [])

module _ {C K : Type 0} (gin : Gin C) (request : Request C K) (values : Values K)
    (reply : C → Reply) (echoed : C → String)
    (laws : IsRequest gin request values reply echoed) where
  -- the reply to a request whose handler panics
  pub data Recovered {S : Type 0} (r : Seen) (s : S) (calls : List Call) : Ran C S → Type 0 where
    recovered :
        (c' : C)
        → seen request values echoed c' ≡ r
        → reply c' ≡ (500, some (error_body (new_error none).body))
        → Recovered r s calls (ended c' s (panic_recovered ∷ calls))

  pub error_middleware-seen :
      (c : C) → seen request values echoed (error_middleware gin c) ≡ seen request values echoed c
  unfolding error_middleware
  error_middleware-seen c = elim (Option-cases (gin.last_error c)) [
    | inl fine ↦ rw fine refl
    | inr (e, failed) ↦ elim (Bool-cases (gin.written c)) [
      | inl over ↦ rw (failed, over) refl
      | inr unwritten ↦ rw (failed, unwritten) (laws.seen-json _ _ c)
    ]
  ]

  -- The line that is logged after the handler, by what was seen of the request before it.
  line :
      (c d : C)
      → seen request values echoed d ≡ seen request values echoed c
      → line_of gin request values (error_middleware gin d)
        ≡ line_at (seen request values echoed c) (reply (error_middleware gin d)).0
  line c d kept =
      ap (line_at (seen request values echoed (error_middleware gin d)))
        (laws.written_status-reply _)
      ∙ ap (λ r. line_at r (reply (error_middleware gin d)).0) (error_middleware-seen d ∙ kept)

  -- the request as the middleware sees it
  abbrev pub arrived : (uuid : String) → C → Seen
  arrived uuid c =
      let id = id_of gin request values reply echoed laws uuid c in
      record {
        method = request.method c;
        path = request.full_path c;
        correlation_id = id;
        echoed = id;
      }

module _ {C K S : Type 0} (gin : Gin C) (request : Request C K) (values : Values K)
    (reply : C → Reply) (echoed : C → String)
    (laws : IsRequest gin request values reply echoed) where
  -- the reply to a request and the calls for it
  pub data Answered (r : Seen) (c : C) (s : S) (calls : List Call) : Ran C S → Type 0 where
    answered :
        (c' : C)
        → seen request values echoed c' ≡ r
        → reply c' ≡ reply c
        → Answered r c s calls (ended c' s (notes r (reply c).0 ++ calls))

  rendered :
      (h : Handler C S) (c d : C) (s t : S) (calls later : List Call)
      → h c s calls ≡ ended d t later
      → errors_rendered gin h c s calls ≡ ended (error_middleware gin d) t later
  unfolding errors_rendered
  rendered h c d s t calls later e = rw e refl

  -- Logger and metrics around a handler that ends.
  pub noted :
      (h : Handler C S) (c d : C) (s t : S) (calls later : List Call)
      → h c s calls ≡ ended d t later
      → seen request values echoed d ≡ seen request values echoed c
      → logger_middleware gin request values
          (metrics_middleware gin request values (errors_rendered gin h))
          c
          s
          calls
        ≡ ended
            (error_middleware gin d)
            t
            (notes (seen request values echoed c) (reply (error_middleware gin d)).0 ++ later)
  unfolding logger_middleware metrics_middleware
  noted h c d s t calls later e kept = elim (Bool-cases (is_ops (request.full_path c))) [
    | inl probe ↦ elim (Bool-cases (request.full_path c == "")) [
      | inl unrouted ↦ rw (probe, unrouted, rendered h c d s t calls later e) refl
      | inr routed ↦ rw (probe, routed, rendered h c d s t calls later e) refl
    ]
    | inr call ↦ elim (Bool-cases (request.full_path c == "")) [
      | inl unrouted ↦
          rw (call, unrouted, rendered h c d s t calls later e)
            (ap (λ x. ended (error_middleware gin d) t (http_request x ∷ later))
              (line gin request values reply echoed laws c d kept))
      | inr routed ↦
          rw
            (
              call,
              routed,
              rendered h c d s t calls later e,
              line gin request values reply echoed laws c d kept,
              ap (λ r. r.method)
                  (error_middleware-seen gin request values reply echoed laws d ∙ kept),
              laws.written_status-reply,
            )
            refl
    ]
  ]

  -- Logger and metrics around a handler that panics.
  pub skipped :
      (h : Handler C S) (c d : C) (s t : S) (calls later : List Call)
      → h c s calls ≡ panicked raised d t later
      → logger_middleware gin request values
          (metrics_middleware gin request values (errors_rendered gin h))
          c
          s
          calls
        ≡ panicked raised d t later
  unfolding logger_middleware metrics_middleware errors_rendered
  skipped h c d s t calls later e = elim (Bool-cases (is_ops (request.full_path c))) [
    | inl probe ↦ elim (Bool-cases (request.full_path c == "")) [
      | inl unrouted ↦ rw (probe, unrouted, e) refl
      | inr routed ↦ rw (probe, routed, e) refl
    ]
    | inr call ↦ elim (Bool-cases (request.full_path c == "")) [
      | inl unrouted ↦ rw (call, unrouted, e) refl
      | inr routed ↦ rw (call, routed, e) refl
    ]
  ]
