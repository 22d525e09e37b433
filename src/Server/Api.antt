-- ===== src/Server/Api.antt =====
-- A request for a route of the API, through the whole server.
use go_clean_arch_template.Prelude.{
  ℕ, String, false, some, List, [], ◌∷◌, ◌++◌, ◌==◌, ◌≡◌, refl, sym, ap, ◌∙◌, subst, map,
}
use go_clean_arch_template.Effect.{Result, ok, err, map_result, M, lift, pure, ◌>>=◌}
use go_clean_arch_template.Ports.{AccountUseCase}
use go_clean_arch_template.Domain.{Account}
use go_clean_arch_template.Prelude.Int.{pos}
use go_clean_arch_template.Http.Atoi.{atoi_default}
use go_clean_arch_template.Http.{
  Library, Route, post_accounts, get_account, get_accounts, patch_account, delete_account, handle,
  create, get, list, update, delete, finish, read_first, write_account, Location, utc,
  stored_location, write_page, error_middleware, respond, Body, accounts_body, from_domain,
  invalid_body, create_to_domain, update_to_domain, status_filter,
}
use go_clean_arch_template.Http.Contract.{Reply, IsFresh, render, answer}
use go_clean_arch_template.Http.Replies.{respond-answer}
use go_clean_arch_template.Ginx.{
  Values, Request, Ran, ended, Handler, Call, http_request, observe_http, correlated, is_ops,
}
use go_clean_arch_template.Ginx.Contract.{Seen, seen}
use go_clean_arch_template.Ginx.Observed.{Answered, answered, arrived, notes}
use go_clean_arch_template.Ginx.Served.{chain-Answered}
use go_clean_arch_template.Server.{Endpoint, account_api, Checks, serve_endpoint, serve_http}
use go_clean_arch_template.Server.Contract.{asked, IsContext, IsTransparent}
use go_clean_arch_template.Server.Routes.{api_path, api_path-is_ops}

module _ {C K : Type 0} (lib : Library C) (request : Request C K) (values : Values K)
    (reply : C → Reply) (echoed : C → String)
    (laws : IsContext lib.gin request values reply echoed) where
  asked-correlated :
      (uuid : String) (c : C)
      → asked lib.gin (correlated lib.gin request values uuid c) ≡ asked lib.gin c
  unfolding correlated
  asked-correlated uuid c = laws.asked-set_header _ _ _ ∙ laws.asked-with_ctx _ _

  module _ {S : Type 0} (uc : AccountUseCase S) where
    abbrev Keeps : (C → C) → Type 0
    Keeps f = (c : C) → seen request values echoed (f c) ≡ seen request values echoed c

    finish-seen :
        {A : Type 0} (write : A → C → C)
        → ((a : A) → Keeps (write a))
        → (c : C) (r : Result A) (s : S)
        → seen request values echoed (finish lib uc write c (r, s)).0 ≡ seen request values echoed c
    finish-seen write h c (ok a) s = h a c
    finish-seen write h c (err e) s = laws.seen-error e c

    read_first-seen :
        {A : Type 0} (c : C) (s : S) (r : Result A) (rest : A → C × S)
        → ((a : A) → seen request values echoed (rest a).0 ≡ seen request values echoed c)
        → seen request values echoed (read_first lib uc c s r rest).0 ≡ seen request values echoed c
    read_first-seen c s (ok a) rest h = h a
    read_first-seen c s (err e) rest h = laws.seen-error e c

    json-seen : (n : ℕ) (b : Body) → Keeps (lib.gin.json n b)
    json-seen n b c = laws.requests.seen-json n b c

    account-seen :
        (z : Location) (n : ℕ) (c : C) (r : Result Account × S)
        → seen request values echoed (finish lib uc (write_account lib uc z n) c r).0
          ≡ seen request values echoed c
    account-seen z n c r = finish-seen (write_account lib uc z n) (λ a. json-seen n _) c r.0 r.1

    handle-seen :
        (route : Route) (c : C) (s : S)
        → seen request values echoed (handle lib uc route c s).0 ≡ seen request values echoed c
    unfolding handle create get list update delete
    handle-seen post_accounts c s =
        read_first-seen c s (map_result invalid_body (lib.gin.bind_create c)) _
          (λ req. account-seen utc 201 c (uc.create (create_to_domain req) s))
    handle-seen get_account c s =
        account-seen stored_location 200 c (uc.get (lib.gin.param "id" c) s)
    handle-seen get_accounts c s =
        read_first-seen c s (status_filter lib.atoi_error (lib.gin.query "status" c)) _ (λ status.
          let r =
            uc.list
              (record {
                status = status;
                limit = atoi_default (lib.gin.query "limit" c) (pos 0);
                offset = atoi_default (lib.gin.query "offset" c) (pos 0);
              })
              s in
          finish-seen (write_page lib uc) (λ page. json-seen 200 _) c r.0 r.1)
    handle-seen patch_account c s =
        read_first-seen c s (map_result invalid_body (lib.gin.bind_update c)) _ (λ req.
          account-seen stored_location 200 c
            (uc.update (update_to_domain (lib.gin.param "id" c) req) s))
    handle-seen delete_account c s =
        let r = uc.delete (lib.gin.param "id" c) s in
        finish-seen (λ _. lib.gin.status 204) (λ a. laws.seen-status 204) c r.0 r.1

    -- the answer of List for a query
    listing : (String → String) → M S Reply
    listing query = do
      status ← lift (status_filter lib.atoi_error (query "status"))
      page ← uc.list (record {
        status = status;
        limit = atoi_default (query "limit") (pos 0);
        offset = atoi_default (query "offset") (pos 0);
      })
      pure (
        200,
        some (
            accounts_body (record {
              accounts = map (from_domain lib.format_time stored_location) page.0;
              total = page.1;
            })),
      )

    answer-asked :
        (route : Route) (c d : C) (s : S)
        → asked lib.gin c ≡ asked lib.gin d
        → answer lib uc route c s ≡ answer lib uc route d s
    unfolding answer listing
    answer-asked post_accounts c d s e = rw (ap (λ a. a.create) e) refl
    answer-asked get_account c d s e = rw (ap (λ a. a.param "id") e) refl
    answer-asked get_accounts c d s e = ap (λ a. listing a.query s) e
    answer-asked patch_account c d s e = rw (ap (λ a. a.update) e, ap (λ a. a.param "id") e) refl
    answer-asked delete_account c d s e = rw (ap (λ a. a.param "id") e) refl

  -- the calls for a request of the API, the latest first
  abbrev logged : Seen → (status : ℕ) → List Call
  logged r status =
      http_request (record {
        method = r.method;
        path = r.path;
        status = status;
        correlation_id = r.correlation_id;
      })
      ∷ observe_http r.method r.path status
      ∷ []

  -- A request that was seen like this is answered with what the route's `answer` came to.
  pub data IsServed {S : Type 0} (r : Seen) (calls : List Call) (q : Result Reply × S)
      : Ran C S → Type 0 where
    served :
        (c' : C)
        → seen request values echoed c' ≡ r
        → reply c' ≡ render q.0
        → IsServed r calls q (ended c' q.1 (logged r (render q.0).0 ++ calls))

  notes-logged :
      (r : Seen) (n : ℕ) → is_ops r.path ≡ false → (r.path == "") ≡ false → notes r n ≡ logged r n
  notes-logged r n api routed = rw (api, routed) refl

  of_Answered :
      {S : Type 0} (r : Seen) (calls : List Call) (q : Result Reply × S) (c : C) (ran : Ran C S)
      → is_ops r.path ≡ false
      → (r.path == "") ≡ false
      → reply c ≡ render q.0
      → Answered lib.gin request values reply echoed laws.requests r c q.1 calls ran
      → IsServed r calls q ran
  of_Answered r calls q c _ api routed e (answered c' kept sent) =
      subst (λ l. IsServed r calls q (ended c' q.1 (l ++ calls)))
        (sym (notes-logged r _ api routed) ∙ ap (λ p. notes r p.0) (sym e))
        (served c' kept (sent ∙ e))

  api_path-routed : (route : Route) → (api_path route == "") ≡ false
  api_path-routed post_accounts = refl
  api_path-routed get_account = refl
  api_path-routed get_accounts = refl
  api_path-routed patch_account = refl
  api_path-routed delete_account = refl

  module _ {S : Type 0} (uc : AccountUseCase S) (checks : Checks S)
      (foreign : Endpoint → Handler C S) (tracing : Handler C S → Handler C S)
      (tr : IsTransparent lib.gin request values reply echoed tracing) (uuid : String) where
    abbrev pub handed_of : C → C
    handed_of c = tr.spans.enter (correlated lib.gin request values uuid c)

    handed_of-asked : (c : C) → asked lib.gin (handed_of c) ≡ asked lib.gin c
    handed_of-asked c = tr.asked-enter _ ∙ asked-correlated uuid c

    pub handed_of-IsFresh : (c : C) → IsFresh lib.gin c → IsFresh lib.gin (handed_of c)
    handed_of-IsFresh c fresh = record {
      no_error = ap (λ a. a.last_error) (handed_of-asked c) ∙ fresh.no_error;
      not_written = ap (λ a. a.written) (handed_of-asked c) ∙ fresh.not_written;
    }

    -- A request that Gin has just taken and matched with a route of the API, through the whole
    -- server: the calls of the use case are those of the route's `answer`, and the reply is what it
    -- returns, or httpx's rendering of its error; the reply's header echoes the correlation id. One
    -- line is logged, with that id and the status of the reply, and one observation with that
    -- status is made.
    pub api-IsServed :
        (route : Route) (c : C) (s : S) (calls : List Call)
        → IsFresh lib.gin c
        → request.full_path c ≡ api_path route
        → IsServed
            (arrived lib.gin request values reply echoed laws.requests uuid c)
            calls
            (answer lib uc route c s)
            (serve_http lib request values uc checks foreign uuid tracing
              (account_api route)
              c
              s
              calls)
    unfolding serve_http serve_endpoint respond
    api-IsServed route c s calls fresh matched =
        let h = handle lib uc route (handed_of c) s in
        let same =
          respond-answer lib reply laws.replies (handed_of c) (handed_of-IsFresh c fresh) uc route
            s in
        subst
          (λ q.
            IsServed (arrived lib.gin request values reply echoed laws.requests uuid c) calls q (
              serve_http lib request values uc checks foreign uuid tracing (account_api route) c s
                calls))
          (answer-asked uc route (handed_of c) c s (handed_of-asked c))
          (of_Answered (arrived lib.gin request values reply echoed laws.requests uuid c) calls _
            (error_middleware lib.gin h.0) _ (ap is_ops matched ∙ api_path-is_ops route)
            (ap (λ p. p == "") matched ∙ api_path-routed route) same.0
            (subst
              (λ t.
                Answered lib.gin request values reply echoed laws.requests
                  (arrived lib.gin request values reply echoed laws.requests uuid c)
                  (error_middleware lib.gin h.0) t calls
                  (serve_http lib request values uc checks foreign uuid tracing (account_api route)
                    c s calls))
              same.1
              (chain-Answered lib.gin request values reply echoed laws.requests tracing tr.spans
                uuid (serve_endpoint lib request values uc checks foreign (account_api route)) c s
                h.1 h.0 calls calls refl (handle-seen uc route (handed_of c) s))))
