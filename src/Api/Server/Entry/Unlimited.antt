-- ===== src/Api/Server/Entry/Unlimited.antt =====
-- The order of the log-in and the rate limit in internal/api/server.go.
use vrclog_companion.Prelude.{
  ◌≡◌, refl, sym, ◌∙◌, ◌≢◌, Bool, true, false, Option, none, some, arith, Option-cases, inl, inr,
  String, if◌then◌else◌,
}
use vrclog_companion.Api.Limiter.{AuthFailureLimiter}
use vrclog_companion.Api.Rate.{RateLimiter, Bucket, rate_middleware}
use vrclog_companion.Api.Guard.{Reply, passes, unauthorized, forbidden, too_many}
use vrclog_companion.Api.Server.{
  Handler, serve_static, Wrap, bare, wrap_auth, wrap_sse_auth, Server, Limits, register_routes,
  HttpRequest, find_route, Outcome, refused, call_handler, after_reply, Net, read_request,
}
use vrclog_companion.Api.Server.Serve.{
  rate_limited, after_auth, call_route, serve_mux, check_csrf, serve_checked, cors_of, serve,
}

call_handler-answers :
    (server : Server) (r : HttpRequest) (handler : Handler)
    → call_handler server r handler ≢ refused unauthorized
call_handler-answers server r serve_static e = elim (Option-cases server.web_fs) [
  | inl without ↦ ground (arith, without, e)
  | inr (web, there) ↦ ground (arith, there, e)
]
call_handler-answers server r handler e = ground (arith, e)

limit_reply :
    (b : Bool) (o : Outcome)
    → after_reply (if b then passes else too_many 1) o refused ≡ refused unauthorized
    → o ≡ refused unauthorized
limit_reply true o e = e
limit_reply false o e = ground (arith, e)

module _ {ℓ} {B : Type ℓ} (bucket : Bucket B) (net : Net) (server : Server) where
  rate_limited-authorized :
      (r : HttpRequest) (handler : Handler) (rate : Option (RateLimiter B))
      → (rate_limited bucket net server r handler rate).0 ≢ refused unauthorized
  unfolding rate_limited rate_middleware
  rate_limited-authorized r handler none e = call_handler-answers server r handler e
  rate_limited-authorized r handler (some rl) e =
      call_handler-answers server r handler (limit_reply _ _ e)

  after_auth-rate :
      (r : HttpRequest) (handler : Handler) (checked : Reply × Option AuthFailureLimiter)
      (limits : Limits B)
      → (after_auth bucket net server r handler checked limits).0 ≡ refused unauthorized
      → (after_auth bucket net server r handler checked limits).1.rate ≡ limits.rate
  after_auth-rate r handler (passes, failures) limits e =
      absurd (rate_limited-authorized r handler limits.rate e)
  after_auth-rate r handler (unauthorized, failures) limits e = refl
  after_auth-rate r handler (forbidden, failures) limits e = refl
  after_auth-rate r handler (too_many n, failures) limits e = refl

  call_route-rate :
      (r : HttpRequest) (method path : String) (wrap : Wrap) (handler : Handler) (limits : Limits B)
      → let (outcome, limits') =
          call_route bucket net server r
            (record { method = method; path = path; wrap = wrap; handler = handler })
            limits in
        outcome ≡ refused unauthorized → limits'.rate ≡ limits.rate
  unfolding call_route
  call_route-rate r method path bare handler limits e = refl
  call_route-rate r method path wrap_auth handler limits e = after_auth-rate r handler _ limits e
  call_route-rate r method path wrap_sse_auth handler limits e =
      after_auth-rate r handler _ limits e

  serve_mux-rate :
      (r : HttpRequest) (limits : Limits B)
      → (serve_mux bucket net server r limits).0 ≡ refused unauthorized
      → (serve_mux bucket net server r limits).1.rate ≡ limits.rate
  unfolding serve_mux
  serve_mux-rate r limits e = elim (Option-cases (find_route r (register_routes server))) [
    | inl nowhere ↦ rw (serve_mux, nowhere) refl
    | inr (route, found) ↦
        rw (serve_mux, found)
          (call_route-rate r route.method route.path route.wrap route.handler limits
            (sym (rw (serve_mux, found) refl) ∙ e))
  ]

  after_check-rate :
      (reply : Reply) (x : Outcome × Limits B) (limits : Limits B)
      → (x.0 ≡ refused unauthorized → x.1.rate ≡ limits.rate)
      → (after_reply reply x (λ refusal. (refused refusal, limits))).0 ≡ refused unauthorized
      → (after_reply reply x (λ refusal. (refused refusal, limits))).1.rate ≡ limits.rate
  after_check-rate passes x limits h e = h e
  after_check-rate unauthorized x limits h e = refl
  after_check-rate forbidden x limits h e = refl
  after_check-rate (too_many n) x limits h e = refl

  serve_checked-rate :
      (r : HttpRequest) (limits : Limits B)
      → (serve_checked bucket net server r limits).0 ≡ refused unauthorized
      → (serve_checked bucket net server r limits).1.rate ≡ limits.rate
  unfolding serve_checked
  serve_checked-rate r limits e =
      after_check-rate (check_csrf net server r) _ limits (serve_mux-rate r limits) e

-- For every configuration: a request that is refused for its log-in leaves the rate limiter as it was,
-- since the log-in is checked outside of it. Only requests that have logged in are counted.
pub serve-unauthorized {ℓ} :
    {B : Type ℓ} (bucket : Bucket B) (net : Net) (server : Server) (r : HttpRequest)
    (limits : Limits B)
    → (serve bucket net server r limits).0.outcome ≡ refused unauthorized
    → (serve bucket net server r limits).1.rate ≡ limits.rate
unfolding serve
serve-unauthorized bucket net server r limits e =
    elim (Option-cases (cors_of server (read_request net r)).1) [
      | inr (status, ended) ↦ rw (serve, ended) refl
      | inl goes_on ↦
          rw (serve, goes_on)
            (serve_checked-rate bucket net server r limits (sym (rw (serve, goes_on) refl) ∙ e))
    ]
