-- ===== src/Api/Server/Entry.antt =====
-- How a request gets to a handler of internal/api/server.go, with the options of cmd/vrclog/main.go.
pub mod Lan
pub mod Open
pub mod Unlimited
use Prim.Derive.{subst}
use vrclog_companion.Prelude.{
  ◌≡◌, refl, sym, ap, ◌∙◌, ◌≢◌, String, Bool, true, false, not, ◌&&◌, ◌||◌, Option, none, some, any,
  List, [], ◌∷◌, is_empty, arith, if◌then◌else◌, Bool-cases, Option-cases, ◌⊎◌, inl, inr,
}
use vrclog_companion.Config.{Config, Secrets}
use vrclog_companion.Api.Limiter.{AuthFailureLimiter}
use vrclog_companion.Api.Rate.{RateLimiter, Bucket, rate_middleware}
use vrclog_companion.Api.Token.{Kit, Claims, scope_sse}
use vrclog_companion.Api.Token.Signed.{IsSigned}
use vrclog_companion.Api.Guard.{
  Request, Reply, passes, unauthorized, forbidden, too_many, Auth, Clock, basic_auth_middleware,
  sse_token_middleware, locked_for, is_given, is_match, refuse,
}
use vrclog_companion.Api.Guard.Streams.{passes-IsEntitled, refuse-refuses}
use vrclog_companion.Api.Server.{
  Handler, handle_health, handle_events, handle_now, handle_stats, handle_stream, handle_auth_token,
  handle_get_config, handle_put_config, serve_static, Wrap, bare, wrap_auth, wrap_sse_auth, Route,
  WebFs, Server, Limits, route_if, has_web, register_routes, HttpRequest, matches_method,
  matches_path, find_route, Outcome, handled, page, refused, preflight, not_found,
  method_not_allowed, call_handler, after_reply, Net, read_request,
}
use vrclog_companion.Api.Server.Serve.{
  Response, rate_limited, after_auth, call_route, no_route, serve_mux, check_csrf, serve_checked,
  serve,
}
use vrclog_companion.Api.Server.Wrapped.{
  is_wrapped, find_route-is_wrapped, register_routes-all_wrapped,
}

-- `basicAuthMiddleware` lets through what is right and not locked out.
basic_auth_middleware-passes :
    (auth : Auth) (r : Request) (clock : Clock) (afl : Option AuthFailureLimiter)
    → (basic_auth_middleware auth r clock afl).0 ≡ passes
    → (locked_for r.ip clock afl ≡ none) × (is_given auth r.basic ≡ true)
unfolding basic_auth_middleware
basic_auth_middleware-passes auth r clock afl h = elim (Option-cases (locked_for r.ip clock afl)) [
  | inr (seconds, e) ↦ ground (arith, e, h)
  | inl free ↦ (
    free,
    elim (Option-cases r.basic) [
      | inl without ↦ ground (arith, free, without, h)
      | inr (given, e) ↦ elim (Bool-cases (is_match auth given)) [
        | inl good ↦ rw e good
        | inr bad ↦ absurd (refuse-refuses r clock afl (ground (arith, free, e, bad, h)))
      ]
    ],
  )
]

-- Who may get to a handler that is wrapped.
pub record IsAdmitted (net : Net) (auth : Auth) (r : HttpRequest)
    (failures : Option AuthFailureLimiter) (handler : Handler) : Type 0 where
  pub unlocked : locked_for (read_request net r).ip net.clock failures ≡ none
  pub login :
      (is_given auth r.basic ≡ true)
      ⊎ ((handler ≡ handle_stream)
          × (claims : Claims) × IsSigned auth.kit auth.sse_secret scope_sse r.token
              net.clock.validated claims)

abbrev handler_of : Outcome → Handler → Handler
handler_of (handled h) other = h
handler_of _ other = other

same_handler : {a b : Handler} → handled a ≡ handled b → a ≡ b
same_handler {a = a} e = ap (λ o. handler_of o a) e

static-handled :
    (server : Server) (r : HttpRequest) (h : Handler)
    → call_handler server r serve_static ≢ handled h
static-handled server r h e = elim (Option-cases server.web_fs) [
  | inl without ↦ ground (arith, without, e)
  | inr (web, there) ↦ ground (arith, there, e)
]

call_handler-handled :
    (server : Server) (r : HttpRequest) (handler h : Handler)
    → call_handler server r handler ≡ handled h
    → handler ≡ h
call_handler-handled server r handle_health h e = same_handler e
call_handler-handled server r handle_events h e = same_handler e
call_handler-handled server r handle_now h e = same_handler e
call_handler-handled server r handle_stats h e = same_handler e
call_handler-handled server r handle_stream h e = same_handler e
call_handler-handled server r handle_auth_token h e = same_handler e
call_handler-handled server r handle_get_config h e = same_handler e
call_handler-handled server r handle_put_config h e = same_handler e
call_handler-handled server r serve_static h e = absurd (static-handled server r h e)

after_reply-handled :
    (reply : Reply) (o : Outcome) (h : Handler)
    → after_reply reply o refused ≡ handled h
    → (reply ≡ passes) × (o ≡ handled h)
after_reply-handled passes o h e = (refl, e)
after_reply-handled unauthorized o h e = ground (arith, e)
after_reply-handled forbidden o h e = ground (arith, e)
after_reply-handled (too_many n) o h e = ground (arith, e)

bare-handled :
    (server : Server) (r : HttpRequest) (handler h : Handler)
    → is_wrapped bare handler ≡ true
    → call_handler server r handler ≡ handled h
    → h ≡ handle_health
bare-handled server r handle_health h w e = sym (same_handler e)
bare-handled server r serve_static h w e = absurd (static-handled server r h e)
bare-handled server r handler h w e = ground (arith, w)

streams_only :
    (handler : Handler) → is_wrapped wrap_sse_auth handler ≡ true → handler ≡ handle_stream
streams_only handle_stream w = refl
streams_only handler w = ground (arith, w)

module _ {ℓ} {B : Type ℓ} (bucket : Bucket B) (net : Net) (server : Server) where
  rate_limited-handled :
      (r : HttpRequest) (handler h : Handler) (rate : Option (RateLimiter B))
      → (rate_limited bucket net server r handler rate).0 ≡ handled h
      → call_handler server r handler ≡ handled h
  unfolding rate_limited rate_middleware
  rate_limited-handled r handler h none e = e
  rate_limited-handled r handler h (some rl) e = (after_reply-handled _ _ h e).1

  after_auth-handled :
      (r : HttpRequest) (handler h : Handler) (checked : Reply × Option AuthFailureLimiter)
      (limits : Limits B)
      → (after_auth bucket net server r handler checked limits).0 ≡ handled h
      → (checked.0 ≡ passes) × (call_handler server r handler ≡ handled h)
  after_auth-handled r handler h (passes, failures) limits e =
      (refl, rate_limited-handled r handler h limits.rate e)
  after_auth-handled r handler h (unauthorized, failures) limits e = ground (arith, e)
  after_auth-handled r handler h (forbidden, failures) limits e = ground (arith, e)
  after_auth-handled r handler h (too_many n, failures) limits e = ground (arith, e)

  -- A call of a route, by how it is wrapped.
  call_wrapped-IsAdmitted :
      (r : HttpRequest) (method path : String) (wrap : Wrap) (handler h : Handler)
      (limits : Limits B)
      → server.auth_enabled ≡ true
      → is_wrapped wrap handler ≡ true
      → (call_route bucket net server r
          (record { method = method; path = path; wrap = wrap; handler = handler })
          limits).0
        ≡ handled h
      → (h ≡ handle_health) ⊎ IsAdmitted net server.auth r limits.failures h
  unfolding call_route
  call_wrapped-IsAdmitted r method path bare handler h limits on w e =
      inl (bare-handled server r handler h w e)
  call_wrapped-IsAdmitted r method path wrap_auth handler h limits on w e =
      let (passed, called) =
        after_auth-handled r handler h
          (basic_auth_middleware server.auth (read_request net r) net.clock limits.failures) limits
          (sym (rw on refl) ∙ e) in
      let (unlocked, login) =
        basic_auth_middleware-passes server.auth (read_request net r) net.clock limits.failures
          passed in
      inr (record { unlocked = unlocked; login = inl login })
  call_wrapped-IsAdmitted r method path wrap_sse_auth handler h limits on w e =
      let (passed, called) =
        after_auth-handled r handler h
          (sse_token_middleware server.auth (read_request net r) net.clock limits.failures) limits
          (sym (rw on refl) ∙ e) in
      let stream = streams_only handler w in
      let (unlocked, login) =
        passes-IsEntitled server.auth (read_request net r) net.clock limits.failures passed in
      inr (record {
        unlocked = unlocked;
        login = elim login [
          | inl given ↦ inl given
          | inr (claims, signed) ↦
              inr (sym (call_handler-handled server r handler h called) ∙ stream, claims, signed)
        ];
      })

  pub serve_mux-IsAdmitted :
      (r : HttpRequest) (h : Handler) (limits : Limits B)
      → server.auth_enabled ≡ true
      → (serve_mux bucket net server r limits).0 ≡ handled h
      → (h ≡ handle_health) ⊎ IsAdmitted net server.auth r limits.failures h
  unfolding serve_mux
  serve_mux-IsAdmitted r h limits on e =
      elim (Option-cases (find_route r (register_routes server))) [
        | inl nowhere ↦
            elim (Bool-cases (any (λ route. matches_path route r) (register_routes server))) [
              | inl other ↦ ground (arith, nowhere, other, e)
              | inr other ↦ ground (arith, nowhere, other, e)
            ]
        | inr (route, found) ↦
            call_wrapped-IsAdmitted r route.method route.path route.wrap route.handler h limits on
              (find_route-is_wrapped r (register_routes server) route
                (register_routes-all_wrapped server) found)
              (sym (rw (serve_mux, found) refl) ∙ e)
      ]
