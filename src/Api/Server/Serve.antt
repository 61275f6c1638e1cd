-- ===== src/Api/Server/Serve.antt =====
-- The handler that `NewServer` of internal/api/server.go builds, and the server of cmd/vrclog/main.go.
use vrclog_companion.Prelude.{
  ℕ, String, true, not, ◌&&◌, Option, none, some, List, [], ◌∷◌, ◌++◌, any, is_empty, if◌then◌else◌,
}
use vrclog_companion.Config.{Config, Secrets}
use vrclog_companion.Api.Limiter.{AuthFailureLimiter, default_limiter}
use vrclog_companion.Api.Rate.{
  RateLimiter, Bucket, new_rate_limiter, default_cleanup_interval, rate_middleware,
}
use vrclog_companion.Api.Token.{Kit}
use vrclog_companion.Api.Guard.{
  Request, Reply, passes, csrf_middleware, lan_hosts, basic_auth_middleware, sse_token_middleware,
}
use vrclog_companion.Api.Server.{
  cors_middleware, security_headers, Handler, bare, wrap_auth, wrap_sse_auth, Route, WebFs, Server,
  Limits, register_routes, HttpRequest, matches_path, find_route, Outcome, refused, preflight,
  not_found, method_not_allowed, call_handler, after_reply, Net, read_request,
}

pub record Response : Type 0 where
  pub headers : List (String × String)
  pub outcome : Outcome

-- The options of `main`; `port` is written in digits. `WithBasicAuth` wants both parts of the log-in.
abbrev pub main_server : Config → Secrets → String → (String → String) → Kit → Option WebFs → Server
main_server cfg secrets port sha256 kit web = record {
  has_events = true;
  has_state = true;
  has_stats = true;
  has_cfg = true;
  has_hub = true;
  auth_enabled =
      cfg.lan_enabled
      && (not (is_empty secrets.basic_auth_username) && not (is_empty secrets.basic_auth_password));
  auth = record {
    username = secrets.basic_auth_username;
    password = secrets.basic_auth_password;
    sse_secret = secrets.sse_hmac_secret;
    sha256 = sha256;
    kit = kit;
  };
  web_fs = web;
  cors_config = none;
  csrf_allowed_hosts = if cfg.lan_enabled then lan_hosts port else [];
}

abbrev pub main_limits {ℓ} : {B : Type ℓ} → Bucket B → Config → Limits B
main_limits bucket cfg =
    if cfg.lan_enabled
    then record {
      rate = some (new_rate_limiter bucket default_cleanup_interval);
      failures = some default_limiter;
    }
    else record { rate = none; failures = none }

-- A path that is registered for other methods only is a 405.
abbrev pub no_route : Server → HttpRequest → Outcome
no_route server r =
    if any (λ route. matches_path route r) (register_routes server)
    then method_not_allowed
    else not_found

-- The CSRF check, where hosts are configured.
unfoldable pub check_csrf : Net → Server → HttpRequest → Reply
check_csrf net server r = elim server.csrf_allowed_hosts [
  | [] ↦ passes
  | host ∷ hosts ↦ csrf_middleware net.parse_host (host ∷ hosts) (read_request net r)
]

abbrev pub cors_of : Server → Request → List (String × String) × Option ℕ
cors_of server r = elim server.cors_config [ none ↦ ([], none) | some cfg ↦ cors_middleware cfg r ]

module _ {ℓ} {B : Type ℓ} (bucket : Bucket B) (net : Net) (server : Server) where
  -- The handler inside the rate limiter's middleware.
  unfoldable pub rate_limited :
      HttpRequest → Handler → Option (RateLimiter B) → Outcome × Option (RateLimiter B)
  rate_limited r handler none = (call_handler server r handler, none)
  rate_limited r handler (some rl) =
      let (reply, rl') = rate_middleware bucket net.split_host_port r.remote_addr net.allowed rl in
      (after_reply reply (call_handler server r handler) refused, some rl')

  -- After the check of the log-in, which is outside.
  abbrev pub after_auth :
      HttpRequest → Handler → Reply × Option AuthFailureLimiter → Limits B → Outcome × Limits B
  after_auth r handler (passes, failures) limits =
      let (outcome, rate) = rate_limited r handler limits.rate in
      (outcome, record { rate = rate; failures = failures })
  after_auth r handler (reply, failures) limits =
      (refused reply, record limits { failures = failures })

  -- `wrapAuth` and `wrapSSEAuth`.
  unfoldable pub call_route : HttpRequest → Route → Limits B → Outcome × Limits B
  call_route r route limits = elim route.wrap [
    | bare ↦ (call_handler server r route.handler, limits)
    | wrap_auth ↦
        after_auth r route.handler
          (if server.auth_enabled
            then basic_auth_middleware server.auth (read_request net r) net.clock limits.failures
            else (passes, limits.failures))
          limits
    | wrap_sse_auth ↦
        after_auth r route.handler
          (if server.auth_enabled
            then sse_token_middleware server.auth (read_request net r) net.clock limits.failures
            else (passes, limits.failures))
          limits
  ]

  unfoldable pub serve_mux : HttpRequest → Limits B → Outcome × Limits B
  serve_mux r limits = elim (find_route r (register_routes server)) [
    | none ↦ (no_route server r, limits)
    | some route ↦ call_route r route limits
  ]

  unfoldable pub serve_checked : HttpRequest → Limits B → Outcome × Limits B
  serve_checked r limits =
      after_reply (check_csrf net server r) (serve_mux r limits) (λ reply. (refused reply, limits))

  -- Security headers, then CORS, then CSRF, then the mux.
  unfoldable pub serve : HttpRequest → Limits B → Response × Limits B
  serve r limits =
      let (headers, ended) = cors_of server (read_request net r) in
      let (outcome, limits') = serve_checked r limits in
      elim ended [
        | some status ↦
            (record { headers = security_headers ++ headers; outcome = preflight status }, limits)
        | none ↦ (record { headers = security_headers ++ headers; outcome = outcome }, limits')
      ]
