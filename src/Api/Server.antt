-- ===== src/Api/Server.antt =====
-- internal/api/server.go, static.go, the other middleware of middleware.go, and the options that
-- cmd/vrclog/main.go passes: which handler a request comes to.
-- The path of a request is clean, as net/http's ServeMux makes it by a redirect.
pub mod Serve
pub mod Wrapped
pub mod Entry
use vrclog_companion.Prelude.{
  ℕ, String, Bool, true, false, not, ◌&&◌, ◌||◌, Option, none, some, List, [], ◌∷◌, ◌++◌, any,
  is_empty, str_eq, if◌then◌else◌,
}
use vrclog_companion.Event.{Time}
use vrclog_companion.Config.{Config, Secrets}
use vrclog_companion.Api.Limiter.{AuthFailureLimiter, default_limiter}
use vrclog_companion.Api.Rate.{
  RateLimiter, Bucket, new_rate_limiter, default_cleanup_interval, extract_ip, rate_middleware,
}
use vrclog_companion.Api.Token.{Kit}
use vrclog_companion.Api.Guard.{
  Request, Reply, passes, unauthorized, forbidden, too_many, Auth, Clock, csrf_middleware,
  lan_hosts, basic_auth_middleware, sse_token_middleware,
}

pub record CorsConfig : Type 0 where
  pub allowed_origins : List String
  pub allow_credentials : Bool

-- The headers, and the status with which a preflight request ends here.
unfoldable pub cors_middleware : CorsConfig → Request → List (String × String) × Option ℕ
cors_middleware cfg r =
    let allowed = any (λ o. str_eq o r.origin) cfg.allowed_origins in
    let credentials : List (String × String) =
      if cfg.allow_credentials then ("Access-Control-Allow-Credentials", "true") ∷ [] else [] in
    let headers : List (String × String) =
      if allowed
      then ("Access-Control-Allow-Origin", r.origin)
        ∷ ("Vary", "Origin")
        ∷ ("Access-Control-Allow-Methods", "GET, POST, PUT, OPTIONS")
        ∷ ("Access-Control-Allow-Headers", "Authorization, Content-Type")
        ∷ credentials
      else [] in
    if str_eq r.method "OPTIONS"
    then if allowed
      then (headers ++ ("Access-Control-Max-Age", "86400") ∷ [], some 204)
      else (headers, some 403)
    else (headers, none)

abbrev pub security_headers : List (String × String)
security_headers =
    ("X-Content-Type-Options", "nosniff")
    ∷ ("X-Frame-Options", "DENY")
    ∷ ("Referrer-Policy", "strict-origin-when-cross-origin")
    ∷ (
      "Content-Security-Policy",
      "default-src 'self'; script-src 'self'; style-src 'self' 'unsafe-inline'; img-src 'self' data:; connect-src 'self'; font-src 'self'; base-uri 'none'; frame-ancestors 'none'; form-action 'self'",
    )
    ∷ ("Permissions-Policy", "geolocation=(), microphone=(), camera=()")
    ∷ ("Cross-Origin-Opener-Policy", "same-origin")
    ∷ ("Cross-Origin-Resource-Policy", "same-origin")
    ∷ []

pub data Handler : Type 0 where
  handle_health handle_events handle_now handle_stats handle_stream : Handler
  handle_auth_token handle_get_config handle_put_config serve_static : Handler

-- Not wrapped, by `wrapAuth`, or by `wrapSSEAuth`.
pub data Wrap : Type 0 where
  bare wrap_auth wrap_sse_auth : Wrap

-- A pattern of the mux: the method is "" for any, and "/" is the pattern of every path.
pub record Route : Type 0 where
  pub method : String
  pub path : String
  pub wrap : Wrap
  pub handler : Handler

-- The embedded files: what `Open` finds, and whether index.html can be read.
pub record WebFs : Type 0 where
  pub opens : String → Bool
  pub has_index : Bool

-- Which use cases and middleware are configured.
pub record Server : Type 0 where
  pub has_events : Bool
  pub has_state : Bool
  pub has_stats : Bool
  pub has_cfg : Bool
  pub has_hub : Bool
  pub auth_enabled : Bool
  pub auth : Auth
  pub web_fs : Option WebFs
  pub cors_config : Option CorsConfig
  pub csrf_allowed_hosts : List String

-- The limiters are `none` where they are not configured.
pub record Limits {ℓ} (B : Type ℓ) : Type ℓ where
  pub rate : Option (RateLimiter B)
  pub failures : Option AuthFailureLimiter

abbrev pub route_if : Bool → Route → List Route → List Route
route_if condition route rest = if condition then route ∷ rest else rest

abbrev pub has_web : Server → Bool
has_web server = elim server.web_fs [ none ↦ false | some web ↦ true ]

abbrev route : String → String → Wrap → Handler → Route
route method path wrap handler = record {
  method = method;
  path = path;
  wrap = wrap;
  handler = handler;
}

abbrev pub health_route : Route
health_route = route "GET" "/api/v1/health" bare handle_health

abbrev pub events_route : Route
events_route = route "GET" "/api/v1/events" wrap_auth handle_events

abbrev pub now_route : Route
now_route = route "GET" "/api/v1/now" wrap_auth handle_now

abbrev pub stats_route : Route
stats_route = route "GET" "/api/v1/stats/basic" wrap_auth handle_stats

abbrev pub stream_route : Route
stream_route = route "GET" "/api/v1/stream" wrap_sse_auth handle_stream

abbrev pub auth_token_route : Route
auth_token_route = route "POST" "/api/v1/auth/token" wrap_auth handle_auth_token

abbrev pub get_config_route : Route
get_config_route = route "GET" "/api/v1/config" wrap_auth handle_get_config

abbrev pub put_config_route : Route
put_config_route = route "PUT" "/api/v1/config" wrap_auth handle_put_config

abbrev pub static_route : Route
static_route = route "" "/" bare serve_static

unfoldable pub register_routes : Server → List Route
register_routes s =
    health_route
    ∷ route_if s.has_events events_route (
        route_if s.has_state now_route (
          route_if s.has_stats stats_route (
            route_if (s.has_hub && s.has_events) stream_route (
              route_if (not (is_empty s.auth.sse_secret)) auth_token_route (
                route_if s.has_cfg get_config_route
                  (route_if s.has_cfg put_config_route (route_if (has_web s) static_route [])))))))

-- What the server reads of a request; "" is an absent header or parameter.
pub record HttpRequest : Type 0 where
  pub method : String
  pub path : String
  pub origin : String
  pub referer : String
  pub remote_addr : String
  pub basic : Option (String × String)
  pub token : String

-- A pattern for GET matches HEAD too.
abbrev pub matches_method : Route → HttpRequest → Bool
matches_method route r =
    is_empty route.method
    || str_eq route.method r.method
    || (str_eq route.method "GET" && str_eq r.method "HEAD")

abbrev pub matches_path : Route → HttpRequest → Bool
matches_path route r = str_eq route.path "/" || str_eq route.path r.path

-- The match of the mux: two routes match one request only where one is "/", the least specific, which
-- is registered last.
unfoldable pub find_route : HttpRequest → List Route → Option Route
find_route r [] = none
find_route r (route ∷ routes) =
    if matches_path route r && matches_method route r then some route else find_route r routes

-- What static.go does: it passes the path on to net/http's file server, which serves the file there or
-- redirects to its other name; or it serves index.html in place of a file, or an error.
pub data Page : Type 0 where
  file_server : String → Page
  index no_page : Page

abbrev pub trim_slash : String → String
trim_slash String.[] = ""
trim_slash (String.◌∷◌ c s) = if str_eq (String.◌∷◌ c String.[]) "/" then s else String.◌∷◌ c s

unfoldable pub spa_handler : WebFs → String → Page
spa_handler web path =
    let name = if is_empty (trim_slash path) then "index.html" else trim_slash path in
    if web.opens name then file_server path else if web.has_index then index else no_page

pub data Outcome : Type 0 where
  handled : Handler → Outcome
  page : Page → Outcome
  refused : Reply → Outcome
  preflight : ℕ → Outcome
  not_found method_not_allowed : Outcome

abbrev pub call_handler : Server → HttpRequest → Handler → Outcome
call_handler server r serve_static = elim server.web_fs [
  | none ↦ not_found
  | some web ↦ page (spa_handler web r.path)
]
call_handler server r handler = handled handler

abbrev pub after_reply {ℓ} : {A : Type ℓ} → Reply → A → (Reply → A) → A
after_reply passes next refuse = next
after_reply reply next refuse = refuse reply

-- What the code asks net/url and net, and the clock: at the checks of the log-in, and at the limit.
pub record Net : Type 0 where
  pub parse_host : String → Option String
  pub split_host_port : String → Option String
  pub clock : Clock
  pub allowed : Time

abbrev pub read_request : Net → HttpRequest → Request
read_request net r = record {
  method = r.method;
  origin = r.origin;
  referer = r.referer;
  ip = extract_ip net.split_host_port r.remote_addr;
  basic = r.basic;
  token = r.token;
}
