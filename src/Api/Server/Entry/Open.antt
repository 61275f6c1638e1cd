-- ===== src/Api/Server/Entry/Open.antt =====
-- What the log-in and the rate limit of internal/api/server.go leave open.
use vrclog_companion.Prelude.{
  ◌≡◌, refl, String, Bool, true, false, not, ◌&&◌, some, List, [], ◌∷◌, any, is_empty, str_eq,
  arith, List-cases, inl, inr,
}
use vrclog_companion.Config.{Config, Secrets}
use vrclog_companion.Api.Rate.{Bucket}
use vrclog_companion.Api.Token.{Kit}
use vrclog_companion.Api.Guard.{passes, is_state_changing, csrf_middleware}
use vrclog_companion.Api.Server.{
  Route, WebFs, Server, Limits, route_if, has_web, health_route, events_route, now_route,
  stats_route, stream_route, auth_token_route, get_config_route, put_config_route, static_route,
  register_routes, HttpRequest, matches_path, find_route, spa_handler, page, Net,
}
use vrclog_companion.Api.Server.Serve.{
  main_server, call_route, serve_mux, check_csrf, serve_checked, serve,
}

abbrev pub api_paths : List String
api_paths =
    "/api/v1/health" ∷ "/api/v1/events" ∷ "/api/v1/now" ∷ "/api/v1/stats/basic" ∷ "/api/v1/stream"
    ∷ "/api/v1/auth/token" ∷ "/api/v1/config" ∷ []

find_route-route_if :
    (r : HttpRequest) (b : Bool) (route x : Route) (rest : List Route)
    → matches_path route r ≡ false
    → find_route r rest ≡ some x
    → find_route r (route_if b route rest) ≡ some x
unfolding find_route
find_route-route_if r true route x rest h k = rw h k
find_route-route_if r false route x rest h k = k

find_route-static :
    (server : Server) (web : WebFs) (r : HttpRequest)
    → server.web_fs ≡ some web
    → any (λ path. str_eq path r.path) api_paths ≡ false
    → find_route r (register_routes server) ≡ some static_route
unfolding find_route register_routes
find_route-static server web r there other =
    let health : str_eq "/api/v1/health" r.path ≡ false = ground (arith, other) in
    let events : str_eq "/api/v1/events" r.path ≡ false = ground (arith, other) in
    let now : str_eq "/api/v1/now" r.path ≡ false = ground (arith, other) in
    let stats : str_eq "/api/v1/stats/basic" r.path ≡ false = ground (arith, other) in
    let stream : str_eq "/api/v1/stream" r.path ≡ false = ground (arith, other) in
    let token : str_eq "/api/v1/auth/token" r.path ≡ false = ground (arith, other) in
    let config : str_eq "/api/v1/config" r.path ≡ false = ground (arith, other) in
    let files : List Route = route_if (has_web server) static_route [] in
    let last : find_route r files ≡ some static_route = rw there refl in
    let p = find_route-route_if r server.has_cfg put_config_route static_route files config last in
    let with_p : List Route = route_if server.has_cfg put_config_route files in
    let g = find_route-route_if r server.has_cfg get_config_route static_route with_p config p in
    let with_g : List Route = route_if server.has_cfg get_config_route with_p in
    let t =
      find_route-route_if r (not (is_empty server.auth.sse_secret)) auth_token_route static_route
        with_g token g in
    let with_t : List Route =
      route_if (not (is_empty server.auth.sse_secret)) auth_token_route with_g in
    let o =
      find_route-route_if r (server.has_hub && server.has_events) stream_route static_route with_t
        stream t in
    let with_o : List Route = route_if (server.has_hub && server.has_events) stream_route with_t in
    let u = find_route-route_if r server.has_stats stats_route static_route with_o stats o in
    let with_u : List Route = route_if server.has_stats stats_route with_o in
    let n = find_route-route_if r server.has_state now_route static_route with_u now u in
    let with_n : List Route = route_if server.has_state now_route with_u in
    let e = find_route-route_if r server.has_events events_route static_route with_n events n in
    let with_e : List Route = route_if server.has_events events_route with_n in
    find_route-route_if r true health_route static_route with_e health e

check_csrf-reads :
    (net : Net) (server : Server) (r : HttpRequest)
    → is_state_changing r.method ≡ false
    → check_csrf net server r ≡ passes
unfolding check_csrf csrf_middleware
check_csrf-reads net server r reads = elim (List-cases server.csrf_allowed_hosts) [
  | inl without ↦ rw without refl
  | inr (host, hosts, there) ↦ rw (there, reads) refl
]

module _ {ℓ} {B : Type ℓ} (bucket : Bucket B) (net : Net) (server : Server) where
  serve_mux-static :
      (web : WebFs) (r : HttpRequest) (limits : Limits B)
      → server.web_fs ≡ some web
      → any (λ path. str_eq path r.path) api_paths ≡ false
      → serve_mux bucket net server r limits ≡ (page (spa_handler web r.path), limits)
  unfolding serve_mux call_route
  serve_mux-static web r limits there other =
      rw (serve_mux, find_route-static server web r there other, there) refl

-- For any settings, with any limiters and whatever credentials it gives, a request whose method changes
-- nothing and whose path is no route of the API gets the page of that path: a file, or index.html in
-- its place. No limiter is changed, and an address that is locked out gets it too.
pub serve-page {ℓ} :
    {B : Type ℓ} (bucket : Bucket B) (net : Net) (cfg : Config) (secrets : Secrets) (port : String)
    (sha256 : String → String) (kit : Kit) (web : WebFs) (r : HttpRequest) (limits : Limits B)
    → is_state_changing r.method ≡ false
    → any (λ path. str_eq path r.path) api_paths ≡ false
    → let (response, limits') =
        serve bucket net (main_server cfg secrets port sha256 kit (some web)) r limits in
      (response.outcome ≡ page (spa_handler web r.path)) × (limits' ≡ limits)
unfolding serve serve_checked
serve-page bucket net cfg secrets port sha256 kit web r limits reads other =
    let server = main_server cfg secrets port sha256 kit (some web) in
    let checked = check_csrf-reads net server r reads in
    let found = serve_mux-static bucket net server web r limits refl other in
    (rw (checked, found) refl, rw (checked, found) refl)
