-- ===== src/Api/Server/Wrapped.antt =====
-- How the routes of internal/api/server.go are wrapped.
use vrclog_companion.Prelude.{
  ◌≡◌, refl, sym, ◌∙◌, Bool, true, false, not, ◌&&◌, some, List, [], ◌∷◌, is_empty, arith,
  Bool-cases, inl, inr,
}
use vrclog_companion.Api.Server.{
  Handler, handle_health, handle_stream, serve_static, Wrap, bare, wrap_auth, wrap_sse_auth, Route,
  Server, route_if, has_web, register_routes, HttpRequest, matches_method, matches_path, find_route,
}

-- Only the health check and the files are not wrapped, and only the stream takes a token.
abbrev pub is_wrapped : Wrap → Handler → Bool
is_wrapped bare handle_health = true
is_wrapped bare serve_static = true
is_wrapped wrap_auth _ = true
is_wrapped wrap_sse_auth handle_stream = true
is_wrapped _ _ = false

abbrev pub all_wrapped : List Route → Bool
all_wrapped [] = true
all_wrapped (route ∷ routes) = is_wrapped route.wrap route.handler && all_wrapped routes

route_if-all_wrapped :
    (b : Bool) (route : Route) (rest : List Route)
    → is_wrapped route.wrap route.handler ≡ true
    → all_wrapped rest ≡ true
    → all_wrapped (route_if b route rest) ≡ true
route_if-all_wrapped true route rest h k = rw (h, k) refl
route_if-all_wrapped false route rest h k = k

pub register_routes-all_wrapped : (s : Server) → all_wrapped (register_routes s) ≡ true
unfolding register_routes
register_routes-all_wrapped s =
    let w = route_if-all_wrapped (has_web s) _ [] refl refl in
    let c = route_if-all_wrapped s.has_cfg _ _ refl w in
    let d = route_if-all_wrapped s.has_cfg _ _ refl c in
    let t = route_if-all_wrapped (not (is_empty s.auth.sse_secret)) _ _ refl d in
    let h = route_if-all_wrapped (s.has_hub && s.has_events) _ _ refl t in
    let u = route_if-all_wrapped s.has_stats _ _ refl h in
    let n = route_if-all_wrapped s.has_state _ _ refl u in
    route_if-all_wrapped s.has_events _ _ refl n

pub find_route-is_wrapped :
    (r : HttpRequest) (routes : List Route) (route : Route)
    → all_wrapped routes ≡ true
    → find_route r routes ≡ some route
    → is_wrapped route.wrap route.handler ≡ true
unfolding find_route
find_route-is_wrapped r [] route h k = ground (arith, k)
find_route-is_wrapped r (x ∷ routes) route h k =
    elim (Bool-cases (matches_path x r && matches_method x r)) [
      | inl here ↦
          let same : some x ≡ some route = sym (rw here refl) ∙ k in ground (arith, same, h)
      | inr there ↦
          find_route-is_wrapped r routes route (ground (arith, h)) (sym (rw there refl) ∙ k)
    ]
