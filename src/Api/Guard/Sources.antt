-- ===== src/Api/Guard/Sources.antt =====
-- From where a page may change something, by internal/api/middleware.go and cmd/vrclog/main.go.
use Prim.Native.Char.{Char, nul}
use Prim.Native.String.{◌++◌ as append}
use Prim.Native.String.append
use vrclog_companion.Prelude.{
  ◌≡◌, ap, ◌∙◌, String, Bool, false, not, ◌||◌, Option, none, some, List, [], ◌∷◌, any, is_empty,
  str_eq, arith, if◌then◌else◌, Option-cases, inl, inr,
}
use vrclog_companion.Api.Guard.{
  Request, passes, forbidden, before_colon, without_port, is_allowed_host, is_state_changing,
  check_source, csrf_middleware, lan_hosts,
}

abbrev first_char : String → Char
first_char String.[] = nul
first_char (String.◌∷◌ c s) = c

before_colon-append :
    (a b : String) → before_colon b ≡ none → before_colon (append a (append ":" b)) ≡ some a
before_colon-append String.[] b h =
    ap before_colon (append.nil (append ":" b))
    ∙ ap before_colon (append.cons (first_char ":") "" b)
    ∙ ap (λ t. before_colon (String.◌∷◌ (first_char ":") t)) (append.nil b)
    ∙ ground (arith, h)
before_colon-append (String.◌∷◌ c a) b h =
    ap before_colon (append.cons c a (append ":" b)) ∙ ground (arith, before_colon-append a b h)

-- The host that the request names as its source.
abbrev pub source_host : (String → Option String) → Request → Option String
source_host parse_host r =
    if not (is_empty r.origin)
    then parse_host r.origin
    else if not (is_empty r.referer)
    then parse_host r.referer
    else none

abbrev pub own_hosts : List String
own_hosts = "localhost" ∷ "127.0.0.1" ∷ "::1" ∷ "0.0.0.0" ∷ []

abbrev pub is_own : Option String → Bool
is_own none = false
is_own (some host) = any (str_eq (without_port host)) own_hosts

is_allowed_host-own :
    (port host : String)
    → before_colon port ≡ none
    → is_allowed_host host (lan_hosts port) ≡ is_own (some host)
unfolding is_allowed_host
is_allowed_host-own port host h = ground (arith, before_colon-append "0.0.0.0" port h)

check_source-own :
    (parse_host : String → Option String) (port source : String)
    → before_colon port ≡ none
    → check_source parse_host (lan_hosts port) source
      ≡ (if is_own (parse_host source) then passes else forbidden)
check_source-own parse_host port source h = elim (Option-cases (parse_host source)) [
  | inl e ↦ ground (arith, e)
  | inr (host, e) ↦ ground (arith, e, is_allowed_host-own port host h)
]

-- In LAN mode, for a port without a colon, a request passes the check exactly if its method changes
-- nothing, or if the host of its Origin, or of its Referer where it has no Origin, is, without its
-- port, localhost, 127.0.0.1, ::1 or 0.0.0.0. The address that others in the network reach the page at
-- is none of these.
pub csrf_middleware-lan :
    (parse_host : String → Option String) (port : String) (r : Request)
    → before_colon port ≡ none
    → csrf_middleware parse_host (lan_hosts port) r ≡ (
        if not (is_state_changing r.method) || is_own (source_host parse_host r)
        then passes
        else forbidden)
unfolding csrf_middleware
csrf_middleware-lan parse_host port r h =
    let o = check_source-own parse_host port r.origin h in
    let p = check_source-own parse_host port r.referer h in ground (arith, o, p)
