-- ===== src/Tests/Guarding.antt =====
-- Tokens and the checks of internal/api/middleware.go, with a kit that is no real hash.
use vrclog_companion.Prelude.{
  arith, ◌+◌, ◌/◌, ◌≡◌, refl, String, some, none, Option, inl, inr, leb, not, ◌||◌, str_eq,
  if◌then◌else◌,
}
use vrclog_companion.Api.Token.{
  second, default_ttl, new_claims, generate_token, validate_token, read_payload, check_signature,
  invalid_scope, token_expired, unix,
}
use vrclog_companion.Api.Token.Signed.{validate_token-generate_token}
use vrclog_companion.Api.Guard.{
  Request, Clock, Auth, passes, forbidden, csrf_middleware, lan_hosts, sse_token_middleware,
  is_state_changing, is_token, is_match, is_allowed_host,
}
use vrclog_companion.Api.Guard.Sources.{is_own, source_host, csrf_middleware-lan}
use vrclog_companion.Api.Auth.{issued, handle_auth_token}
use vrclog_companion.Api.Auth.Issued.{issued_passes}
use vrclog_companion.Tests.Kits.{plain_kit, plain_kit-IsKit}

program : Unit {0}
unfolding generate_token validate_token read_payload check_signature sse_token_middleware is_token
    is_match is_allowed_host csrf_middleware unix
program = tt

validate_token-generate_token_example :
    (token : String) × (generate_token plain_kit "key" "sse" 7 ≡ inl token)
    × (validate_token plain_kit token "key" "sse" 9 ≡ (
        if leb (9 / second) ((7 + default_ttl) / second)
        then if str_eq "sse" "sse" then inl (new_claims plain_kit "sse" 7) else inr invalid_scope
        else inr token_expired))
validate_token-generate_token_example =
    validate_token-generate_token plain_kit "key" "sse" "sse" 7 9 plain_kit-IsKit refl

-- The host is what comes after the scheme.
abbrev host_of : String → Option String
host_of s = if str_eq s "http://192.168.1.5:8080" then some "192.168.1.5:8080" else none

-- A page at an address of the network asks for a token.
abbrev from_network : Request
from_network = record {
  method = "POST";
  origin = "http://192.168.1.5:8080";
  referer = "";
  ip = "192.168.1.9";
  basic = some ("user", "right");
  token = "";
}

csrf_middleware-lan_example : csrf_middleware host_of (lan_hosts "8080") from_network ≡ (
    if not (is_state_changing from_network.method) || is_own (source_host host_of from_network)
    then passes
    else forbidden)
csrf_middleware-lan_example = csrf_middleware-lan host_of "8080" from_network refl

from_network_forbidden : csrf_middleware host_of (lan_hosts "8080") from_network ≡ forbidden
unfolding program
from_network_forbidden = refl

abbrev auth : Auth
auth = record {
  username = "user";
  password = "right";
  sse_secret = "key";
  sha256 = λ s. s;
  kit = plain_kit;
}

abbrev clock : Clock
clock = record { checked = 9; failed = 9; waited = 9; validated = 9 }

issued_passes_example :
    (token : String) × (handle_auth_token plain_kit "key" 7 ≡ issued token 300)
    × ((sse_token_middleware auth (record from_network { token = token }) clock none).0 ≡ passes)
issued_passes_example =
    issued_passes auth from_network clock none 7 plain_kit-IsKit refl refl (omega arith)
