-- ===== src/Api/Auth.antt =====
-- internal/api/auth.go: a page that has logged in asks for a token for its stream.
pub mod Issued
use vrclog_companion.Prelude.{ℕ, ◌/◌, String, Bool, if◌then◌else◌, is_empty, ◌⊎◌, inl, inr}
use vrclog_companion.Event.{Time}
use vrclog_companion.Api.Token.{Kit, TokenError, generate_token, scope_sse, default_ttl, second}

pub data TokenAnswer : Type 0 where
  not_configured failed : TokenAnswer
  issued : String → ℕ → TokenAnswer

abbrev pub answer_of : String ⊎ TokenError → TokenAnswer
answer_of (inl token) = issued token (default_ttl / second)
answer_of (inr reason) = failed

-- `handleAuthToken`, at a time.
unfoldable pub handle_auth_token : Kit → String → Time → TokenAnswer
handle_auth_token kit sse_secret now =
    if is_empty sse_secret
    then not_configured
    else answer_of (generate_token kit sse_secret scope_sse now)
