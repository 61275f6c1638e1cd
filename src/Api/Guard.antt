-- ===== src/Api/Guard.antt =====
-- internal/api/middleware.go: which requests get through to a handler.
-- `passes` stands for the call of the next handler, and a refusal for its status; `Retry-After` is kept.
-- The limiter is `none` where it is not configured.
pub mod Sources
pub mod Streams
use vrclog_companion.Prelude.{
  ℕ, zero, suc, ℤ, pos, negsuc, String, Bool, true, false, not, ◌&&◌, ◌||◌, Option, none, some,
  List, [], ◌∷◌, any, is_empty, str_eq, if◌then◌else◌, ◌⊎◌, inl, inr,
}
use Prim.Native.String.{◌++◌ as append}
use vrclog_companion.Event.{Time}
use vrclog_companion.Api.Limiter.{
  AuthFailureLimiter, is_locked, lockout_seconds_remaining, record_failure, record_success,
}
use vrclog_companion.Api.Token.{Kit, Claims, TokenError, scope_sse, validate_token}

-- What the middleware reads of a request; "" is an absent header or parameter.
pub record Request : Type 0 where
  pub method : String
  pub origin : String
  pub referer : String
  pub ip : String
  pub basic : Option (String × String)
  pub token : String

pub data Reply : Type 0 where
  passes unauthorized forbidden : Reply
  too_many : ℕ → Reply

-- `s[:strings.LastIndex(s, ":")]`, where there is one.
abbrev pub before_colon : String → Option String
before_colon String.[] = none
before_colon (String.◌∷◌ c s) =
    let rest = before_colon s in
    elim rest [
      | some t ↦ some (String.◌∷◌ c t)
      | none ↦ if str_eq (String.◌∷◌ c String.[]) ":" then some "" else none
    ]

abbrev pub without_port : String → String
without_port host = elim (before_colon host) [ some h ↦ h | none ↦ host ]

unfoldable pub is_allowed_host : String → List String → Bool
is_allowed_host host allowed_hosts =
    let h = without_port host in
    if str_eq h "localhost" || (str_eq h "127.0.0.1" || str_eq h "::1")
    then true
    else any (λ allowed. str_eq h (without_port allowed)) allowed_hosts

abbrev pub is_state_changing : String → Bool
is_state_changing method = str_eq method "POST" || (str_eq method "PUT" || str_eq method "DELETE")

-- `parse_host` is the host that `url.Parse` finds.
abbrev pub check_source : (String → Option String) → List String → String → Reply
check_source parse_host allowed_hosts source = elim (parse_host source) [
  | none ↦ forbidden
  | some host ↦ if is_allowed_host host allowed_hosts then passes else forbidden
]

unfoldable pub csrf_middleware : (String → Option String) → List String → Request → Reply
csrf_middleware parse_host allowed_hosts r =
    if not (is_state_changing r.method)
    then passes
    else if not (is_empty r.origin)
    then check_source parse_host allowed_hosts r.origin
    else if not (is_empty r.referer)
    then check_source parse_host allowed_hosts r.referer
    else forbidden

-- The allowed hosts that cmd/vrclog/main.go passes for LAN mode, for the digits of a port.
abbrev pub lan_hosts : String → List String
lan_hosts port = append "0.0.0.0" (append ":" port) ∷ []

-- The clock, at the check, at the record of a failure, at the wait that is announced for it, and at the
-- validation of a token.
pub record Clock : Type 0 where
  pub checked : Time
  pub failed : Time
  pub waited : Time
  pub validated : Time

-- What the middleware is made with; `sha256` is the hash of constantTimeEqualString.
pub record Auth : Type 0 where
  pub username : String
  pub password : String
  pub sse_secret : String
  pub sha256 : String → String
  pub kit : Kit

abbrev pub constant_time_equal_string : (String → String) → String → String → Bool
constant_time_equal_string sha256 a b = str_eq (sha256 a) (sha256 b)

-- `RecordFailure`, and what is answered.
abbrev pub refuse : String → Clock → Option AuthFailureLimiter → Reply × Option AuthFailureLimiter
refuse ip clock none = (unauthorized, none)
refuse ip clock (some afl) =
    let (afl', left) = record_failure ip clock.failed afl in
    elim left [
      | pos n ↦ (unauthorized, some afl')
      | negsuc n ↦ (too_many (lockout_seconds_remaining ip clock.waited afl'), some afl')
    ]

abbrev pub record_failure_in :
    String → Clock → Option AuthFailureLimiter → Option AuthFailureLimiter
record_failure_in ip clock none = none
record_failure_in ip clock (some afl) = some (record_failure ip clock.failed afl).0

abbrev pub record_success_in : String → Option AuthFailureLimiter → Option AuthFailureLimiter
record_success_in ip none = none
record_success_in ip (some afl) = some (record_success ip afl)

-- The wait of an address that is locked.
abbrev pub locked_for : String → Clock → Option AuthFailureLimiter → Option ℕ
locked_for ip clock none = none
locked_for ip clock (some afl) =
    if is_locked ip clock.checked afl
    then some (lockout_seconds_remaining ip clock.checked afl)
    else none

module _ (auth : Auth) where
  -- `usernameMatch && passwordMatch`.
  unfoldable pub is_match : String × String → Bool
  is_match (u, p) =
      constant_time_equal_string auth.sha256 u auth.username
      && constant_time_equal_string auth.sha256 p auth.password

  unfoldable pub basic_auth_middleware :
      Request → Clock → Option AuthFailureLimiter → Reply × Option AuthFailureLimiter
  basic_auth_middleware r clock afl = elim (locked_for r.ip clock afl) [
    | some seconds ↦ (too_many seconds, afl)
    | none ↦ elim r.basic [
      | none ↦ (unauthorized, record_failure_in r.ip clock afl)
      | some given ↦
          if is_match given then (passes, record_success_in r.ip afl) else refuse r.ip clock afl
    ]
  ]

  abbrev pub is_given : Option (String × String) → Bool
  is_given none = false
  is_given (some given) = is_match given

  abbrev pub is_valid : Claims ⊎ TokenError → Bool
  is_valid (inl claims) = true
  is_valid (inr x) = false

  unfoldable pub is_token : String → Time → Bool
  is_token token now =
      not (is_empty token)
      && not (is_empty auth.sse_secret)
      && is_valid (validate_token auth.kit token auth.sse_secret scope_sse now)

  unfoldable pub sse_token_middleware :
      Request → Clock → Option AuthFailureLimiter → Reply × Option AuthFailureLimiter
  sse_token_middleware r clock afl = elim (locked_for r.ip clock afl) [
    | some seconds ↦ (too_many seconds, afl)
    | none ↦
        if is_given r.basic
        then (passes, record_success_in r.ip afl)
        else if is_token r.token clock.validated
        then (passes, afl)
        else refuse r.ip clock afl
  ]
