-- ===== src/Client/Requests.antt =====
-- The methods of `ApiClient` in web/src/api/client.ts: the request that each makes, and what it
-- makes of the answer. `btoa`, `URLSearchParams.toString` and the printing of numbers are the
-- browser's, and are parameters; what `fetch` answers is an argument.
use Prim.Native.String.{◌++◌ as append}
use mathlib.Core.List.{◌++◌}
use vrclog_companion.Prelude.{
  ℕ, String, Bool, Option, none, some, List, [], ◌∷◌, is_empty, is_truthy, ◌==◌, text_or_empty,
  if◌then◌else◌,
}

pub record Credentials : Type 0 where
  pub username : String
  pub password : String

pub record ApiClient : Type 0 where
  pub credentials : Option Credentials

-- What an async method ends in: a value, or the message of the error that it throws.
pub data Outcome {ℓ} (A : Type ℓ) : Type ℓ where
  resolved : A → Outcome A
  thrown : String → Outcome A

infixl 5 ◌>>=◌
abbrev pub ◌>>=◌ {ℓ κ} : {A : Type ℓ} {B : Type κ} → Outcome A → (A → Outcome B) → Outcome B
resolved a >>= f = f a
thrown e >>= f = thrown e

abbrev pub Headers : Type 0
Headers = List (String × String)

pub record Request : Type 0 where
  pub method : String
  pub url : String
  pub headers : Headers
  pub body : Option String

-- The answer to a request: the status, what `res.json()` gives, and the `error` field that it has
-- where the status is not a good one.
pub record Response {ℓ} (A : Type ℓ) : Type ℓ where
  pub is_ok : Bool
  pub status : ℕ
  pub json : Outcome A
  pub error_json : Outcome (Option String)

-- What `fetch` ends in: an answer, or a rejection with its message.
pub data Fetched {ℓ} (A : Type ℓ) : Type ℓ where
  answered : Response A → Fetched A
  rejected : String → Fetched A

pub record EventsParams : Type 0 where
  pub type : Option String
  pub since : Option String
  pub until : Option String
  pub limit : Option ℕ
  pub cursor : Option String

unfoldable pub set_credentials : String → String → ApiClient → ApiClient
set_credentials username password client = record {
  credentials = some (record { username = username; password = password });
}

unfoldable pub clear_credentials : ApiClient → ApiClient
clear_credentials client = record { credentials = none }

-- `if (value) searchParams.set(key, value)`, on a key that is not set yet.
abbrev pub set_if : String → Option String → List (String × String) → List (String × String)
set_if key value l = if is_truthy value then l ++ (key, text_or_empty value) ∷ [] else l

abbrev pub show_limit : (ℕ → String) → Option ℕ → Option String
show_limit show none = none
show_limit show (some n) = if n == 0 then none else some (show n)

-- The answer's value, or the error that the method throws: its prefix with the status.
unfoldable pub read_answer {ℓ} :
    {A : Type ℓ} (show : ℕ → String) (prefix : String) → Fetched A → Outcome A
read_answer show prefix (rejected message) = thrown message
read_answer show prefix (answered res) =
    if res.is_ok then res.json else thrown (append prefix (show res.status))

-- `await res.json().catch(…)`, and then `error.error`.
abbrev pub error_field : Outcome (Option String) → Option String
error_field (resolved field) = field
error_field (thrown message) = some "Unknown error"

unfoldable pub read_update_answer {ℓ} : {A : Type ℓ} (show : ℕ → String) → Fetched A → Outcome A
read_update_answer show (rejected message) = thrown message
read_update_answer show (answered res) =
    let field = error_field res.error_json in
    if res.is_ok
    then res.json
    else thrown (
        if is_truthy field
        then text_or_empty field
        else append "Failed to update: " (show res.status))

module _ (btoa : String → Outcome String) where
  unfoldable pub get_auth_header : ApiClient → Outcome Headers
  get_auth_header client = elim client.credentials [
    | none ↦ resolved []
    | some c ↦ btoa (append c.username (append ":" c.password)) >>= λ encoded.
        resolved (("Authorization", append "Basic " encoded) ∷ [])
  ]

  unfoldable pub get_request : String → ApiClient → Outcome Request
  get_request url client = get_auth_header client >>= λ headers.
      resolved (record { method = "GET"; url = url; headers = headers; body = none })

  unfoldable pub fetch_now : ApiClient → Outcome Request
  fetch_now = get_request "/api/v1/now"

  unfoldable pub fetch_config : ApiClient → Outcome Request
  fetch_config = get_request "/api/v1/config"

  unfoldable pub fetch_stats : ApiClient → Outcome Request
  fetch_stats = get_request "/api/v1/stats/basic"

  unfoldable pub update_config : String → ApiClient → Outcome Request
  update_config body client = get_auth_header client >>= λ headers. resolved (record {
    method = "PUT";
    url = "/api/v1/config";
    headers = ("Content-Type", "application/json") ∷ headers;
    body = some body;
  })

  unfoldable pub fetch_token : ApiClient → Outcome Request
  fetch_token client = get_auth_header client >>= λ headers.
      resolved
        (record { method = "POST"; url = "/api/v1/auth/token"; headers = headers; body = none })

module _ (show : ℕ → String) where
  -- The query of `fetchEvents`.
  unfoldable pub search_params : EventsParams → List (String × String)
  search_params params = set_if "cursor" params.cursor (
      set_if "limit" (show_limit show params.limit)
        (set_if "until" params.until (set_if "since" params.since (set_if "type" params.type []))))

  unfoldable pub fetch_events :
      (List (String × String) → String)
      → (String → Outcome String)
      → EventsParams
      → ApiClient
      → Outcome Request
  fetch_events encode btoa params client =
      let query = encode (search_params params) in
      get_request btoa (append "/api/v1/events" (if is_empty query then "" else append "?" query))
        client
