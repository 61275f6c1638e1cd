-- ===== src/Api/Token.antt =====
-- internal/api/sseauth/token.go: the tokens that a page's stream shows in place of a password.
-- Bytes are texts. Unix times are integers, not bounded by 64 bits.
pub mod Signed
use Prim.Native.String.{◌++◌ as append}
use vrclog_companion.Prelude.{
  ℕ, ◌+◌, ◌-◌, ◌*◌, ◌/◌, ◌^◌, ℤ, pos, negsuc, String, Bool, true, false, not, Option, none, some,
  List, [], ◌∷◌, ltb, leb, is_empty, str_eq, if◌then◌else◌, ◌⊎◌, inl, inr,
}
use vrclog_companion.Event.{Time}

abbrev pub token_prefix : String
token_prefix = "sse1"

abbrev pub second : ℕ
second = 10 ^ 9

abbrev pub default_ttl : ℕ
default_ttl = 5 * 60 * second

abbrev pub scope_sse : String
scope_sse = "sse"

pub data TokenError : Type 0 where
  empty_secret marshal_failed invalid_format invalid_signature token_expired invalid_scope :
      TokenError

pub record Claims : Type 0 where
  pub exp : ℤ
  pub iat : ℤ
  pub scope : String

-- The seconds from the zero time to 1970.
abbrev pub unix_epoch : ℕ
unix_epoch = 62135596800

-- `Unix`.
unfoldable pub unix : Time → ℤ
unix t =
    let seconds = t / second in
    if leb unix_epoch seconds then pos (seconds - unix_epoch) else negsuc (unix_epoch - seconds - 1)

-- `a < b`.
abbrev pub int_ltb : ℤ → ℤ → Bool
int_ltb (pos a) (pos b) = ltb a b
int_ltb (pos a) (negsuc b) = false
int_ltb (negsuc a) (pos b) = true
int_ltb (negsuc a) (negsuc b) = ltb b a

-- What the code calls: `strings.Split` at ".", unpadded base64 for URLs, HMAC-SHA256 by a secret, and
-- JSON.
pub record Kit : Type 0 where
  pub split : String → List String
  pub encode : String → String
  pub decode : String → Option String
  pub hmac : String → String → String
  pub marshal : Claims → Option String
  pub unmarshal : String → Option Claims

abbrev pub dotted : String → String → String
dotted a b = append a (append "." b)

module _ (kit : Kit) where
  abbrev pub new_claims : String → Time → Claims
  new_claims scope now = record { exp = unix (now + default_ttl); iat = unix now; scope = scope }

  unfoldable pub generate_token : String → String → Time → String ⊎ TokenError
  generate_token secret scope now =
      if is_empty secret then inr empty_secret else elim (kit.marshal (new_claims scope now)) [
        | none ↦ inr marshal_failed
        | some payload ↦
            let sig_input = dotted token_prefix (kit.encode payload) in
            inl (dotted sig_input (kit.encode (kit.hmac secret sig_input)))
      ]

  abbrev pub check_claims : String → Time → Claims → Claims ⊎ TokenError
  check_claims scope now claims =
      if int_ltb claims.exp (unix now)
      then inr token_expired
      else if not (str_eq claims.scope scope)
      then inr invalid_scope
      else inl claims

  unfoldable pub read_payload : String → Time → String → Claims ⊎ TokenError
  read_payload scope now payload = elim (kit.decode payload) [
    | none ↦ inr invalid_format
    | some json ↦ elim (kit.unmarshal json) [
      | none ↦ inr invalid_format
      | some claims ↦ check_claims scope now claims
    ]
  ]

  unfoldable pub check_signature : String → String → Time → String → String → Claims ⊎ TokenError
  check_signature secret scope now payload sig_text = elim (kit.decode sig_text) [
    | none ↦ inr invalid_format
    | some sig ↦
        if str_eq sig (kit.hmac secret (dotted token_prefix payload))
        then read_payload scope now payload
        else inr invalid_signature
  ]

  abbrev pub check_parts : String → String → Time → List String → Claims ⊎ TokenError
  check_parts secret scope now (prefix ∷ payload ∷ sig_text ∷ []) =
      if str_eq prefix token_prefix
      then check_signature secret scope now payload sig_text
      else inr invalid_format
  check_parts secret scope now _ = inr invalid_format

  unfoldable pub validate_token : String → String → String → Time → Claims ⊎ TokenError
  validate_token token secret scope now =
      if is_empty secret then inr empty_secret else check_parts secret scope now (kit.split token)
