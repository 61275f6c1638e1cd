-- ===== src/Api/Token/Signed.antt =====
-- What a token of internal/api/sseauth/token.go is good for.
use vrclog_companion.Prelude.{
  ◌+◌, ◌/◌, ◌≡◌, refl, sym, ap, ◌∙◌, String, false, not, some, List, [], ◌∷◌, leb, is_empty, str_eq,
  str_eq_refl, eq_of_str_eq, if◌then◌else◌, inl, inr, arith, Option-cases, Bool-cases,
}
use vrclog_companion.Event.{Time}
use vrclog_companion.Api.Token.{
  Kit, Claims, token_expired, invalid_scope, token_prefix, dotted, second, default_ttl, unix,
  int_ltb, new_claims, generate_token, check_claims, read_payload, check_signature, check_parts,
  validate_token,
}

-- What the libraries document: base64 and JSON read what they have written, and a text of three parts
-- without a "." is split at the two between them; base64 writes no ".".
pub record IsKit (kit : Kit) : Type 0 where
  pub decoded : (s : String) → kit.decode (kit.encode s) ≡ some s
  pub unmarshalled :
      (c : Claims) → (s : String) × (kit.marshal c ≡ some s) × (kit.unmarshal s ≡ some c)
  pub three_parts :
      (a b : String)
      → kit.split (dotted (dotted token_prefix (kit.encode a)) (kit.encode b))
        ≡ token_prefix ∷ kit.encode a ∷ kit.encode b ∷ []

int_ltb-unix : (a b : Time) → int_ltb (unix a) (unix b) ≡ not (leb (b / second) (a / second))
unfolding unix
int_ltb-unix a b = ground arith

module _ (kit : Kit) where
  validated :
      (secret scope : String) (now : Time) (token payload sig_text : String)
      → is_empty secret ≡ false
      → kit.split token ≡ token_prefix ∷ payload ∷ sig_text ∷ []
      → validate_token kit token secret scope now
        ≡ check_signature kit secret scope now payload sig_text
  unfolding validate_token
  validated secret scope now token payload sig_text h e = ground (arith, h, e)

  signature_checked :
      (secret scope : String) (now : Time) (payload sig_text : String)
      → kit.decode sig_text ≡ some (kit.hmac secret (dotted token_prefix payload))
      → check_signature kit secret scope now payload sig_text ≡ read_payload kit scope now payload
  unfolding check_signature
  signature_checked secret scope now payload sig_text e =
      ground (arith, e, str_eq_refl (kit.hmac secret (dotted token_prefix payload)))

  payload_read :
      (scope : String) (now : Time) (text payload : String) (claims : Claims)
      → kit.decode text ≡ some payload
      → kit.unmarshal payload ≡ some claims
      → read_payload kit scope now text ≡ check_claims kit scope now claims
  unfolding read_payload
  payload_read scope now text payload claims e u = ground (arith, e, u)

-- A token is good for its scope, and for its time to live to the second: with a secret that is not
-- empty, and any other times, what was generated is validated as its claims, unless it is asked for
-- another scope, or after its last second.
pub validate_token-generate_token :
    (kit : Kit) (secret scope asked : String) (now later : Time)
    → IsKit kit
    → is_empty secret ≡ false
    → (token : String) × (generate_token kit secret scope now ≡ inl token)
      × (validate_token kit token secret asked later ≡ (
          if leb (later / second) ((now + default_ttl) / second)
          then if str_eq scope asked then inl (new_claims kit scope now) else inr invalid_scope
          else inr token_expired))
unfolding generate_token validate_token check_signature read_payload
validate_token-generate_token kit secret scope asked now later v h =
    let (payload, written, read) = v.unmarshalled (new_claims kit scope now) in
    let sig = kit.hmac secret (dotted token_prefix (kit.encode payload)) in
    let token = dotted (dotted token_prefix (kit.encode payload)) (kit.encode sig) in
    (
      token,
      ground (arith, h, written),
      validated kit secret asked later token (kit.encode payload) (kit.encode sig) h
            (v.three_parts payload sig)
          ∙ signature_checked kit secret asked later (kit.encode payload) (kit.encode sig)
              (v.decoded sig)
          ∙ payload_read kit asked later (kit.encode payload) payload (new_claims kit scope now)
              (v.decoded payload) read
          ∙ ground (arith, int_ltb-unix (now + default_ttl) later),
    )

-- What a validated token has: a signature by the secret, and a payload that is read as these claims,
-- with the scope, and time left.
pub record IsSigned (kit : Kit) (secret scope token : String) (now : Time) (claims : Claims)
    : Type 0 where
  pub payload : String
  pub sig_text : String
  pub parts : kit.split token ≡ token_prefix ∷ payload ∷ sig_text ∷ []
  pub signature : kit.decode sig_text ≡ some (kit.hmac secret (dotted token_prefix payload))
  pub json : String
  pub decoded : kit.decode payload ≡ some json
  pub unmarshalled : kit.unmarshal json ≡ some claims
  pub in_time : int_ltb claims.exp (unix now) ≡ false
  pub scoped : claims.scope ≡ scope

-- A payload that is read as these claims.
record IsRead (kit : Kit) (scope : String) (now : Time) (payload : String) (claims : Claims)
    : Type 0 where
  json : String
  decoded : kit.decode payload ≡ some json
  unmarshalled : kit.unmarshal json ≡ some claims
  in_time : int_ltb claims.exp (unix now) ≡ false
  scoped : claims.scope ≡ scope

module _ (kit : Kit) (secret scope : String) (now : Time) (claims : Claims) where
  claims_in_time :
      (c : Claims)
      → check_claims kit scope now c ≡ inl claims
      → (c ≡ claims) × (int_ltb claims.exp (unix now) ≡ false) × (claims.scope ≡ scope)
  claims_in_time c h = elim (Bool-cases (int_ltb c.exp (unix now))) [
    | inl late ↦ ground (arith, late, h)
    | inr good ↦ elim (Bool-cases (str_eq c.scope scope)) [
      | inl same ↦
          let w = eq_of_str_eq c.scope scope same in
          let e : c ≡ claims = ground (arith, good, same, h) in
          (e, ap (λ k. int_ltb k.exp (unix now)) (sym e) ∙ good, ap (λ k. k.scope) (sym e) ∙ w)
      | inr other ↦ ground (arith, good, other, h)
    ]
  ]

  payload-IsRead :
      (payload : String)
      → read_payload kit scope now payload ≡ inl claims
      → IsRead kit scope now payload claims
  unfolding read_payload
  payload-IsRead payload h = elim (Option-cases (kit.decode payload)) [
    | inl e ↦ ground (arith, e, h)
    | inr (json, e) ↦ elim (Option-cases (kit.unmarshal json)) [
      | inl u ↦ ground (arith, e, u, h)
      | inr (c, u) ↦
          let (same, in_time, scoped) =
            claims_in_time c (sym (payload_read kit scope now payload json c e u) ∙ h) in
          record {
            json = json;
            decoded = e;
            unmarshalled = u ∙ ap some same;
            in_time = in_time;
            scoped = scoped;
          }
    ]
  ]

  signature_good :
      (payload sig_text : String)
      → check_signature kit secret scope now payload sig_text ≡ inl claims
      → (kit.decode sig_text ≡ some (kit.hmac secret (dotted token_prefix payload)))
        × IsRead kit scope now payload claims
  unfolding check_signature
  signature_good payload sig_text h = elim (Option-cases (kit.decode sig_text)) [
    | inl e ↦ ground (arith, e, h)
    | inr (sig, e) ↦
        let expected = kit.hmac secret (dotted token_prefix payload) in
        elim (Bool-cases (str_eq sig expected)) [
          | inl same ↦
              let w = e ∙ ap some (eq_of_str_eq sig expected same) in
              (
                w,
                payload-IsRead payload
                    (sym (signature_checked kit secret scope now payload sig_text w) ∙ h),
              )
          | inr other ↦ ground (arith, e, other, h)
        ]
  ]

  parts-IsSigned :
      (token : String) (parts : List String)
      → kit.split token ≡ parts
      → check_parts kit secret scope now parts ≡ inl claims
      → IsSigned kit secret scope token now claims
  parts-IsSigned token [] q h = ground (arith, h)
  parts-IsSigned token (a ∷ []) q h = ground (arith, h)
  parts-IsSigned token (a ∷ b ∷ []) q h = ground (arith, h)
  parts-IsSigned token (a ∷ b ∷ c ∷ d ∷ rest) q h = ground (arith, h)
  parts-IsSigned token (prefix ∷ payload ∷ sig_text ∷ []) q h =
      elim (Bool-cases (str_eq prefix token_prefix)) [
        | inr other ↦ ground (arith, other, h)
        | inl same ↦
            let (signature, read) = signature_good payload sig_text (ground (arith, same, h)) in
            record {
              payload = payload;
              sig_text = sig_text;
              parts =
                  q ∙ ap (λ p. p ∷ payload ∷ sig_text ∷ []) (eq_of_str_eq prefix token_prefix same);
              signature = signature;
              json = read.json;
              decoded = read.decoded;
              unmarshalled = read.unmarshalled;
              in_time = read.in_time;
              scoped = read.scoped;
            }
      ]

-- Only a token that the secret has signed is validated, and only as the claims of its payload, for their
-- scope and while they have not expired.
pub validate_token-IsSigned :
    (kit : Kit) (token secret scope : String) (now : Time) (claims : Claims)
    → validate_token kit token secret scope now ≡ inl claims
    → IsSigned kit secret scope token now claims
unfolding validate_token
validate_token-IsSigned kit token secret scope now claims h =
    parts-IsSigned kit secret scope now claims token (kit.split token) refl (ground (arith, h))
