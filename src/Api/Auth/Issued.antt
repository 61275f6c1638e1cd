-- ===== src/Api/Auth/Issued.antt =====
-- A token of internal/api/auth.go opens a stream past the check of middleware.go.
use Prim.Native.String.{◌++◌ as append}
use Prim.Native.String.append
use vrclog_companion.Prelude.{
  ◌+◌, ◌/◌, ◌≡◌, ◌≤◌, refl, sym, ap, ◌∙◌, String, Bool, true, false, Option, none, leb, is_empty,
  arith, Bool-cases, Option-cases, ◌⊎◌, inl, inr,
}
use vrclog_companion.Event.{Time}
use vrclog_companion.Api.Limiter.{AuthFailureLimiter}
use vrclog_companion.Api.Token.{
  Kit, TokenError, token_prefix, second, default_ttl, scope_sse, new_claims, dotted, generate_token,
  validate_token,
}
use vrclog_companion.Api.Token.Signed.{IsKit, validate_token-generate_token}
use vrclog_companion.Api.Guard.{
  Request, passes, Clock, Auth, locked_for, is_given, is_token, sse_token_middleware,
}
use vrclog_companion.Api.Auth.{issued, handle_auth_token}

append_nonempty : (a b : String) → is_empty a ≡ false → is_empty (append a b) ≡ false
append_nonempty String.[] b h = ground (arith, h)
append_nonempty (String.◌∷◌ c s) b h = ap is_empty (append.cons c s b)

abbrev is_no_token : String ⊎ TokenError → Bool
is_no_token (inl token) = is_empty token
is_no_token (inr reason) = true

generated_nonempty :
    (kit : Kit) (secret token : String) (now : Time)
    → generate_token kit secret scope_sse now ≡ inl token
    → is_empty secret ≡ false
    → is_empty token ≡ false
unfolding generate_token
generated_nonempty kit secret token now made h =
    elim (Option-cases (kit.marshal (new_claims kit scope_sse now))) [
      | inl failed ↦ ground (arith, failed, h, made)
      | inr (payload, written) ↦
          let input = dotted token_prefix (kit.encode payload) in
          let same : generate_token kit secret scope_sse now
              ≡ inl (dotted input (kit.encode (kit.hmac secret input))) =
            ground (arith, h, written) in
          let full = append_nonempty input _ (append_nonempty token_prefix _ refl) in
          sym (ap is_no_token made) ∙ ap is_no_token same ∙ full
    ]

token_passes :
    (auth : Auth) (r : Request) (clock : Clock) (afl : Option AuthFailureLimiter)
    → locked_for r.ip clock afl ≡ none
    → is_token auth r.token clock.validated ≡ true
    → (sse_token_middleware auth r clock afl).0 ≡ passes
unfolding sse_token_middleware
token_passes auth r clock afl free good = elim (Bool-cases (is_given auth r.basic)) [
  | inl given ↦ ground (arith, free, given)
  | inr other ↦ ground (arith, free, other, good)
]

-- Where the secret is there, the endpoint answers with a token and says that it is good for 300 seconds;
-- and a request for the stream that shows it is let through, whatever log-in it gives, from any address
-- that is not locked out, up to the second in which those are over.
pub issued_passes :
    (auth : Auth) (r : Request) (clock : Clock) (afl : Option AuthFailureLimiter) (now : Time)
    → IsKit auth.kit
    → is_empty auth.sse_secret ≡ false
    → locked_for r.ip clock afl ≡ none
    → clock.validated / second ≤ (now + default_ttl) / second
    → (token : String) × (handle_auth_token auth.kit auth.sse_secret now ≡ issued token 300)
      × ((sse_token_middleware auth (record r { token = token }) clock afl).0 ≡ passes)
unfolding handle_auth_token is_token
issued_passes auth r clock afl now v h free in_time =
    let (token, made, read) =
      validate_token-generate_token auth.kit auth.sse_secret scope_sse scope_sse now clock.validated
        v h in
    let early : leb (clock.validated / second) ((now + default_ttl) / second) ≡ true =
      ground (arith, in_time) in
    let valid : validate_token auth.kit token auth.sse_secret scope_sse clock.validated
        ≡ inl (new_claims auth.kit scope_sse now) =
      read ∙ rw early refl in
    (
      token,
      rw (handle_auth_token, h, made) refl,
      token_passes auth (record r { token = token }) clock afl free
          (rw (generated_nonempty auth.kit auth.sse_secret token now made h, h, valid) refl),
    )
