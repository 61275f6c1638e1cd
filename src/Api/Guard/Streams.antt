-- ===== src/Api/Guard/Streams.antt =====
-- Who may open a stream, by internal/api/middleware.go.
use vrclog_companion.Prelude.{
  ℕ, ℤ, pos, negsuc, ◌≡◌, refl, ◌≢◌, true, Option, none, some, arith, ◌⊎◌, inl, inr, Option-cases,
  Bool-cases,
}
use vrclog_companion.Api.Limiter.{AuthFailureLimiter, record_failure}
use vrclog_companion.Api.Token.{Claims, TokenError, scope_sse, validate_token}
use vrclog_companion.Api.Token.Signed.{IsSigned, validate_token-IsSigned}
use vrclog_companion.Api.Guard.{
  Request, passes, Clock, Auth, refuse, locked_for, is_given, is_valid, is_token,
  sse_token_middleware,
}

int_cases : (x : ℤ) → ((n : ℕ) × (x ≡ pos n)) ⊎ ((n : ℕ) × (x ≡ negsuc n))
int_cases (pos n) = inl (n, refl)
int_cases (negsuc n) = inr (n, refl)

pub refuse-refuses :
    (r : Request) (clock : Clock) (afl : Option AuthFailureLimiter)
    → (refuse r.ip clock afl).0 ≢ passes
refuse-refuses r clock none h = ground (arith, h)
refuse-refuses r clock (some afl) h = elim (int_cases (record_failure r.ip clock.failed afl).1) [
  | inl (n, e) ↦ ground (arith, e, h)
  | inr (n, e) ↦ ground (arith, e, h)
]

valid_claims :
    (auth : Auth) (x : Claims ⊎ TokenError)
    → is_valid auth x ≡ true
    → (claims : Claims) × (x ≡ inl claims)
valid_claims auth (inl claims) h = (claims, refl)
valid_claims auth (inr x) h = ground (arith, h)

-- A request that gets through to a stream, of any address and with any limiter, is from an address that
-- is not locked, and has the right user name and password, by their hashes, or else a token for streams
-- that is signed with the secret and not expired.
pub passes-IsEntitled :
    (auth : Auth) (r : Request) (clock : Clock) (afl : Option AuthFailureLimiter)
    → (sse_token_middleware auth r clock afl).0 ≡ passes
    → (locked_for r.ip clock afl ≡ none)
      × ((is_given auth r.basic ≡ true)
          ⊎ ((claims : Claims) × IsSigned auth.kit auth.sse_secret scope_sse r.token clock.validated
                claims))
unfolding sse_token_middleware is_token
passes-IsEntitled auth r clock afl h = elim (Option-cases (locked_for r.ip clock afl)) [
  | inr (seconds, e) ↦ ground (arith, e, h)
  | inl free ↦ (
    free,
    elim (Bool-cases (is_given auth r.basic)) [
      | inl given ↦ inl given
      | inr not_given ↦ elim (Bool-cases (is_token auth r.token clock.validated)) [
        | inl good ↦
            let (claims, e) =
              valid_claims auth
                (validate_token auth.kit r.token auth.sse_secret scope_sse clock.validated)
                (ground (arith, good)) in
            inr (
              claims,
              validate_token-IsSigned auth.kit r.token auth.sse_secret scope_sse clock.validated
                  claims e,
            )
        | inr bad ↦ absurd (refuse-refuses r clock afl (ground (arith, free, not_given, bad, h)))
      ]
    ],
  )
]
