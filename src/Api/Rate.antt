-- ===== src/Api/Rate.antt =====
-- `RateLimiter` of internal/api/ratelimit.go: a token bucket for each address.
-- The bucket is golang.org/x/time/rate, a parameter. A call takes one reading of the clock, and is one
-- step; the ticker of `cleanupLoop` is an action.
pub mod Isolation
use vrclog_companion.Prelude.{
  ℕ, ◌+◌, ◌*◌, ◌^◌, String, Bool, true, false, not, Option, none, some, List, [], ◌∷◌, keep, find,
  put, ltb, if◌then◌else◌,
}
use vrclog_companion.Event.{Time}
use vrclog_companion.Api.Guard.{Reply, passes, too_many}

-- `rate.NewLimiter` with the rate and the burst of the configuration, and `Allow` by the clock.
pub record Bucket {ℓ} (B : Type ℓ) : Type ℓ where
  pub new : B
  pub allow : Time → B → Bool × B

pub record VisitorLimiter {ℓ} (B : Type ℓ) : Type ℓ where
  pub limiter : B
  pub last_seen : Time

pub record RateLimiter {ℓ} (B : Type ℓ) : Type ℓ where
  pub limiters : List (String × VisitorLimiter B)
  pub cleanup : ℕ
  pub is_done : Bool

-- The interval of `DefaultRateLimiterConfig`; its rate and burst are those of the bucket.
abbrev pub default_cleanup_interval : ℕ
default_cleanup_interval = 5 * 60 * 10 ^ 9

-- `net.SplitHostPort` gives the host, or `none` for an error.
abbrev pub extract_ip : (String → Option String) → String → String
extract_ip split_host_port remote_addr = elim (split_host_port remote_addr) [
  | none ↦ remote_addr
  | some host ↦ host
]

pub data Action : Type 0 where
  requests : String → Time → Action
  ticks : Time → Action
  stops : Action

module _ {ℓ} {B : Type ℓ} (bucket : Bucket B) where
  abbrev pub new_rate_limiter : ℕ → RateLimiter B
  new_rate_limiter interval = record { limiters = []; cleanup = interval; is_done = false }

  abbrev pub limiter_of : Option (VisitorLimiter B) → B
  limiter_of none = bucket.new
  limiter_of (some v) = v.limiter

  unfoldable pub allow : String → Time → RateLimiter B → Bool × RateLimiter B
  allow ip now rl =
      let (answer, limiter) = bucket.allow now (limiter_of (find ip rl.limiters)) in
      (
        answer,
        record rl { limiters = put ip (record { limiter = limiter; last_seen = now }) rl.limiters },
      )

  -- `v.lastSeen.Before(threshold)` is compared by adding on the other side.
  unfoldable pub cleanup_old : Time → RateLimiter B → RateLimiter B
  cleanup_old now rl = record rl {
    limiters = keep (λ e. not (ltb (e.1.last_seen + rl.cleanup * 2) now)) rl.limiters;
  }

  -- `Middleware`: `Retry-After` is 1.
  unfoldable pub rate_middleware :
      (String → Option String) → String → Time → RateLimiter B → Reply × RateLimiter B
  unfolding allow
  rate_middleware split_host_port remote_addr now rl =
      let (answer, rl') = allow (extract_ip split_host_port remote_addr) now rl in
      (if answer then passes else too_many 1, rl')

  -- The answer, where there is one.
  unfoldable pub step : RateLimiter B → Action → Option (String × Bool) × RateLimiter B
  step rl (requests ip now) = let (answer, rl') = allow ip now rl in (some (ip, answer), rl')
  step rl (ticks now) = (none, if rl.is_done then rl else cleanup_old now rl)
  step rl stops = (none, record rl { is_done = true })

  abbrev pub add_answer : Option (String × Bool) → List (String × Bool) → List (String × Bool)
  add_answer none l = l
  add_answer (some answer) l = answer ∷ l

  -- The answers, in order.
  unfoldable pub run : RateLimiter B → List Action → List (String × Bool)
  run rl [] = []
  run rl (a ∷ actions) = let (answer, rl') = step rl a in add_answer answer (run rl' actions)
