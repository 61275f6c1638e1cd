-- ===== src/Api/Limiter.antt =====
-- `AuthFailureLimiter` of internal/api/ratelimit.go: failed logins by address, and lockouts.
-- A method takes the time that `time.Now` gives it. Durations are nanoseconds, and a difference of
-- times is compared by adding on the other side, which is exact where `now` lies before the other.
pub mod Lockout
use vrclog_companion.Prelude.{
  ℕ, suc, ◌+◌, ◌-◌, ◌*◌, ◌/◌, ℤ, pos, negsuc, String, Bool, true, false, Option, none, some, List,
  [], ◌∷◌, find, put, delete, ltb, leb, ◌==◌, if◌then◌else◌,
}
use vrclog_companion.Event.{Time}

abbrev pub second : ℕ
second = 1000000000

pub record AuthFailure : Type 0 where
  pub count : ℕ
  pub first_at : Time
  pub locked_at : Time

pub record AuthFailureLimiter : Type 0 where
  pub failures : List (String × AuthFailure)
  pub max_fails : ℕ
  pub window : ℕ
  pub lockout : ℕ

-- `NewAuthFailureLimiter(DefaultAuthFailureLimiterConfig())`.
abbrev pub default_limiter : AuthFailureLimiter
default_limiter = record {
  failures = [];
  max_fails = 5;
  window = 5 * 60 * second;
  lockout = 15 * 60 * second;
}

abbrev pub entry_locked : ℕ → Time → Option AuthFailure → Bool
entry_locked lockout now none = false
entry_locked lockout now (some f) =
    if f.locked_at == 0 then false else ltb now (f.locked_at + lockout)

unfoldable pub is_locked : String → Time → AuthFailureLimiter → Bool
is_locked ip now afl = entry_locked afl.lockout now (find ip afl.failures)

-- `afl.maxFails - 1` and `afl.maxFails - f.count`, as an `int`.
abbrev pub left_of : ℕ → ℕ → ℤ
left_of max_fails used =
    if leb used max_fails then pos (max_fails - used) else negsuc (used - max_fails - 1)

-- The new entry of the address, and the result.
abbrev pub next_entry : ℕ → ℕ → Time → Option AuthFailure → AuthFailure × ℤ
next_entry max_fails window now none =
    (record { count = 1; first_at = now; locked_at = 0 }, left_of max_fails 1)
next_entry max_fails window now (some f) =
    if ltb (f.first_at + window) now
    then (record { count = 1; first_at = now; locked_at = 0 }, left_of max_fails 1)
    else if leb max_fails (suc f.count)
    then (record f { count = suc f.count; locked_at = now }, negsuc 0)
    else (record f { count = suc f.count }, left_of max_fails (suc f.count))

unfoldable pub record_failure : String → Time → AuthFailureLimiter → AuthFailureLimiter × ℤ
record_failure ip now afl =
    let (f, left) = next_entry afl.max_fails afl.window now (find ip afl.failures) in
    (record afl { failures = put ip f afl.failures }, left)

unfoldable pub record_success : String → AuthFailureLimiter → AuthFailureLimiter
record_success ip afl = record afl { failures = delete ip afl.failures }

abbrev pub entry_seconds : ℕ → Time → Option AuthFailure → ℕ
entry_seconds lockout now none = 0
entry_seconds lockout now (some f) =
    if f.locked_at == 0
    then 0
    else if leb (f.locked_at + lockout) now
    then 0
    else (f.locked_at + lockout - now) / second + 1

unfoldable pub lockout_seconds_remaining : String → Time → AuthFailureLimiter → ℕ
lockout_seconds_remaining ip now afl = entry_seconds afl.lockout now (find ip afl.failures)

-- `Middleware`: the seconds of `Retry-After` where the address is locked, `none` where the request
-- goes on.
unfoldable pub lockout_middleware : String → Time → AuthFailureLimiter → Option ℕ
unfolding is_locked lockout_seconds_remaining
lockout_middleware ip now afl =
    if is_locked ip now afl then some (lockout_seconds_remaining ip now afl) else none
