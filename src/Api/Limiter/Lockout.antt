-- ===== src/Api/Limiter/Lockout.antt =====
-- When internal/api/ratelimit.go locks an address, and for how long.
use text.Mathlib.TextEquality.{eq_iff}
use vrclog_companion.Prelude.{
  ℕ, suc, ◌+◌, ◌*◌, ◌≤◌, ◌<◌, ◌≡◌, refl, ◌∙◌, ap, String, false, not, Option, none, some, List, [],
  ◌∷◌, All, arith, leb, ◌==◌, str_eq, if◌then◌else◌, length, find, put, delete, find-put,
  find-delete,
}
use vrclog_companion.Event.{Time}
use vrclog_companion.Api.Limiter.{
  AuthFailure, AuthFailureLimiter, second, entry_locked, is_locked, next_entry, record_failure,
  record_success, entry_seconds, lockout_seconds_remaining,
}

-- A failure or a success of one address changes nothing for another: neither whether it is locked,
-- nor how long.
pub record-other :
    (ip j : String) (now t : Time) (afl : AuthFailureLimiter)
    → str_eq ip j ≡ false
    → (is_locked j t (record_failure ip now afl).0 ≡ is_locked j t afl)
      × (is_locked j t (record_success ip afl) ≡ is_locked j t afl)
      × (lockout_seconds_remaining j t (record_failure ip now afl).0
          ≡ lockout_seconds_remaining j t afl)
unfolding is_locked record_failure record_success lockout_seconds_remaining
record-other ip j now t afl n =
    let f = (next_entry afl.max_fails afl.window now (find ip afl.failures)).0 in
    let e : find j (put ip f afl.failures) ≡ find j afl.failures =
      ground (arith, find-put ip j f afl.failures) in
    let d : find j (delete ip afl.failures) ≡ find j afl.failures =
      ground (arith, find-delete ip j afl.failures) in
    (rw e, rw d, rw e)

-- The announced wait is right: an address is locked exactly when the seconds are not 0, and once they
-- have passed it is not locked any more.
pub seconds_suffice :
    (ip : String) (now : Time) (afl : AuthFailureLimiter)
    → (is_locked ip now afl ≡ not (lockout_seconds_remaining ip now afl == 0))
      × (is_locked ip (now + lockout_seconds_remaining ip now afl * second) afl ≡ false)
unfolding is_locked lockout_seconds_remaining
seconds_suffice ip now afl = go (find ip afl.failures)
  where
    go :
        (o : Option AuthFailure)
        → (entry_locked afl.lockout now o ≡ not (entry_seconds afl.lockout now o == 0))
          × (entry_locked afl.lockout (now + entry_seconds afl.lockout now o * second) o ≡ false)
    go none = (refl, refl)
    go (some f) = ground arith

-- The address fails at each of the times, in order.
abbrev pub fail_at : String → List Time → AuthFailureLimiter → AuthFailureLimiter
fail_at ip [] afl = afl
fail_at ip (t ∷ ts) afl = fail_at ip ts (record_failure ip t afl).0

abbrev pub last_of : Time → List Time → Time
last_of t [] = t
last_of t (u ∷ ts) = last_of u ts

-- The entry of an address that has failed, the last time at t.
record IsCounted (afl : AuthFailureLimiter) (ip : String) (t0 t : Time) (n : ℕ) (f : AuthFailure)
    : Type 0 where
  found : find ip afl.failures ≡ some f
  first : f.first_at ≡ t0
  count : f.count ≡ n
  locked : f.locked_at ≡ (if leb afl.max_fails n then t else 0)

abbrev counted_next : AuthFailureLimiter → Time → AuthFailure → AuthFailure
counted_next afl u f = record f {
  count = suc f.count;
  locked_at = if leb afl.max_fails (suc f.count) then u else f.locked_at;
}

count_next :
    (afl : AuthFailureLimiter) (ip : String) (t0 t u : Time) (n : ℕ) (f : AuthFailure)
    → IsCounted afl ip t0 t n f
    → u ≤ t0 + afl.window
    → IsCounted (record_failure ip u afl).0 ip t0 u (suc n) (counted_next afl u f)
unfolding record_failure
count_next afl ip t0 t u n f c w =
    let e : (next_entry afl.max_fails afl.window u (some f)).0 ≡ counted_next afl u f =
      ground arith in
    record {
      found =
          rw (c.found)
            (ground (arith, find-put ip ip (counted_next afl u f) afl.failures, eq_iff ip ip));
      first = c.first;
      count = ground arith;
      locked = ground arith;
    }

locked_when_counted :
    (ts : List Time) (afl : AuthFailureLimiter) (ip : String) (t0 t : Time) (n : ℕ)
    (f : AuthFailure)
    → IsCounted afl ip t0 t n f
    → 0 < t
    → 0 < afl.lockout
    → All (λ u. (0 < u) × (u ≤ t0 + afl.window)) ts
    → is_locked ip (last_of t ts) (fail_at ip ts afl) ≡ leb afl.max_fails (n + length ts)
unfolding record_failure
locked_when_counted [] afl ip t0 t n f c p l w = unfold is_locked in ground arith
locked_when_counted (u ∷ ts) afl ip t0 t n f c p l w =
    let rest =
      locked_when_counted ts (record_failure ip u afl).0 ip t0 u (suc n) (counted_next afl u f)
        (count_next afl ip t0 t u n f c w.0.1) w.0.0 l w.1 in
    let e : suc n + length ts ≡ n + suc (length ts) = omega arith in rest ∙ ap (leb afl.max_fails) e

-- An address with no record that fails at t0 and then at each of the times of a list, none of them
-- the zero time and all within the window after t0, is locked at its last failure exactly when it has
-- failed at least as often as the maximum, for a maximum of two or more.
pub fail_at-locks :
    (ip : String) (t0 : Time) (ts : List Time) (afl : AuthFailureLimiter)
    → find ip afl.failures ≡ none
    → 2 ≤ afl.max_fails
    → 0 < afl.lockout
    → 0 < t0
    → All (λ u. (0 < u) × (u ≤ t0 + afl.window)) ts
    → is_locked ip (last_of t0 ts) (fail_at ip (t0 ∷ ts) afl) ≡ leb afl.max_fails (length (t0 ∷ ts))
unfolding record_failure
fail_at-locks ip t0 ts afl absent m l p w =
    let f : AuthFailure = record { count = 1; first_at = t0; locked_at = 0 } in
    let e : (next_entry afl.max_fails afl.window t0 (find ip afl.failures)).0 ≡ f = rw absent in
    let c : IsCounted (record_failure ip t0 afl).0 ip t0 t0 1 f = record {
      found = rw e (ground (arith, find-put ip ip f afl.failures, eq_iff ip ip));
      first = refl;
      count = refl;
      locked = ground arith;
    } in
    let rest = locked_when_counted ts (record_failure ip t0 afl).0 ip t0 t0 1 f c p l w in
    let n : 1 + length ts ≡ suc (length ts) = omega arith in rest ∙ ap (leb afl.max_fails) n

-- An address that succeeds is not locked, whatever it had failed before.
pub success_unlocks :
    (ip : String) (now : Time) (afl : AuthFailureLimiter)
    → (is_locked ip now (record_success ip afl) ≡ false)
      × (lockout_seconds_remaining ip now (record_success ip afl) ≡ 0)
unfolding is_locked record_success lockout_seconds_remaining
success_unlocks ip now afl =
    let e : find ip (delete ip afl.failures) ≡ none =
      ground (arith, find-delete ip ip afl.failures, eq_iff ip ip) in
    (rw e, rw e)
