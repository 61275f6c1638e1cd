-- ===== src/Notify/Sender.antt =====
-- internal/notify/sender.go: what becomes of one payload.
use vrclog_companion.Prelude.{
  ℕ, suc, ◌*◌, ◌-◌, ◌%◌, ◌^◌, ℤ, pos, negsuc, String, Bool, ◌&&◌, Option, none, some, leb, ltb,
  ◌==◌, is_empty, if◌then◌else◌,
}
use vrclog_companion.Notify.Payload.{DiscordPayload}
use vrclog_companion.Notify.Loop.{second, SendResult, send_ok, send_retryable, send_fatal}

-- An answer of Discord: the status, and the header Retry-After, "" where it is absent.
pub record Answer : Type 0 where
  pub status_code : ℕ
  pub retry_after : String

-- The libraries. `marshal` is JSON's, `none` an error; `is_url` says whether a request to a text can
-- be made; `post` is the answer, or `none` where there is none. `atoi` is strconv's, and `float_nanos` is
-- the duration of a text that is a decimal number of seconds.
pub record DiscordSender : Type 0 where
  pub webhook_url : String
  pub marshal : DiscordPayload → Option String
  pub is_url : String → Bool
  pub post : String → String → Option Answer
  pub atoi : String → Option ℤ
  pub float_nanos : String → Option ℤ

-- An int64 whose bits are those of `m`, and of `- m`.
abbrev pub int64 : ℕ → ℤ
int64 m = let r = m % 2 ^ 64 in if ltb r (2 ^ 63) then pos r else negsuc (2 ^ 64 - r - 1)

abbrev pub int64_minus : ℕ → ℤ
int64_minus m = int64 (2 ^ 64 - m % 2 ^ 64)

-- `time.Duration(secs) * time.Second`, which wraps around.
abbrev pub seconds : ℤ → ℤ
seconds (pos n) = int64 (n * second)
seconds (negsuc n) = int64_minus (suc n * second)

abbrev pub float_or_zero : Option ℤ → ℤ
float_or_zero none = pos 0
float_or_zero (some nanos) = nanos

unfoldable pub parse_retry_after : (String → Option ℤ) → (String → Option ℤ) → String → ℤ
parse_retry_after atoi float_nanos header =
    if is_empty header
    then pos 0
    else elim (atoi header) [ some secs ↦ seconds secs | none ↦ float_or_zero (float_nanos header) ]

-- The `switch` on the status.
unfoldable pub read_answer : DiscordSender → Answer → SendResult × ℤ
read_answer s a =
    if leb 200 a.status_code && ltb a.status_code 300
    then (send_ok, pos 0)
    else if a.status_code == 429
    then (send_retryable, parse_retry_after s.atoi s.float_nanos a.retry_after)
    else if leb 400 a.status_code && ltb a.status_code 500
    then (send_fatal, pos 0)
    else (send_retryable, pos 0)

abbrev pub read_post : DiscordSender → Option Answer → SendResult × ℤ
read_post s none = (send_retryable, pos 0)
read_post s (some a) = read_answer s a

abbrev pub post_body : DiscordSender → Option String → SendResult × ℤ
post_body s none = (send_fatal, pos 0)
post_body s (some body) =
    if s.is_url s.webhook_url then read_post s (s.post s.webhook_url body) else (send_fatal, pos 0)

unfoldable pub send : DiscordSender → DiscordPayload → SendResult × ℤ
send s payload =
    if is_empty s.webhook_url then (send_fatal, pos 0) else post_body s (s.marshal payload)
