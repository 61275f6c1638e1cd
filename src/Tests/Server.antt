-- ===== src/Tests/Server.antt =====
-- The query of the events endpoint (internal/api/events.go), the settings on disk
-- (internal/app/config.go) and the lockout of addresses (internal/api/ratelimit.go).
use mathlib.Core.Option
use vrclog_companion.Prelude.{
  ℕ, zero, suc, is_empty, str_eq, if◌then◌else◌, ap, ℤ, pos, ◌*◌, ◌≡◌, refl, String, true, false,
  Option, none, some, List, [], ◌∷◌, arith, leb, length,
}
use vrclog_companion.Client.Requests.{EventsParams, search_params}
use vrclog_companion.Api.Events.{parsed, parse_events_filter}
use vrclog_companion.Api.Events.RoundTrip.{asked, parse-search_params}
use vrclog_companion.Config.{
  Config, Disk, ConfigUpdateRequest, missing, contents, default_config, load_config_from,
  load_secrets_from, normalize_config, update_config, apply_port, apply_batch_sec, apply_config,
  apply_webhook, apply_password, apply_secrets, save, ok, err, save_secrets,
}
use vrclog_companion.Config.Update.{
  IsUpdated, IsKept, update_config-IsUpdated, update_config-IsKept,
}
use vrclog_companion.Api.Limiter.{
  AuthFailureLimiter, default_limiter, is_locked, record_failure, record_success,
  lockout_seconds_remaining, second,
}
use vrclog_companion.Api.Limiter.Lockout.{fail_at, last_of, fail_at-locks}

program : Unit {0}
unfolding load_config_from load_secrets_from normalize_config update_config apply_port
    apply_batch_sec apply_config apply_webhook apply_password apply_secrets save is_locked
    record_failure record_success lockout_seconds_remaining
program = tt

-- A file with a port out of range.
abbrev stray : Config
stray = record default_config { port = pos 70000; log_path = "C:/logs" }

stray_normalised : (load_config_from (contents stray)).port ≡ pos 8080
unfolding program
stray_normalised = refl

abbrev disk : Disk
disk = record { config_file = contents stray; secrets_file = missing }

abbrev nothing : ConfigUpdateRequest
nothing = record {
  port = none;
  lan_enabled = none;
  discord_batch_sec = none;
  notify_on_join = none;
  notify_on_leave = none;
  notify_on_world_join = none;
  discord_webhook_url = none;
  log_path = none;
  basic_auth_password = none;
}

abbrev move_port : ConfigUpdateRequest
move_port = record nothing { port = some (pos 9000) }

abbrev moved : Disk
moved = record disk { config_file = contents (record stray { port = pos 9000 }) }

move_port_saves :
    update_config true true move_port disk
    ≡ (moved, ok (record { success = true; restart_required = true; new_port = pos 9000 }))
unfolding program
move_port_saves = refl

update_config-IsUpdated_example :
    IsUpdated move_port disk moved
      (record { success = true; restart_required = true; new_port = pos 9000 })
update_config-IsUpdated_example = update_config-IsUpdated true true move_port disk move_port_saves

-- The port is saved, and the password cannot be.
abbrev move_and_lock : ConfigUpdateRequest
move_and_lock = record move_port { basic_auth_password = some "pw" }

half_saved : update_config true false move_and_lock disk ≡ (moved, err save_secrets)
unfolding program
half_saved = refl

update_config-IsKept_example : IsKept disk moved save_secrets
update_config-IsKept_example =
    update_config-IsKept true false move_and_lock disk save_secrets half_saved

-- Numbers in strokes, as n strokes and a full stop.
abbrev strokes : ℕ → String
strokes zero = "."
strokes (suc n) = String.◌∷◌ "|" (strokes n)

abbrev count_strokes : String → Option ℕ
count_strokes String.[] = none
count_strokes (String.◌∷◌ c String.[]) = some 0
count_strokes (String.◌∷◌ c s) = Option.map suc (count_strokes s)

abbrev read_strokes : String → Option ℤ
read_strokes s = Option.map pos (count_strokes s)

strokes_read : (n : ℕ) → (is_empty (strokes n) ≡ false) × (count_strokes (strokes n) ≡ some n)
strokes_read zero = (refl, refl)
strokes_read (suc zero) = (refl, refl)
strokes_read (suc (suc n)) = (refl, ap (Option.map suc) (strokes_read (suc n)).1)

abbrev asks : EventsParams
asks = record {
  type = some "player_join";
  since = none;
  until = none;
  limit = some 50;
  cursor = some "c3";
}

-- Five failures within a minute lock; four do not.
abbrev start : ℕ
start = 1000 * second

abbrev tries : List ℕ
tries = 1001 * second ∷ 1002 * second ∷ 1003 * second ∷ 1004 * second ∷ []

fail_at-locks_example :
    is_locked "10.0.0.2" (last_of start tries) (fail_at "10.0.0.2" (start ∷ tries) default_limiter)
    ≡ leb default_limiter.max_fails (length (start ∷ tries))
fail_at-locks_example =
    fail_at-locks "10.0.0.2" start tries default_limiter refl (omega arith) (omega arith)
      (omega arith) (omega arith)

abbrev locked_out : AuthFailureLimiter
locked_out = fail_at "10.0.0.2" (start ∷ tries) default_limiter

locked_for_15_minutes : lockout_seconds_remaining "10.0.0.2" (1004 * second) locked_out ≡ 901
unfolding program
locked_for_15_minutes = refl

parse-search_params_example :
    parse_events_filter (λ t. some 7) read_strokes (search_params strokes asks)
    ≡ parsed (asked (λ t. some 7) asks)
parse-search_params_example =
    parse-search_params (λ t. some 7) read_strokes strokes asks (search_params strokes asks) refl
      (λ n. ((strokes_read n).0, ap (Option.map pos) (strokes_read n).1)) (λ h. cc) (λ h. cc)
      (λ h. refl)

-- The environment sets a port that is taken, and a batch interval that is not.
abbrev env : String → String
env name =
    if str_eq name "VRCLOG_PORT"
    then "|||."
    else if str_eq name "VRCLOG_DISCORD_BATCH_SEC"
    then "?"
    else ""
