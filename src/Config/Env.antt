-- ===== src/Config/Env.antt =====
-- The overrides from the environment, in internal/config/config.go.
use vrclog_companion.Prelude.{
  ℤ, at_least, above, ◌≡◌, String, Bool, true, false, not, ◌&&◌, ◌||◌, Option, none, some, arith,
  str_eq, is_empty, if◌then◌else◌,
}
use vrclog_companion.Config.{Config}
use vrclog_companion.Config.Update.{IsValid}

-- `env name` is `os.Getenv(name)`, "" where it is not set; `atoi` is `strconv.Atoi`, and `fold` is
-- `strings.ToLower` after `strings.TrimSpace`.
module _ (env : String → String) (atoi : String → Option ℤ) (fold : String → String) where
  unfoldable pub parse_bool : String → Bool
  parse_bool s =
      str_eq (fold s) "true" || str_eq (fold s) "1" || str_eq (fold s) "yes" || str_eq (fold s) "on"

  -- A flag of the environment, or the old value where it is not set.
  abbrev flag : String → Bool → Bool
  flag name old = if is_empty (env name) then old else parse_bool (env name)

  abbrev port_override : Option ℤ → ℤ → ℤ
  port_override none old = old
  port_override (some port) old = if at_least 1 port && not (above 65535 port) then port else old

  abbrev batch_override : Option ℤ → ℤ → ℤ
  batch_override none old = old
  batch_override (some sec) old = if at_least 0 sec then sec else old

  abbrev port_of_env : ℤ → ℤ
  port_of_env old =
      if is_empty (env "VRCLOG_PORT") then old else port_override (atoi (env "VRCLOG_PORT")) old

  abbrev batch_of_env : ℤ → ℤ
  batch_of_env old =
      if is_empty (env "VRCLOG_DISCORD_BATCH_SEC")
      then old
      else batch_override (atoi (env "VRCLOG_DISCORD_BATCH_SEC")) old

  unfoldable pub apply_env_overrides : Config → Config
  apply_env_overrides cfg = record cfg {
    port = port_of_env cfg.port;
    lan_enabled = flag "VRCLOG_LAN_ENABLED" cfg.lan_enabled;
    log_path = if is_empty (env "VRCLOG_LOG_PATH") then cfg.log_path else env "VRCLOG_LOG_PATH";
    discord_batch_sec = batch_of_env cfg.discord_batch_sec;
    auto_start_enabled = flag "VRCLOG_AUTO_START" cfg.auto_start_enabled;
    notify_on_join = flag "VRCLOG_NOTIFY_ON_JOIN" cfg.notify_on_join;
    notify_on_leave = flag "VRCLOG_NOTIFY_ON_LEAVE" cfg.notify_on_leave;
    notify_on_world_join = flag "VRCLOG_NOTIFY_ON_WORLD_JOIN" cfg.notify_on_world_join;
  }

  port_override-in_range :
      (o : Option ℤ) (old : ℤ)
      → at_least 1 old ≡ true
      → above 65535 old ≡ false
      → (at_least 1 (port_override o old) ≡ true) × (above 65535 (port_override o old) ≡ false)
  port_override-in_range none old l h = (l, h)
  port_override-in_range (some p) old l h = ground arith

  batch_override-in_range :
      (o : Option ℤ) (old : ℤ) → at_least 0 old ≡ true → at_least 0 (batch_override o old) ≡ true
  batch_override-in_range none old l = l
  batch_override-in_range (some p) old l = ground arith

  -- The overrides keep a config valid, whatever the environment says.
  pub apply_env_overrides-IsValid : (cfg : Config) → IsValid cfg → IsValid (apply_env_overrides cfg)
  unfolding apply_env_overrides
  apply_env_overrides-IsValid cfg v = ground (
    arith,
    port_override-in_range (atoi (env "VRCLOG_PORT")) cfg.port,
    batch_override-in_range (atoi (env "VRCLOG_DISCORD_BATCH_SEC")) cfg.discord_batch_sec,
  )
