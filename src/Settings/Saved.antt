-- ===== src/Settings/Saved.antt =====
-- The settings form (web/src/pages/Settings.tsx) against the server's use case
-- (internal/app/config.go): what is saved is what is loaded next.
use vrclog_companion.Prelude.{
  ℤ, pos, at_least, above, int_eq, ◌≡◌, ◌≢◌, ◌⊎◌, refl, Bool, true, false, none, some, is_empty,
  arith, if◌then◌else◌,
}
use vrclog_companion.Client
use vrclog_companion.Config
use vrclog_companion.Config.{
  Disk, Secrets, SecretsLoadStatus, secrets_fallback, secrets_loaded, secrets_missing, save,
  save_applied, update_loaded, saved_config, saved_secrets, secrets_changed, load_config_from,
  load_secrets_from, get_config, update_config, apply_secrets, apply_webhook, apply_password,
  apply_config, apply_port, apply_batch_sec, ok, Result, is_valid_discord_webhook_url,
}
use vrclog_companion.Config.Update.{update_config-IsUpdated}
use vrclog_companion.Client.Requests.{resolved}
use vrclog_companion.Settings.{
  FormState, SettingsState, submit_request, load_effect, settings_reducer,
}

-- The JSON of the request and of the answers, which encoding/json reads and writes.
abbrev pub request_json : Client.ConfigUpdateRequest → Config.ConfigUpdateRequest
request_json r = record {
  port = r.port;
  lan_enabled = r.lan_enabled;
  discord_batch_sec = r.discord_batch_sec;
  notify_on_join = r.notify_on_join;
  notify_on_leave = r.notify_on_leave;
  notify_on_world_join = r.notify_on_world_join;
  discord_webhook_url = r.discord_webhook_url;
  log_path = r.log_path;
  basic_auth_password = r.basic_auth_password;
}

abbrev pub config_json : Config.ConfigResponse → Client.ConfigResponse
config_json c = record {
  port = c.port;
  lan_enabled = c.lan_enabled;
  discord_batch_sec = c.discord_batch_sec;
  notify_on_join = c.notify_on_join;
  notify_on_leave = c.notify_on_leave;
  notify_on_world_join = c.notify_on_world_join;
  discord_webhook_configured = c.discord_webhook_configured;
  log_path = c.log_path;
  basic_auth_username = if is_empty c.basic_auth_username then none else some c.basic_auth_username;
  basic_auth_configured = c.basic_auth_configured;
}

-- The form after its texts for secrets are emptied, as a save leaves it.
abbrev pub without_secrets : FormState → FormState
without_secrets f = record f { discord_webhook_url = ""; new_password = "" }

-- The config that a form asks for.
abbrev form_config : FormState → Config.Config → Config.Config
form_config form cfg = record cfg {
  port = form.port;
  lan_enabled = form.lan_enabled;
  discord_batch_sec = form.discord_batch_sec;
  notify_on_join = form.notify_on_join;
  notify_on_leave = form.notify_on_leave;
  notify_on_world_join = form.notify_on_world_join;
  log_path = form.log_path;
}

apply_config-form :
    (form : FormState) (cfg : Config.Config) {c : Config.Config}
    → apply_config (request_json (submit_request form)) cfg ≡ ok c
    → c ≡ form_config form cfg
unfolding apply_config apply_port apply_batch_sec submit_request
apply_config-form form cfg e = ground arith

-- A form that the server accepts, saved, is the form that is loaded next: when the server answers
-- the form's request with success, a fresh page that loads the config shows every field as it was
-- submitted, and the two texts for secrets empty.
pub load-saved_form :
    (cw sw : Bool) (state fresh : SettingsState) (disk : Disk) {after : Disk}
    {resp : Config.ConfigUpdateResponse}
    → update_config cw sw (request_json (submit_request state.form)) disk ≡ (after, ok resp)
    → (fresh.form.discord_webhook_url ≡ "") × (fresh.form.new_password ≡ "")
    → (load_effect (resolved (config_json (get_config after))) fresh).form
      ≡ without_secrets state.form
unfolding load_effect settings_reducer get_config
load-saved_form cw sw state fresh disk {after} e f =
    let u = update_config-IsUpdated cw sw (request_json (submit_request state.form)) disk e in
    let same = apply_config-form state.form (load_config_from disk.config_file) u.config in
    ground (arith, same)

-- A form that the server has to accept.
pub record IsAcceptable (form : FormState) : Type 0 where
  pub port_low : at_least 1 form.port ≡ true
  pub port_high : above 65535 form.port ≡ false
  pub batch : at_least 0 form.discord_batch_sec ≡ true
  pub webhook :
      (is_empty form.discord_webhook_url ≡ true)
      ⊎ (is_valid_discord_webhook_url form.discord_webhook_url ≡ true)

apply_config_accepts :
    (form : FormState) (cfg : Config.Config)
    → IsAcceptable form
    → apply_config (request_json (submit_request form)) cfg ≡ ok (form_config form cfg)
unfolding apply_config apply_port apply_batch_sec submit_request
apply_config_accepts form cfg a = ground arith

apply_secrets_accepts :
    (form : FormState) (sec : Secrets)
    → IsAcceptable form
    → (t : Secrets) × (apply_secrets (request_json (submit_request form)) sec ≡ ok t)
unfolding apply_secrets apply_webhook apply_password submit_request
apply_secrets_accepts form sec a = (
  apply_password (if is_empty form.new_password then none else some form.new_password) (
      if is_empty form.discord_webhook_url
      then sec
      else record sec { discord_webhook_url = form.discord_webhook_url }),
  ground arith,
)

save_writes :
    (form : FormState) (p : ℤ) (cfg : Config.Config) (sec : Secrets) (disk : Disk)
    → (after : Disk) × (resp : Config.ConfigUpdateResponse) × (save true true
          (request_json (submit_request form))
          p
          cfg
          sec
          disk
        ≡ (after, ok resp))
unfolding save submit_request
save_writes form p cfg sec disk =
    let req = request_json (submit_request form) in
    let d : Disk = record disk { config_file = saved_config cfg } in
    (
      if secrets_changed req then record d { secrets_file = saved_secrets sec } else d,
      record {
        success = true;
        restart_required = true;
        new_port = if int_eq cfg.port p then pos 0 else cfg.port;
      },
      ground arith,
    )

save_applied_accepts :
    (form : FormState) (sec : Secrets) (disk : Disk)
    → IsAcceptable form
    → let req = request_json (submit_request form) in
      let cfg = load_config_from disk.config_file in
      (after : Disk) × (resp : Config.ConfigUpdateResponse) × (save_applied true true req cfg.port
          (apply_config req cfg)
          (apply_secrets req sec)
          disk
        ≡ (after, ok resp))
save_applied_accepts form sec disk a =
    let cfg = load_config_from disk.config_file in
    let (t, e) = apply_secrets_accepts form sec a in
    let (after, resp, w) = save_writes form cfg.port (form_config form cfg) t disk in
    (after, resp, rw (apply_config_accepts form cfg a, e) w)

-- Such a form is saved, whatever the config file holds, if the secrets file can be read or is
-- missing and both files can be written.
pub submit_accepted :
    (form : FormState) (disk : Disk)
    → IsAcceptable form
    → (load_secrets_from disk.secrets_file).1 ≢ secrets_fallback
    → (after : Disk) × (resp : Config.ConfigUpdateResponse) × (update_config true true
          (request_json (submit_request form))
          disk
        ≡ (after, ok resp))
unfolding update_config
submit_accepted form disk a n = go (load_secrets_from disk.secrets_file) n
  where
    go :
        (s : Secrets × SecretsLoadStatus)
        → s.1 ≢ secrets_fallback
        → (after : Disk) × (resp : Config.ConfigUpdateResponse) × (update_loaded true true
              (request_json (submit_request form))
              (load_config_from disk.config_file)
              s
              disk
            ≡ (after, ok resp))
    go (sec, secrets_fallback) n = absurd (n refl)
    go (sec, secrets_loaded) n = save_applied_accepts form sec disk a
    go (sec, secrets_missing) n = save_applied_accepts form sec disk a
