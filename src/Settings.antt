-- ===== src/Settings.antt =====
-- web/src/pages/Settings.tsx: the reducer, the inputs and the submission of the settings form.
pub mod Saved
pub mod View
use Prim.Native.String.{◌++◌}
use vrclog_companion.Prelude.{
  ℕ, ℤ, pos, int_eq, String, Bool, true, false, not, ◌&&◌, Option, none, some, is_empty,
  if◌then◌else◌,
}
use vrclog_companion.Client.{ConfigResponse, ConfigUpdateRequest, ConfigUpdateResponse}
use vrclog_companion.Client.Requests.{Outcome, resolved, thrown}

pub record FormState : Type 0 where
  pub port : ℤ
  pub lan_enabled : Bool
  pub discord_batch_sec : ℤ
  pub notify_on_join : Bool
  pub notify_on_leave : Bool
  pub notify_on_world_join : Bool
  pub discord_webhook_url : String
  pub log_path : String
  pub new_password : String

pub record SettingsState : Type 0 where
  pub config : Option ConfigResponse
  pub loading : Bool
  pub saving : Bool
  pub error : Option String
  pub success : Option String
  pub form : FormState

-- `Partial<FormState>`: a field that is absent is `none`.
pub record FormUpdate : Type 0 where
  pub port : Option ℤ
  pub lan_enabled : Option Bool
  pub discord_batch_sec : Option ℤ
  pub notify_on_join : Option Bool
  pub notify_on_leave : Option Bool
  pub notify_on_world_join : Option Bool
  pub discord_webhook_url : Option String
  pub log_path : Option String
  pub new_password : Option String

pub data SettingsAction : Type 0 where
  load_start : SettingsAction
  load_success : ConfigResponse → SettingsAction
  load_error : String → SettingsAction
  save_start : SettingsAction
  save_success : String → SettingsAction
  save_error : String → SettingsAction
  update_form : FormUpdate → SettingsAction
  clear_messages : SettingsAction

abbrev pub initial_form_state : FormState
initial_form_state = record {
  port = pos 8080;
  lan_enabled = false;
  discord_batch_sec = pos 3;
  notify_on_join = true;
  notify_on_leave = true;
  notify_on_world_join = true;
  discord_webhook_url = "";
  log_path = "";
  new_password = "";
}

abbrev pub initial_state : SettingsState
initial_state = record {
  config = none;
  loading = true;
  saving = false;
  error = none;
  success = none;
  form = initial_form_state;
}

abbrev or_old {ℓ} : {A : Type ℓ} → Option A → A → A
or_old none old = old
or_old (some new) old = new

-- `{ ...form, ...updates }`.
abbrev merge_form : FormState → FormUpdate → FormState
merge_form form u = record {
  port = or_old u.port form.port;
  lan_enabled = or_old u.lan_enabled form.lan_enabled;
  discord_batch_sec = or_old u.discord_batch_sec form.discord_batch_sec;
  notify_on_join = or_old u.notify_on_join form.notify_on_join;
  notify_on_leave = or_old u.notify_on_leave form.notify_on_leave;
  notify_on_world_join = or_old u.notify_on_world_join form.notify_on_world_join;
  discord_webhook_url = or_old u.discord_webhook_url form.discord_webhook_url;
  log_path = or_old u.log_path form.log_path;
  new_password = or_old u.new_password form.new_password;
}

unfoldable pub settings_reducer : SettingsState → SettingsAction → SettingsState
settings_reducer state load_start = record state { loading = true; error = none }
settings_reducer state (load_success payload) = record state {
  loading = false;
  config = some payload;
  form = record (state.form) {
    port = payload.port;
    lan_enabled = payload.lan_enabled;
    discord_batch_sec = payload.discord_batch_sec;
    notify_on_join = payload.notify_on_join;
    notify_on_leave = payload.notify_on_leave;
    notify_on_world_join = payload.notify_on_world_join;
    log_path = payload.log_path;
  };
}
settings_reducer state (load_error payload) = record state { loading = false; error = some payload }
settings_reducer state save_start = record state { saving = true; error = none; success = none }
settings_reducer state (save_success payload) = record state {
  saving = false;
  success = some payload;
  form = record (state.form) { discord_webhook_url = ""; new_password = "" };
}
settings_reducer state (save_error payload) = record state { saving = false; error = some payload }
settings_reducer state (update_form payload) = record state { form = merge_form state.form payload }
settings_reducer state clear_messages = record state { error = none; success = none }

-- The load effect, for what `fetchConfig` ends in.
unfoldable pub load_effect : Outcome ConfigResponse → SettingsState → SettingsState
load_effect (resolved config) state =
    settings_reducer (settings_reducer state load_start) (load_success config)
load_effect (thrown message) state =
    settings_reducer (settings_reducer state load_start) (load_error message)

abbrev if_filled : String → Option String
if_filled s = if is_empty s then none else some s

-- The request of `handleSubmit`.
unfoldable pub submit_request : FormState → ConfigUpdateRequest
submit_request form = record {
  port = some form.port;
  lan_enabled = some form.lan_enabled;
  discord_batch_sec = some form.discord_batch_sec;
  notify_on_join = some form.notify_on_join;
  notify_on_leave = some form.notify_on_leave;
  notify_on_world_join = some form.notify_on_world_join;
  discord_webhook_url = if_filled form.discord_webhook_url;
  log_path = some form.log_path;
  basic_auth_password = if_filled form.new_password;
}

-- `res.new_port && res.new_port !== form.port`.
abbrev port_changed : Option ℤ → ℤ → Bool
port_changed none port = false
port_changed (some p) port = not (int_eq p (pos 0)) && not (int_eq p port)

abbrev port_or_zero : Option ℤ → ℤ
port_or_zero none = pos 0
port_or_zero (some p) = p

-- The message of a saved form; `show` prints a number.
abbrev saved_message : (ℤ → String) → FormState → ConfigUpdateResponse → String
saved_message show form res =
    if port_changed res.new_port form.port
    then "Settings saved. Restart required. New port: " ++ show (port_or_zero res.new_port)
    else "Settings saved. Restart required to apply changes."

-- `handleSubmit` after its `await`. `form` is the form of the render that was submitted, and `state`
-- the state when the answer comes.
unfoldable pub finish_submit :
    (ℤ → String) → FormState → Outcome ConfigUpdateResponse → SettingsState → SettingsState
finish_submit show form (resolved res) state =
    if res.success
    then settings_reducer state (save_success (saved_message show form res))
    else state
finish_submit show form (thrown message) state = settings_reducer state (save_error message)

-- `handleSubmit` with no other action in between.
unfoldable pub handle_submit :
    (ℤ → String)
    → (ConfigUpdateRequest → Outcome ConfigUpdateResponse)
    → SettingsState
    → SettingsState
handle_submit show serve state =
    finish_submit show state.form (serve (submit_request state.form))
      (settings_reducer state save_start)

abbrev no_update : FormUpdate
no_update = record {
  port = none;
  lan_enabled = none;
  discord_batch_sec = none;
  notify_on_join = none;
  notify_on_leave = none;
  notify_on_world_join = none;
  discord_webhook_url = none;
  log_path = none;
  new_password = none;
}

-- `parseInt(value) || d`; `none` is NaN.
abbrev pub int_or : Option ℤ → ℤ → ℤ
int_or none d = d
int_or (some n) d = if int_eq n (pos 0) then d else n

-- The change of an input, with what `parseInt` makes of a number's text.
pub data Input : Type 0 where
  port_input : Option ℤ → Input
  lan_input : Bool → Input
  log_path_input : String → Input
  password_input : String → Input
  webhook_input : String → Input
  batch_input : Option ℤ → Input
  join_input : Bool → Input
  leave_input : Bool → Input
  world_join_input : Bool → Input

abbrev input_update : Input → FormUpdate
input_update (port_input n) = record no_update { port = some (int_or n (pos 8080)) }
input_update (lan_input b) = record no_update { lan_enabled = some b }
input_update (log_path_input s) = record no_update { log_path = some s }
input_update (password_input s) = record no_update { new_password = some s }
input_update (webhook_input s) = record no_update { discord_webhook_url = some s }
input_update (batch_input n) = record no_update { discord_batch_sec = some (int_or n (pos 0)) }
input_update (join_input b) = record no_update { notify_on_join = some b }
input_update (leave_input b) = record no_update { notify_on_leave = some b }
input_update (world_join_input b) = record no_update { notify_on_world_join = some b }

unfoldable pub change_input : Input → SettingsState → SettingsState
unfolding settings_reducer
change_input input state = settings_reducer state (update_form (input_update input))
