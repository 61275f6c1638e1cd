-- ===== src/Settings/View.antt =====
-- web/src/pages/Settings.tsx: what the page shows. Layout, icons and most class names are left out.
pub mod Inputs
use Prim.Native.String.{◌++◌ as append}
use vrclog_companion.Prelude.{
  ℕ, ℤ, pos, String, Bool, true, false, Option, none, some, List, [], ◌∷◌, ◌++◌, is_empty,
  is_truthy, text_or_empty, if◌then◌else◌,
}
use vrclog_companion.Client.{ConfigResponse}
use vrclog_companion.Settings.{FormState, SettingsState}

-- An input has a label, its value, and a note under it or a placeholder in it, "" for none; a check box
-- has an id; a colored text has the class of its color.
pub data Element : Type 0 where
  heading : String → Element
  number_box : String → ℤ → Option ℤ → ℤ → String → Element
  text_box : String → String → String → String → String → Element
  check_box : String → String → Bool → Element
  warning : List String → Element
  note : String → Element
  colored : String → String → Element
  submit_button : String → Bool → Element

-- `{s && ...}`.
abbrev pub message_if : String → Option String → List Element
message_if color message =
    if is_truthy message then colored color (text_or_empty message) ∷ [] else []

abbrev pub lan_warning : Bool → List Element
lan_warning lan_enabled =
    if lan_enabled
    then warning (
        "LAN Mode Warning / LANモード警告"
        ∷ "Devices on your local network can access this app. Only enable on trusted networks."
        ∷ "同じネットワーク内の端末からアクセスできます。信頼できるネットワーク以外では有効にしないでください。" ∷ [])
      ∷ []
    else []

abbrev pub server_section : FormState → List Element
server_section form =
    heading "Server Settings"
    ∷ number_box "Port" (pos 1) (some (pos 65535)) form.port
        "Port number (1-65535). Restart required after change."
    ∷ check_box "lanEnabled" "Enable LAN access (requires authentication)" form.lan_enabled
    ∷ lan_warning form.lan_enabled

abbrev pub log_section : FormState → List Element
log_section form =
    heading "Log Settings"
    ∷ text_box "text" "VRChat Log Path" form.log_path "Leave empty for auto-detect"
        "Path to VRChat log directory. Leave empty to auto-detect default location."
    ∷ []

-- `config?.basic_auth_configured` and `config?.discord_webhook_configured`.
abbrev pub has_auth : Option ConfigResponse → Bool
has_auth none = false
has_auth (some config) = config.basic_auth_configured

abbrev pub has_webhook : Option ConfigResponse → Bool
has_webhook none = false
has_webhook (some config) = config.discord_webhook_configured

-- `config?.basic_auth_username || 'admin'`.
abbrev pub username_or_admin : Option ConfigResponse → String
username_or_admin none = "admin"
username_or_admin (some config) =
    if is_truthy config.basic_auth_username
    then text_or_empty config.basic_auth_username
    else "admin"

abbrev pub auth_note : Option ConfigResponse → Element
auth_note config =
    if has_auth config
    then colored "text-green-600"
        (append "Basic Auth configured (username: " (append (username_or_admin config) ")"))
    else colored "text-yellow-600" "No auth configured. Set password to enable LAN mode securely."

abbrev pub auth_section : Option ConfigResponse → FormState → List Element
auth_section config form =
    heading "Authentication"
    ∷ auth_note config
    ∷ text_box "password" (if has_auth config then "Change Password" else "Set Password")
        form.new_password
        (if has_auth config then "Enter new password to change" else "Enter password")
        "Password for Basic Auth. Required when LAN mode is enabled."
    ∷ []

abbrev pub webhook_note : Option ConfigResponse → List Element
webhook_note config =
    if has_webhook config then colored "text-green-600" "Webhook is configured" ∷ [] else []

abbrev pub notify_section : FormState → List Element
notify_section form =
    number_box "Batch Interval (seconds)" (pos 0) none form.discord_batch_sec
      "Delay before sending notifications (0 = immediate)"
    ∷ note "Notify on:"
    ∷ check_box "notifyOnJoin" "Player join" form.notify_on_join
    ∷ check_box "notifyOnLeave" "Player leave" form.notify_on_leave
    ∷ check_box "notifyOnWorldJoin" "World join" form.notify_on_world_join
    ∷ []

abbrev pub discord_section : Option ConfigResponse → FormState → List Element
discord_section config form =
    heading "Discord Notifications"
    ∷ text_box "url" "Webhook URL" form.discord_webhook_url
        (if has_webhook config
          then "(Webhook configured - enter new URL to change)"
          else "https://discord.com/api/webhooks/...")
        ""
    ∷ (webhook_note config ++ notify_section form)

abbrev pub save_section : Bool → List Element
save_section saving =
    submit_button (if saving then "Saving..." else "Save Settings") saving
    ∷ note "Changes require application restart to take effect."
    ∷ []

-- The page, from top to bottom.
unfoldable pub render : SettingsState → List Element
render state =
    if state.loading
    then note "Loading..." ∷ []
    else message_if "text-red-700" state.error
      ++ (message_if "text-yellow-700" state.success
          ++ (server_section state.form
              ++ (log_section state.form
                  ++ (auth_section state.config state.form
                      ++ (discord_section state.config state.form ++ save_section state.saving)))))
