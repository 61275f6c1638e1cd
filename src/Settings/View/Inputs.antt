-- ===== src/Settings/View/Inputs.antt =====
-- web/src/pages/Settings.tsx: the inputs show what is entered and send what they show.
use vrclog_companion.Prelude.{
  ℕ, ℤ, pos, ◌≡◌, refl, String, Bool, false, Option, none, some, List, [], ◌∷◌, ◌++◌, Bool-cases,
  ap, sym, ◌∙◌, is_truthy, is_empty, is_empty, inl, inr, if◌then◌else◌,
}
use vrclog_companion.Client.{ConfigResponse, ConfigUpdateRequest}
use vrclog_companion.Settings.{
  FormState, SettingsState, settings_reducer, submit_request, Input, port_input, lan_input,
  log_path_input, password_input, webhook_input, batch_input, join_input, leave_input,
  world_join_input, int_or, change_input,
}
use vrclog_companion.Settings.View.{
  Element, number_box, text_box, check_box, message_if, server_section, log_section, auth_section,
  discord_section, save_section, has_auth, has_webhook, render,
}

pub data Value : Type 0 where
  number : ℤ → Value
  text : String → Value
  ticked : Bool → Value

abbrev values_of : Element → List Value
values_of (number_box label low high value hint) = number value ∷ []
values_of (text_box kind label value placeholder hint) = text value ∷ []
values_of (check_box id label value) = ticked value ∷ []
values_of _ = []

-- The values in the inputs, from top to bottom.
unfoldable pub shown_values : List Element → List Value
shown_values [] = []
shown_values (e ∷ l) = values_of e ++ shown_values l

-- The values by the input that is changed.
abbrev pub entered : Input → ℕ × Value
entered (port_input n) = (0, number (int_or n (pos 8080)))
entered (lan_input b) = (1, ticked b)
entered (log_path_input s) = (2, text s)
entered (password_input s) = (3, text s)
entered (webhook_input s) = (4, text s)
entered (batch_input n) = (5, number (int_or n (pos 0)))
entered (join_input b) = (6, ticked b)
entered (leave_input b) = (7, ticked b)
entered (world_join_input b) = (8, ticked b)

abbrev pub replace_at {ℓ} : {A : Type ℓ} → ℕ → A → List A → List A
replace_at n a [] = []
replace_at ℕ.zero a (x ∷ l) = a ∷ l
replace_at (ℕ.suc n) a (x ∷ l) = x ∷ replace_at n a l

shown_values-message :
    (color : String) (message : Option String) (l : List Element)
    → shown_values (message_if color message ++ l) ≡ shown_values l
unfolding shown_values
shown_values-message color message l = elim (Bool-cases (is_truthy message)) [
  | inl there ↦ rw there refl
  | inr absent ↦ rw absent refl
]

abbrev form_values : FormState → List Value
form_values form =
    number form.port
    ∷ ticked form.lan_enabled
    ∷ text form.log_path
    ∷ text form.new_password
    ∷ text form.discord_webhook_url
    ∷ number form.discord_batch_sec
    ∷ ticked form.notify_on_join
    ∷ ticked form.notify_on_leave
    ∷ ticked form.notify_on_world_join
    ∷ []

server_values :
    (form : FormState) (l : List Element)
    → shown_values (server_section form ++ l)
      ≡ number form.port ∷ ticked form.lan_enabled ∷ shown_values l
unfolding shown_values
server_values form l = elim (Bool-cases form.lan_enabled) [
  | inl on ↦ rw on refl
  | inr off ↦ rw off refl
]

auth_values :
    (config : Option ConfigResponse) (form : FormState) (l : List Element)
    → shown_values (auth_section config form ++ l) ≡ text form.new_password ∷ shown_values l
unfolding shown_values
auth_values config form l = elim (Bool-cases (has_auth config)) [
  | inl there ↦ rw there refl
  | inr absent ↦ rw absent refl
]

discord_values :
    (config : Option ConfigResponse) (form : FormState) (l : List Element)
    → shown_values (discord_section config form ++ l)
      ≡ text form.discord_webhook_url
        ∷ number form.discord_batch_sec
        ∷ ticked form.notify_on_join
        ∷ ticked form.notify_on_leave
        ∷ ticked form.notify_on_world_join
        ∷ shown_values l
unfolding shown_values
discord_values config form l = elim (Bool-cases (has_webhook config)) [
  | inl there ↦ rw there refl
  | inr absent ↦ rw absent refl
]

log_values :
    (form : FormState) (l : List Element)
    → shown_values (log_section form ++ l) ≡ text form.log_path ∷ shown_values l
unfolding shown_values
log_values form l = refl

-- The inputs show the form.
render-values :
    (state : SettingsState)
    → state.loading ≡ false
    → shown_values (render state) ≡ form_values state.form
unfolding render shown_values
render-values state h =
    let form = state.form in
    let saving = save_section state.saving in
    let discord = discord_section state.config form ++ saving in
    let auth = auth_section state.config form ++ discord in
    let logs = log_section form ++ auth in
    let server = server_section form ++ logs in
    let messages = message_if "text-yellow-700" state.success ++ server in
    let parts : shown_values (render state)
        ≡ shown_values (message_if "text-red-700" state.error ++ messages) =
      rw (render, h) refl in
    parts
    ∙ shown_values-message "text-red-700" state.error messages
    ∙ shown_values-message "text-yellow-700" state.success server
    ∙ server_values form logs
    ∙ ap (λ l. number form.port ∷ ticked form.lan_enabled ∷ l)
        (log_values form auth
          ∙ ap (λ l. text form.log_path ∷ l)
              (auth_values state.config form discord
                ∙ ap (λ l. text form.new_password ∷ l) (discord_values state.config form saving)))

entered_values :
    (input : Input) (state : SettingsState)
    → form_values (change_input input state).form
      ≡ replace_at (entered input).0 (entered input).1 (form_values state.form)
unfolding change_input settings_reducer
entered_values (port_input n) state = refl
entered_values (lan_input b) state = refl
entered_values (log_path_input s) state = refl
entered_values (password_input s) state = refl
entered_values (webhook_input s) state = refl
entered_values (batch_input n) state = refl
entered_values (join_input b) state = refl
entered_values (leave_input b) state = refl
entered_values (world_join_input b) state = refl

-- What a save sends, read off the inputs of the page: a field for each, in the page's order, but none
-- for an empty password or webhook.
abbrev pub sent_of : List Value → Option ConfigUpdateRequest
sent_of
      (number port
        ∷ ticked lan
        ∷ text log
        ∷ text password
        ∷ text webhook
        ∷ number batch
        ∷ ticked join
        ∷ ticked leave
        ∷ ticked world_join
        ∷ []) =
    some (record {
      port = some port;
      lan_enabled = some lan;
      discord_batch_sec = some batch;
      notify_on_join = some join;
      notify_on_leave = some leave;
      notify_on_world_join = some world_join;
      discord_webhook_url = if is_empty webhook then none else some webhook;
      log_path = some log;
      basic_auth_password = if is_empty password then none else some password;
    })
sent_of _ = none

-- On a page that has loaded, an input that is changed shows what was entered, a number that cannot be
-- read or is 0 as the default, and no other input changes; and a save sends exactly what the inputs
-- then show.
pub render-change_input :
    (input : Input) (state : SettingsState)
    → state.loading ≡ false
    → (shown_values (render (change_input input state))
        ≡ replace_at (entered input).0 (entered input).1 (shown_values (render state)))
      × (some (submit_request (change_input input state).form)
          ≡ sent_of (shown_values (render (change_input input state))))
unfolding change_input settings_reducer submit_request
render-change_input input state h =
    let before = render-values state h in
    let after = render-values (change_input input state) h in
    (
      after
          ∙ entered_values input state
          ∙ ap (replace_at (entered input).0 (entered input).1) (sym before),
      rw after refl,
    )
