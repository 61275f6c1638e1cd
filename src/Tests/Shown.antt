-- ===== src/Tests/Shown.antt =====
-- The settings page and the links around the pages.
use vrclog_companion.Prelude.{◌≡◌, refl, false, some, str_eq}
use vrclog_companion.Settings.{
  SettingsState, initial_state, submit_request, password_input, change_input,
}
use vrclog_companion.Settings.View.{render}
use vrclog_companion.Settings.View.Inputs.{
  shown_values, text, replace_at, sent_of, render-change_input,
}
use vrclog_companion.Shell.{Router}
use vrclog_companion.Shell.Links.{full_path, IsRouter}

abbrev loaded : SettingsState
loaded = record initial_state { loading = false }

render-change_input_example :
    (shown_values (render (change_input (password_input "new") loaded))
      ≡ replace_at 3 (text "new") (shown_values (render loaded)))
    × (some (submit_request (change_input (password_input "new") loaded).form)
        ≡ sent_of (shown_values (render (change_input (password_input "new") loaded))))
render-change_input_example = render-change_input (password_input "new") loaded refl

-- A router that compares whole paths.
abbrev plain_router : Router
plain_router = record {
  is_match = λ path location. str_eq (full_path path) location;
  is_active = λ to location. str_eq to location;
}

plain_router-IsRouter : IsRouter plain_router
plain_router-IsRouter = record { matched = λ path page. refl; active = λ from to. refl }
