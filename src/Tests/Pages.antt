-- ===== src/Tests/Pages.antt =====
-- The history page (web/src/pages/History.tsx) on a server of two pages, and the settings form
-- (web/src/pages/Settings.tsx), and the page of numbers (web/src/pages/Stats.tsx).
use vrclog_companion.Prelude.{
  ℕ, suc, pos, ◌≡◌, refl, inl, inr, String, true, Option, none, some, List, [], ◌∷◌, ◌++◌,
  if◌then◌else◌,
}
use vrclog_companion.Client.{Event, EventsResponse, StatsResponse, undefined, null, value}
use vrclog_companion.Client.Requests.{EventsParams, resolved}
use vrclog_companion.History
use vrclog_companion.History.{
  Page, start_fetch, finish_fetch, answer, load_more, set_filter, run_effect, fetch_params,
}
use vrclog_companion.History.Paging.{
  IsIdle, presses, pages_from, params_at, presses-events, presses_after_end, stale_answer-events,
}
use vrclog_companion.Config
use vrclog_companion.Config.{
  Disk, missing, contents, update_config, get_config, apply_port, apply_batch_sec, apply_config,
  apply_webhook, apply_password, apply_secrets, save, load_config_from, load_secrets_from, ok,
  is_valid_discord_webhook_url,
}
use vrclog_companion.Settings
use vrclog_companion.Settings.{SettingsState, FormState, submit_request, load_effect}
use vrclog_companion.Settings.Saved.{
  request_json, config_json, without_secrets, IsAcceptable, load-saved_form,
}
use vrclog_companion.Stats
use vrclog_companion.Stats.Shows.{account, shown, run-shown}

program : Unit {0}
unfolding start_fetch finish_fetch answer load_more set_filter run_effect
program = tt

abbrev event_of : ℕ → Event
event_of id = record {
  id = id;
  type = "player_join";
  ts = "t";
  world_id = none;
  world_name = none;
  instance_id = none;
  player_name = none;
  player_id = none;
}

-- Two pages; the last one leaves `next_cursor` out.
abbrev serve_cursor : Option String → EventsResponse
serve_cursor none = record { items = event_of 4 ∷ event_of 3 ∷ []; next_cursor = value "c3" }
serve_cursor (some c) = record { items = event_of 2 ∷ []; next_cursor = undefined }

abbrev serve : EventsParams → EventsResponse
serve params = serve_cursor params.cursor

-- The page with its first fetch answered.
abbrev first_page : Page
first_page = answer 0 (inl (serve_cursor none)) (run_effect History.initial)

first_page-IsIdle : IsIdle first_page
unfolding program
first_page-IsIdle = record { no_pending = refl; not_loading = refl }

-- Three presses show events 4 3 2 and then 4 3 again.
three_presses :
    (presses serve 2 first_page).events
    ≡ event_of 4 ∷ event_of 3 ∷ event_of 2 ∷ event_of 4 ∷ event_of 3 ∷ []
unfolding program
three_presses = refl

presses-events_example :
    ((presses serve 2 first_page).events
      ≡ first_page.events
        ++ (if first_page.has_more
            then pages_from serve first_page.filter 2 first_page.cursor
            else []))
    × IsIdle (presses serve 2 first_page)
presses-events_example = presses-events serve 2 first_page first_page-IsIdle

presses_after_end_example :
    (presses serve 2 first_page).events
    ≡ (first_page.events ++ (serve (params_at first_page.filter first_page.cursor)).items)
      ++ (serve (fetch_params true first_page)).items
unfolding program
presses_after_end_example = presses_after_end serve first_page first_page-IsIdle refl refl

stale_answer-events_example :
    let changed = set_filter "world_join" (load_more first_page) in
    let new : EventsResponse = record { items = event_of 7 ∷ []; next_cursor = null } in
    let q =
      answer first_page.next_id
        (inl (serve_cursor (some "c3")))
        (answer (suc first_page.next_id) (inl new) changed) in
    (q.events ≡ event_of 7 ∷ event_of 2 ∷ []) × (q.filter ≡ "world_join")
unfolding program
stale_answer-events_example =
    stale_answer-events first_page "world_join" (serve_cursor (some "c3"))
      (record { items = event_of 7 ∷ []; next_cursor = null }) first_page-IsIdle refl refl

-- No files yet.
abbrev new_disk : Disk
new_disk = record { config_file = missing; secrets_file = missing }

abbrev edited : SettingsState
edited = record Settings.initial_state {
  form = record (Settings.initial_form_state) { port = pos 9000; new_password = "pw" };
}

edited-IsAcceptable : IsAcceptable edited.form
edited-IsAcceptable = record { port_low = refl; port_high = refl; batch = refl; webhook = inl refl }

abbrev saved_disk : Disk
saved_disk = record {
  config_file = contents (record (Config.default_config) { port = pos 9000 });
  secrets_file = contents (record (Config.default_secrets) {
    basic_auth_username = "admin";
    basic_auth_password = "pw";
  });
}

edited_saves :
    update_config true true (request_json (submit_request edited.form)) new_disk
    ≡ (saved_disk, ok (record { success = true; restart_required = true; new_port = pos 9000 }))
unfolding update_config submit_request apply_port apply_batch_sec apply_config apply_webhook
    apply_password apply_secrets save load_config_from load_secrets_from
edited_saves = refl

load-saved_form_example :
    (load_effect (resolved (config_json (get_config saved_disk))) Settings.initial_state).form
    ≡ without_secrets edited.form
load-saved_form_example =
    load-saved_form true true edited Settings.initial_state new_disk edited_saves (refl, refl)

abbrev numbers : StatsResponse
numbers = record {
  today_joins = 5;
  today_leaves = 4;
  today_world_changes = 2;
  recent_players = "Alice" ∷ [];
  last_event_at = none;
}

-- A load, a refresh that fails, and the click on "Retry".
abbrev loads : List Stats.Action
loads = Stats.answers (inl numbers) ∷ Stats.clicks ∷ Stats.answers (inr "down") ∷ Stats.clicks ∷ []

run-shown_example :
    ((Stats.run (λ s. s) Stats.loaded loads).pending
      ≡ (if (account (record { in_flight = true; results = [] }) loads).in_flight then 1 else 0))
    × (Stats.render (λ s. s) (Stats.run (λ s. s) Stats.loaded loads)
        ≡ shown (λ s. s) (account (record { in_flight = true; results = [] }) loads))
run-shown_example = run-shown (λ s. s) loads
