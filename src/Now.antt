-- ===== src/Now.antt =====
-- web/src/pages/Now.tsx: the live page, its state and what it shows.
-- A `useState` hook is a field of the page's record, and a setter writes the field.
pub mod Json
pub mod Roster
pub mod Mirror
use vrclog_companion.Prelude.{
  ℕ, String, Bool, true, false, not, ◌&&◌, ◌||◌, ◌⊎◌, inl, inr, Option, none, some, List, [], ◌∷◌,
  ◌++◌, map, length, keep, any, str_eq, is_empty, is_text, is_truthy, text_or_empty, if◌then◌else◌,
}
use vrclog_companion.Client.{WorldInfo, PlayerInfo, NowResponse, Event}

pub record Page : Type 0 where
  pub state : Option NowResponse
  pub loading : Bool
  pub error : Option String

abbrev pub initial : Page
initial = record { state = none; loading = true; error = none }

abbrev pub world_of : Event → WorldInfo
world_of event = record {
  world_id = text_or_empty event.world_id;
  world_name = text_or_empty event.world_name;
  instance_id = text_or_empty event.instance_id;
  joined_at = event.ts;
}

abbrev pub new_player : Event → PlayerInfo
new_player event = record {
  player_name = text_or_empty event.player_name;
  player_id = text_or_empty event.player_id;
  joined_at = event.ts;
}

-- The test of `findIndex`.
abbrev pub is_same : PlayerInfo → PlayerInfo → Bool
is_same player p =
    (not (is_empty p.player_id) && str_eq p.player_id player.player_id)
    || (is_empty p.player_id && str_eq p.player_name player.player_name)

-- The test under the `!` of `filter`.
unfoldable pub is_leaving : Event → PlayerInfo → Bool
is_leaving event p =
    (is_truthy event.player_id && is_text p.player_id event.player_id)
    || (not (is_truthy event.player_id) && is_text p.player_name event.player_name)

-- The `switch` inside `setState`, on a state that is not null.
unfoldable pub apply_event : NowResponse → Event → NowResponse
apply_event prev event =
    if str_eq event.type "world_join"
    then record { world = some (world_of event); players = [] }
    else if str_eq event.type "player_join"
    then (if any (is_same (new_player event)) prev.players
        then prev
        else record prev { players = prev.players ++ new_player event ∷ [] })
    else if str_eq event.type "player_left"
    then record prev { players = keep (λ p. not (is_leaving event p)) prev.players }
    else prev

unfoldable pub set_state : Option NowResponse → Event → Option NowResponse
unfolding apply_event
set_state none event = none
set_state (some prev) event = some (apply_event prev event)

unfoldable pub handle_event : Page → Event → Page
unfolding set_state
handle_event page event = record page { state = set_state page.state event }

abbrev pub handle_state_update : Page → NowResponse → Page
handle_state_update page new_state = record {
  state = some new_state;
  loading = false;
  error = none;
}

-- The outcome of the initial fetch: the data, or the message of the error.
unfoldable pub initial_fetch : Page → NowResponse ⊎ String → Page
initial_fetch page (inl response) = record page { state = some response; loading = false }
initial_fetch page (inr message) = record page { error = some message; loading = false }

pub data Status : Type 0 where
  connected reconnecting disconnected : Status

pub record WorldView : Type 0 where
  pub name : String
  pub instance : String
  pub joined : String

pub record PlayerRow : Type 0 where
  pub name : String
  pub joined : String

-- What is shown. `joined` is the time before the browser's `toLocaleString`.
pub data View : Type 0 where
  loading_view : View
  error_view : String → View
  page_view : Status → Option String → Option WorldView → ℕ → List PlayerRow → View

abbrev or_unknown : String → String
or_unknown s = if is_empty s then "Unknown" else s

abbrev world_view : WorldInfo → WorldView
world_view w = record {
  name = or_unknown w.world_name;
  instance = or_unknown w.instance_id;
  joined = w.joined_at;
}

abbrev player_row : PlayerInfo → PlayerRow
player_row p = record { name = or_unknown p.player_name; joined = p.joined_at }

abbrev status_of : Bool → Bool → Status
status_of is_connected is_reconnecting =
    if is_connected then connected else if is_reconnecting then reconnecting else disconnected

abbrev shown : Option String → Option String
shown o = if is_truthy o then o else none

abbrev page_body : Status → Option String → Option NowResponse → View
page_body status sse_error none = page_view status sse_error none 0 []
page_body status sse_error (some n) =
    page_view status sse_error (elim n.world [ none ↦ none | some w ↦ some (world_view w) ])
      (length n.players) (map player_row n.players)

abbrev is_some : Option NowResponse → Bool
is_some none = false
is_some (some n) = true

-- The three `return`s of the component, over the page and the result of `useSSE`.
unfoldable pub render : Page → Bool → Option String → Bool → View
render page is_connected sse_error is_reconnecting =
    if page.loading
    then loading_view
    else if is_truthy page.error && not (is_some page.state)
    then error_view (text_or_empty page.error)
    else page_body (status_of is_connected is_reconnecting) (shown sse_error) page.state
