-- ===== src/History.antt =====
-- web/src/pages/History.tsx: the list of past events, page by page.
-- A `useState` value is a field; `pending` are the calls of `fetchEvents` that wait for an answer.
pub mod Paging
pub mod Stored
use vrclog_companion.Prelude.{
  ℕ, suc, ◌≡◌, String, Bool, true, false, not, ◌&&◌, Option, none, some, List, [], ◌∷◌, ◌++◌, keep,
  any, map, ◌==◌, str_eq, is_empty, is_truthy, text_or_empty, if◌then◌else◌, ◌⊎◌, inl, inr,
}
use vrclog_companion.Client.{Event, EventsResponse, Nullable, undefined, null, value}
use vrclog_companion.Client.Requests.{EventsParams}

pub record Fetch : Type 0 where
  pub id : ℕ
  pub reset : Bool
  pub params : EventsParams

pub record Page : Type 0 where
  pub events : List Event
  pub loading : Bool
  pub error : Option String
  pub cursor : Nullable String
  pub has_more : Bool
  pub filter : String
  pub pending : List Fetch
  pub next_id : ℕ

abbrev pub initial : Page
initial = record {
  events = [];
  loading = true;
  error = none;
  cursor = null;
  has_more = false;
  filter = "";
  pending = [];
  next_id = 0;
}

-- `x || undefined`.
abbrev pub or_undefined : String → Option String
or_undefined s = if is_empty s then none else some s

abbrev pub cursor_param : Nullable String → Option String
cursor_param undefined = none
cursor_param null = none
cursor_param (value c) = or_undefined c

abbrev pub is_not_null : Nullable String → Bool
is_not_null null = false
is_not_null _ = true

-- The request of `fetchEvents`.
abbrev pub fetch_params : Bool → Page → EventsParams
fetch_params reset p = record {
  type = or_undefined p.filter;
  since = none;
  until = none;
  limit = some 50;
  cursor = if reset then none else cursor_param p.cursor;
}

-- `fetchEvents(reset)`, up to its `await`.
unfoldable pub start_fetch : Bool → Page → Page
start_fetch reset p = record p {
  loading = true;
  error = none;
  pending =
      p.pending ++ (record { id = p.next_id; reset = reset; params = fetch_params reset p }) ∷ [];
  next_id = suc p.next_id;
}

-- The rest of it, for the response or for the message of the error.
unfoldable pub finish_fetch : Bool → EventsResponse ⊎ String → Page → Page
finish_fetch reset (inl res) p = record p {
  events = if reset then res.items else p.events ++ res.items;
  cursor = res.next_cursor;
  has_more = is_not_null res.next_cursor;
  loading = false;
}
finish_fetch reset (inr message) p = record p { error = some message; loading = false }

abbrev pub find_fetch : ℕ → List Fetch → Option Fetch
find_fetch id [] = none
find_fetch id (f ∷ l) = if f.id == id then some f else find_fetch id l

-- The answer to a call that waits.
unfoldable pub answer : ℕ → EventsResponse ⊎ String → Page → Page
unfolding finish_fetch
answer id result p = elim (find_fetch id p.pending) [
  | none ↦ p
  | some f ↦
      finish_fetch f.reset result (record p { pending = keep (λ g. not (g.id == id)) p.pending })
]

-- The effect that runs at the first render and when the filter has changed.
unfoldable pub run_effect : Page → Page
unfolding start_fetch
run_effect p = start_fetch true (record p { cursor = null; events = [] })

-- A filter button: setting the same value again changes nothing.
unfoldable pub set_filter : String → Page → Page
unfolding run_effect
set_filter filter p =
    if str_eq filter p.filter then p else run_effect (record p { filter = filter })

unfoldable pub load_more : Page → Page
unfolding start_fetch
load_more p = if not p.loading && p.has_more then start_fetch false p else p

abbrev get_event_type_label : String → String
get_event_type_label type =
    if str_eq type "player_join"
    then "Join"
    else if str_eq type "player_left"
    then "Left"
    else if str_eq type "world_join"
    then "World"
    else type

abbrev get_event_type_color : String → String
get_event_type_color type =
    if str_eq type "player_join"
    then "bg-green-100 text-green-800"
    else if str_eq type "player_left"
    then "bg-red-100 text-red-800"
    else if str_eq type "world_join"
    then "bg-blue-100 text-blue-800"
    else "bg-gray-100 text-gray-800"

abbrev or_default : Option String → String → String
or_default o d = if is_truthy o then text_or_empty o else d

abbrev get_event_description : Event → String
get_event_description event =
    if str_eq event.type "player_join"
    then or_default event.player_name "Unknown player"
    else if str_eq event.type "player_left"
    then or_default event.player_name "Unknown player"
    else if str_eq event.type "world_join"
    then or_default event.world_name "Unknown world"
    else ""

pub record EventRow : Type 0 where
  pub color : String
  pub label : String
  pub description : String
  pub ts : String

abbrev event_row : Event → EventRow
event_row event = record {
  color = get_event_type_color event.type;
  label = get_event_type_label event.type;
  description = get_event_description event;
  ts = event.ts;
}

pub record FilterButton : Type 0 where
  pub filter : String
  pub color : String
  pub text : String

abbrev filter_button : String → String → String → String → FilterButton
filter_button current filter active text = record {
  filter = filter;
  color = if str_eq current filter then active else "bg-gray-100 text-gray-600 hover:bg-gray-200";
  text = text;
}

-- The filter buttons; a press of one sets its filter.
unfoldable pub filter_buttons : Page → List FilterButton
filter_buttons p =
    filter_button p.filter "" "bg-blue-100 text-blue-700" "All"
    ∷ filter_button p.filter "player_join" "bg-green-100 text-green-700" "Joins"
    ∷ filter_button p.filter "player_left" "bg-red-100 text-red-700" "Leaves"
    ∷ filter_button p.filter "world_join" "bg-blue-100 text-blue-700" "Worlds"
    ∷ []

-- What is shown under the filter buttons: the error, the rows or the note that there are none, the
-- button for more with whether it is disabled, and the loading note.
pub record View : Type 0 where
  pub error : Option String
  pub no_events : Bool
  pub rows : List EventRow
  pub more_disabled : Option Bool
  pub loading_note : Bool

abbrev is_nil : List Event → Bool
is_nil [] = true
is_nil (e ∷ l) = false

unfoldable pub render : Page → View
render p = record {
  error = if is_truthy p.error then p.error else none;
  no_events = is_nil p.events && not p.loading;
  rows = map event_row p.events;
  more_disabled = if p.has_more then some p.loading else none;
  loading_note = p.loading && is_nil p.events;
}
