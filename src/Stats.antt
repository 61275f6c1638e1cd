-- ===== src/Stats.antt =====
-- web/src/pages/Stats.tsx: today's numbers.
-- A `useState` value is a field; `pending` counts the calls of `loadStats` that wait for an answer.
pub mod Shows
use vrclog_companion.Prelude.{
  ℕ, zero, suc, String, Bool, true, false, Option, none, some, List, [], ◌∷◌, is_truthy,
  text_or_empty, if◌then◌else◌, ◌⊎◌, inl, inr,
}
use vrclog_companion.Client.{StatsResponse}

pub record Page : Type 0 where
  pub stats : Option StatsResponse
  pub loading : Bool
  pub error : Option String
  pub pending : ℕ

abbrev pub initial : Page
initial = record { stats = none; loading = true; error = none; pending = 0 }

-- `loadStats`, up to its `await`.
unfoldable pub start_load : Page → Page
start_load p = record p { loading = true; error = none; pending = suc p.pending }

-- The rest of it, for the response or for the message of the error.
unfoldable pub finish_load : StatsResponse ⊎ String → Page → Page
finish_load (inl stats) p = record p { stats = some stats; loading = false }
finish_load (inr message) p = record p { error = some message; loading = false }

-- The answer to a call that waits.
unfoldable pub answer : StatsResponse ⊎ String → Page → Page
answer result p = elim p.pending [
  | zero ↦ p
  | suc k ↦ finish_load result (record p { pending = k })
]

-- `last_event` is written where there is one that is not "".
pub record Cards : Type 0 where
  pub today_joins : ℕ
  pub today_leaves : ℕ
  pub today_world_changes : ℕ
  pub recent_players : List String
  pub last_event : Option String

pub data View : Type 0 where
  loading_note : View
  error_note : String → View
  stats_cards : Cards → View

-- `stats?.… ?? 0`, and the list of players where there is one with a player.
abbrev pub cards_of : (String → String) → Option StatsResponse → Cards
cards_of show_date none = record {
  today_joins = 0;
  today_leaves = 0;
  today_world_changes = 0;
  recent_players = [];
  last_event = none;
}
cards_of show_date (some stats) = record {
  today_joins = stats.today_joins;
  today_leaves = stats.today_leaves;
  today_world_changes = stats.today_world_changes;
  recent_players = stats.recent_players;
  last_event =
      if is_truthy stats.last_event_at
      then some (show_date (text_or_empty stats.last_event_at))
      else none;
}

-- `show_date` is `new Date(…).toLocaleString()`.
unfoldable pub render : (String → String) → Page → View
render show_date p =
    if p.loading
    then loading_note
    else if is_truthy p.error
    then error_note (text_or_empty p.error)
    else stats_cards (cards_of show_date p.stats)

-- "Retry" of the error, and "Refresh" of the cards.
abbrev pub has_button : View → Bool
has_button loading_note = false
has_button (error_note message) = true
has_button (stats_cards cards) = true

pub data Action : Type 0 where
  clicks : Action
  answers : StatsResponse ⊎ String → Action

-- A click can only be on a button that is shown.
unfoldable pub step : (String → String) → Page → Action → Page
step show_date p clicks = if has_button (render show_date p) then start_load p else p
step show_date p (answers result) = answer result p

unfoldable pub run : (String → String) → Page → List Action → Page
run show_date p [] = p
run show_date p (a ∷ actions) = run show_date (step show_date p a) actions

-- The page once its effect has run.
unfoldable pub loaded : Page
unfolding start_load
loaded = start_load initial
