-- ===== src/Tests/Paged.antt =====
-- The history page (web/src/pages/History.tsx) on a store of sixty events.
use Prim.Native.String.{String}
use vrclog_companion.Prelude.{
  ℕ, zero, true, All, ◌<◌, ◌+◌, ◌-◌, ◌*◌, ◌≡◌, ◌≤◌, refl, ap, ℤ, pos, Option, some, List, [], ◌∷◌,
  map, take, keep, suc, arith, inl,
}
use vrclog_companion.Event.{Event, Time}
use vrclog_companion.Api.Events.{QueryOrder, desc, asc}
use vrclog_companion.Api.Events.Handler.{Answer, events_ok, handle_events, response_json}
use vrclog_companion.Store.{Select, EventRow, event_to_row}
use vrclog_companion.Store.Order.{past, IsSorted}
use vrclog_companion.Store.Database.{IsDatabase, IsStorable, meets_all}
use vrclog_companion.Client.{EventsResponse, null}
use vrclog_companion.Client.Requests.{EventsParams, search_params}
use vrclog_companion.Now.Json.{event_json}
use vrclog_companion.History.{Page, initial, answer, run_effect, fetch_params}
use vrclog_companion.History.Paging.{presses}
use vrclog_companion.History.Stored.{IsServed, of_filter, presses-stored}
use vrclog_companion.Tests.Records.{
  stroke, strokes, count, count-strokes, unary, unary-IsFormats, shorter, at_time,
}

-- The times from n down to 1, and n times from k on.
abbrev down : ℕ → List Event
down zero = []
down (suc n) = at_time (suc n) ∷ down n

abbrev up : ℕ → ℕ → List Event
up k zero = []
up k (suc n) = at_time k ∷ up (suc k) n

abbrev sixty : QueryOrder → List Event
sixty desc = down 60
sixty asc = up 1 60

abbrev table : Select → Option (List EventRow)
table s =
    some
      (take s.limit (keep (meets_all shorter s.conds) (map (event_to_row unary) (sixty s.order))))

down-past : (m n : ℕ) → n < m → All (λ y. past desc m m y ≡ true) (down n)
down-past m zero h = tt
down-past m (suc n) h = (ground (arith, h), down-past m n (omega (arith, h)))

up-past : (m k n : ℕ) → m < k → All (λ y. past asc m m y ≡ true) (up k n)
up-past m k zero h = tt
up-past m k (suc n) h = (ground (arith, h), up-past m (suc k) n (omega (arith, h)))

down-IsSorted : (n : ℕ) → IsSorted desc (down n)
down-IsSorted zero = tt
down-IsSorted (suc n) = (down-past (suc n) n (omega arith), down-IsSorted n)

up-IsSorted : (k n : ℕ) → IsSorted asc (up k n)
up-IsSorted k zero = tt
up-IsSorted k (suc n) = (up-past k (suc k) n (omega arith), up-IsSorted (suc k) n)

at_time-IsStorable : (n : ℕ) → n ≤ 1000 → IsStorable (at_time n)
at_time-IsStorable n h = record {
  ts = omega (arith, h);
  ingested_at = omega arith;
  id = omega (arith, h);
}

down-IsStorable : (n : ℕ) → n ≤ 1000 → All IsStorable (down n)
down-IsStorable zero h = tt
down-IsStorable (suc n) h = (at_time-IsStorable (suc n) h, down-IsStorable n (omega (arith, h)))

up-IsStorable : (k n : ℕ) → k + n ≤ 1000 → All IsStorable (up k n)
up-IsStorable k zero h = tt
up-IsStorable k (suc n) h =
    (at_time-IsStorable k (omega (arith, h)), up-IsStorable (suc k) n (omega (arith, h)))

sixty-IsSorted : (o : QueryOrder) → IsSorted o (sixty o)
sixty-IsSorted desc = down-IsSorted 60
sixty-IsSorted asc = up-IsSorted 1 60

sixty-IsStorable : (o : QueryOrder) → All IsStorable (sixty o)
sixty-IsStorable desc = down-IsStorable 60 (omega arith)
sixty-IsStorable asc = up-IsStorable 1 60 (omega arith)

table-IsDatabase : IsDatabase unary shorter sixty table
table-IsDatabase = record {
  selects = λ s. refl;
  sorted = sixty-IsSorted;
  storable = sixty-IsStorable;
  text_order = λ a b h k. rw (count-strokes a, count-strokes b) refl;
}

-- A stroke more than the number.
abbrev show : ℕ → String
show n = String.◌∷◌ stroke (strokes n)

abbrev atoi : String → Option ℤ
atoi s = some (pos (count s - 1))

abbrev parse_time : String → Option Time
parse_time s = some (count s)

abbrev response : Answer → EventsResponse
response (events_ok r) = response_json strokes r
response _ = record { items = []; next_cursor = null }

abbrev serve : EventsParams → EventsResponse
serve p = response (handle_events parse_time atoi unary table (search_params show p))

serve-IsServed : IsServed parse_time atoi show strokes unary table serve
serve-IsServed = record {
  number = λ n. (refl, ground (arith, count-strokes n));
  answers = λ p r h. ap response h;
}

abbrev joins : Page
joins = record initial { filter = "player_join" }

abbrev loaded : Page
loaded = answer joins.next_id (inl (serve (fetch_params true joins))) (run_effect joins)

presses-stored_example :
    (presses serve 1 loaded).events
    ≡ map (event_json strokes) (take (suc 1 * 50) (keep (of_filter joins.filter) (sixty desc)))
presses-stored_example =
    presses-stored parse_time atoi show strokes unary shorter sixty table serve 1 joins
      unary-IsFormats table-IsDatabase serve-IsServed (λ h. refl) refl (omega arith)
