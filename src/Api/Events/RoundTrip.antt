-- ===== src/Api/Events/RoundTrip.antt =====
-- The query that the browser writes (web/src/api/client.ts) is read back by the server
-- (internal/api/events.go).
use text.Mathlib.TextEquality.{eq_iff}
use vrclog_companion.Prelude.{
  ℕ, zero, suc, ℤ, pos, ◌≡◌, refl, ◌∙◌, ◌≢◌, String, Bool, true, false, ◌||◌, Option, none, some,
  List, [], ◌∷◌, ◌++◌, str_eq, is_empty, is_truthy, text_or_empty, if◌then◌else◌, arith,
}
use vrclog_companion.Event.{Time, type_player_join, type_player_left, type_world_join}
use vrclog_companion.Client.Requests.{EventsParams, search_params, show_limit, set_if}
use vrclog_companion.Api.Events.{
  QueryFilter, desc, parsed, no_filter, get, parse_since, parse_until, parse_type, parse_limit,
  parse_cursor, parse_events_filter,
}

-- Nothing for an absent or empty text.
abbrev pub time_of : (String → Option Time) → Option String → Option Time
time_of parse_time o = if is_truthy o then parse_time (text_or_empty o) else none

abbrev pub given : Option String → Option String
given o = if is_truthy o then o else none

abbrev pub limit_of : Option ℕ → ℕ
limit_of none = 0
limit_of (some n) = n

abbrev pub is_event_type : String → Bool
is_event_type t = str_eq t type_player_join || str_eq t type_player_left || str_eq t type_world_join

-- What the page asks for.
abbrev pub asked : (String → Option Time) → EventsParams → QueryFilter
asked parse_time p = record {
  since = time_of parse_time p.since;
  until = time_of parse_time p.until;
  type = given p.type;
  limit = pos (limit_of p.limit);
  cursor = given p.cursor;
  order = desc;
}

empty_of_falsy : (o : Option String) → is_truthy o ≡ false → text_or_empty o ≡ ""
empty_of_falsy none h = refl
empty_of_falsy (some String.[]) h = refl
empty_of_falsy (some (String.◌∷◌ c s)) h = absurd (ground arith)

has_key : String → List (String × String) → Bool
has_key key [] = false
has_key key ((k, v) ∷ q) = str_eq k key || has_key key q

get-append :
    (l : List (String × String)) (k v key : String)
    → get (l ++ (k, v) ∷ []) key
      ≡ (if has_key key l then get l key else (if str_eq k key then v else ""))
unfolding has_key
get-append [] k v key = refl
get-append (e ∷ l) k v key = ground (arith, get-append l k v key)

has_key-append :
    (l : List (String × String)) (k v key : String)
    → has_key key (l ++ (k, v) ∷ []) ≡ has_key key l || str_eq k key
unfolding has_key
has_key-append [] k v key = ground arith
has_key-append (e ∷ l) k v key = ground (arith, has_key-append l k v key)

-- A key is written once: with its own value, which is "" where nothing is written.
get-set_if_self :
    (l : List (String × String)) (key : String) (o : Option String)
    → has_key key l ≡ false
    → get l key ≡ ""
    → get (set_if key o l) key ≡ text_or_empty o
get-set_if_self l key o h g =
    ground (arith, get-append l key (text_or_empty o) key, empty_of_falsy o, eq_iff key key)

get_missing : (l : List (String × String)) (key : String) → has_key key l ≡ false → get l key ≡ ""
unfolding has_key
get_missing [] key h = refl
get_missing ((k, v) ∷ l) key h = ground (arith, get_missing l key)

get-set_if_ne :
    (l : List (String × String)) (k key : String) (o : Option String)
    → str_eq k key ≡ false
    → get (set_if k o l) key ≡ get l key
get-set_if_ne l k key o n = ground (arith, get-append l k (text_or_empty o) key, get_missing l key)

has_key-set_if_ne :
    (l : List (String × String)) (k key : String) (o : Option String)
    → str_eq k key ≡ false
    → has_key key (set_if k o l) ≡ has_key key l
has_key-set_if_ne l k key o n = ground (arith, has_key-append l k (text_or_empty o) key)

module _ (show : ℕ → String) (p : EventsParams) where
  abbrev q1 : List (String × String)
  q1 = set_if "type" p.type []

  abbrev q2 : List (String × String)
  q2 = set_if "since" p.since q1

  abbrev q3 : List (String × String)
  q3 = set_if "until" p.until q2

  abbrev q4 : List (String × String)
  q4 = set_if "limit" (show_limit show p.limit) q3

  get-type : get (search_params show p) "type" ≡ text_or_empty p.type
  unfolding search_params has_key
  get-type =
      get-set_if_ne q4 "cursor" "type" p.cursor refl
      ∙ get-set_if_ne q3 "limit" "type" (show_limit show p.limit) refl
      ∙ get-set_if_ne q2 "until" "type" p.until refl
      ∙ get-set_if_ne q1 "since" "type" p.since refl
      ∙ get-set_if_self [] "type" p.type refl refl

  get-since : get (search_params show p) "since" ≡ text_or_empty p.since
  unfolding search_params has_key
  get-since =
      get-set_if_ne q4 "cursor" "since" p.cursor refl
      ∙ get-set_if_ne q3 "limit" "since" (show_limit show p.limit) refl
      ∙ get-set_if_ne q2 "until" "since" p.until refl
      ∙ get-set_if_self q1 "since" p.since (has_key-set_if_ne [] "type" "since" p.type refl)
          (get-set_if_ne [] "type" "since" p.type refl)

  get-until : get (search_params show p) "until" ≡ text_or_empty p.until
  unfolding search_params has_key
  get-until =
      get-set_if_ne q4 "cursor" "until" p.cursor refl
      ∙ get-set_if_ne q3 "limit" "until" (show_limit show p.limit) refl
      ∙ get-set_if_self q2 "until" p.until absent (get_missing q2 "until" absent)
    where
      absent : has_key "until" q2 ≡ false
      absent =
          has_key-set_if_ne q1 "since" "until" p.since refl
          ∙ has_key-set_if_ne [] "type" "until" p.type refl

  get-limit : get (search_params show p) "limit" ≡ text_or_empty (show_limit show p.limit)
  unfolding search_params has_key
  get-limit =
      get-set_if_ne q4 "cursor" "limit" p.cursor refl
      ∙ get-set_if_self q3 "limit" (show_limit show p.limit) absent (get_missing q3 "limit" absent)
    where
      absent : has_key "limit" q3 ≡ false
      absent =
          has_key-set_if_ne q2 "until" "limit" p.until refl
          ∙ has_key-set_if_ne q1 "since" "limit" p.since refl
          ∙ has_key-set_if_ne [] "type" "limit" p.type refl

  get-cursor : get (search_params show p) "cursor" ≡ text_or_empty p.cursor
  unfolding search_params has_key
  get-cursor = get-set_if_self q4 "cursor" p.cursor absent (get_missing q4 "cursor" absent)
    where
      absent : has_key "cursor" q4 ≡ false
      absent =
          has_key-set_if_ne q3 "limit" "cursor" (show_limit show p.limit) refl
          ∙ has_key-set_if_ne q2 "until" "cursor" p.until refl
          ∙ has_key-set_if_ne q1 "since" "cursor" p.since refl
          ∙ has_key-set_if_ne [] "type" "cursor" p.type refl

module _ (parse_time : String → Option Time) (atoi : String → Option ℤ) where
  parse_since-given :
      (o : Option String) (f : QueryFilter)
      → f.since ≡ none
      → (is_truthy o ≡ true → parse_time (text_or_empty o) ≢ none)
      → parse_since parse_time atoi (text_or_empty o) f
        ≡ parsed (record f { since = time_of parse_time o })
  unfolding parse_since
  parse_since-given none f e h = ground arith
  parse_since-given (some t) f e h = ground arith

  parse_until-given :
      (o : Option String) (f : QueryFilter)
      → f.until ≡ none
      → (is_truthy o ≡ true → parse_time (text_or_empty o) ≢ none)
      → parse_until parse_time atoi (text_or_empty o) f
        ≡ parsed (record f { until = time_of parse_time o })
  unfolding parse_until
  parse_until-given none f e h = ground arith
  parse_until-given (some t) f e h = ground arith

  parse_type-given :
      (o : Option String) (f : QueryFilter)
      → f.type ≡ none
      → (is_truthy o ≡ true → is_event_type (text_or_empty o) ≡ true)
      → parse_type parse_time atoi (text_or_empty o) f ≡ parsed (record f { type = given o })
  unfolding parse_type
  parse_type-given none f e h = ground arith
  parse_type-given (some t) f e h = ground arith

  parse_cursor-given :
      (o : Option String) (f : QueryFilter)
      → f.cursor ≡ none
      → parse_cursor parse_time atoi (text_or_empty o) f ≡ parsed (record f { cursor = given o })
  unfolding parse_cursor
  parse_cursor-given none f e = ground arith
  parse_cursor-given (some t) f e = ground arith

  parse_limit-given :
      (show : ℕ → String) (o : Option ℕ) (f : QueryFilter)
      → f.limit ≡ pos 0
      → ((n : ℕ) → (is_empty (show n) ≡ false) × (atoi (show n) ≡ some (pos n)))
      → parse_limit parse_time atoi (text_or_empty (show_limit show o)) f
        ≡ parsed (record f { limit = pos (limit_of o) })
  unfolding parse_limit
  parse_limit-given show none f e num = ground arith
  parse_limit-given show (some zero) f e num = ground arith
  parse_limit-given show (some (suc n)) f e num = let (written, read) = num (suc n) in ground arith

-- The query that `fetchEvents` writes is read by `parseEventsFilter` as the filter that was asked
-- for, when: the pairs of the query arrive as they were set; a printed number is not empty and reads
-- as itself; the times that are given parse; and the type, if it is given, is one of the three event
-- types.
pub parse-search_params :
    (parse_time : String → Option Time) (atoi : String → Option ℤ) (show : ℕ → String)
    (p : EventsParams) (arrived : List (String × String))
    → arrived ≡ search_params show p
    → ((n : ℕ) → (is_empty (show n) ≡ false) × (atoi (show n) ≡ some (pos n)))
    → (is_truthy p.since ≡ true → parse_time (text_or_empty p.since) ≢ none)
    → (is_truthy p.until ≡ true → parse_time (text_or_empty p.until) ≢ none)
    → (is_truthy p.type ≡ true → is_event_type (text_or_empty p.type) ≡ true)
    → parse_events_filter parse_time atoi arrived ≡ parsed (asked parse_time p)
unfolding parse_events_filter
parse-search_params parse_time atoi show p arrived same num s u t =
    let f1 = record no_filter { since = time_of parse_time p.since } in
    let f2 = record f1 { until = time_of parse_time p.until } in
    let f3 = record f2 { type = given p.type } in
    let f4 = record f3 { limit = pos (limit_of p.limit) } in
    rw (
      same,
      get-since show p,
      get-until show p,
      get-type show p,
      get-limit show p,
      get-cursor show p,
      parse_since-given parse_time atoi p.since no_filter refl s,
      parse_until-given parse_time atoi p.until f1 refl u,
      parse_type-given parse_time atoi p.type f2 refl t,
      parse_limit-given parse_time atoi show p.limit f3 refl num,
      parse_cursor-given parse_time atoi p.cursor f4 refl,
    )
