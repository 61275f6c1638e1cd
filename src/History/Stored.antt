-- ===== src/History/Stored.antt =====
-- The history page, web/src/pages/History.tsx, on the server's store: internal/api/events.go over
-- internal/store/events.go.
use mathlib.Core.List.{append_assoc, append-nil, map-append}
use vrclog_companion.Prelude.{
  ℕ, zero, suc, ◌+◌, ◌*◌, ◌≡◌, ◌≤◌, ◌<◌, refl, sym, ap, ◌∙◌, ℤ, pos, String, Bool, ◌||◌, str_eq,
  true, false, Option, none, some, List, [], ◌∷◌, ◌++◌, map, take, keep, length, is_empty,
  is_truthy, if◌then◌else◌, arith, inl, inr, ◌⊎◌, Bool-cases, length-append, text_or_empty,
}
use vrclog_companion.Event.{Event, Time}
use vrclog_companion.Api.Events.{QueryFilter, QueryOrder, desc}
use vrclog_companion.Api.Events.Handler.{events_ok, handle_events, next_cursor_json, response_json}
use vrclog_companion.Api.Events.RoundTrip.{asked, is_event_type, parse-search_params}
use vrclog_companion.Client
use vrclog_companion.Client.{EventsResponse, Nullable, null, value}
use vrclog_companion.Client.Requests.{EventsParams, search_params}
use vrclog_companion.Now.Json.{event_json}
use vrclog_companion.Store.{
  Formats, Select, EventRow, QueryResult, encode_cursor, page_of, effective_limit,
}
use vrclog_companion.Store.Codec.{IsFormats}
use vrclog_companion.Store.Order.{split, whole, cut_at, keep-All}
use vrclog_companion.Store.Database.{IsDatabase, wanted}
use vrclog_companion.Store.Answers.{IsMark, cursor_of, left_over, encode_cursor-nonempty}
use vrclog_companion.Store.Pages.{
  page_whole, page_cut, take-append, take_all, left_over-last, last-IsStorable, query_page,
  keep-keep, All-true,
}
use vrclog_companion.History.{
  Page, run_effect, start_fetch, answer, finish_fetch, fetch_params, is_not_null, or_undefined,
}
use vrclog_companion.History.Paging.{IsIdle, presses, params_at, pages_from, presses-events}

-- Where a list goes on, as the answer before says it.
abbrev cursor_json : Formats → Option (Time × ℕ) → Nullable String
cursor_json f none = null
cursor_json f (some (t, id)) = value (encode_cursor f t id)

-- What the page's server does: it answers a request as the handler does, where that finds no error.
pub record IsServed (parse_time : String → Option Time) (atoi : String → Option ℤ)
    (show : ℕ → String) (iso : Time → String) (f : Formats)
    (select : Select → Option (List EventRow)) (serve : EventsParams → EventsResponse)
    : Type 0 where
  pub number : (n : ℕ) → (is_empty (show n) ≡ false) × (atoi (show n) ≡ some (pos n))
  pub answers :
      (p : EventsParams) (r : QueryResult)
      → handle_events parse_time atoi f select (search_params show p) ≡ events_ok r
      → serve p ≡ response_json iso r

-- The first page, from which the presses start.
first_page :
    (serve : EventsParams → EventsResponse) (p : Page)
    → p.pending ≡ []
    → let q = answer p.next_id (inl (serve (fetch_params true p))) (run_effect p) in
      let res = serve (params_at p.filter null) in
      (q.events ≡ res.items)
      × (q.cursor ≡ res.next_cursor)
      × (q.has_more ≡ is_not_null res.next_cursor)
      × (q.filter ≡ p.filter)
      × IsIdle q
unfolding answer run_effect start_fetch finish_fetch
first_page serve p e = ground (arith, e)

-- The events that a filter button asks for; "" is that for all of them.
abbrev pub of_filter : String → Event → Bool
of_filter filter e = is_empty filter || str_eq e.type filter

wanted-of_filter :
    (parse_time : String → Option Time) (filter : String) (l : List Event)
    → keep (wanted (asked parse_time (params_at filter null))) l ≡ keep (of_filter filter) l
wanted-of_filter parse_time filter [] = refl
wanted-of_filter parse_time filter (e ∷ l) = elim (Bool-cases (is_empty filter)) [
  | inl all ↦ ground (arith, all, wanted-of_filter parse_time filter l)
  | inr one ↦ ground (arith, one, wanted-of_filter parse_time filter l)
]

module _ (parse_time : String → Option Time) (atoi : String → Option ℤ) (show : ℕ → String)
    (iso : Time → String) (f : Formats) (text_lt : String → String → Bool)
    (stored : QueryOrder → List Event) (select : Select → Option (List EventRow))
    (serve : EventsParams → EventsResponse) (filter : String) (v : IsFormats f)
    (d : IsDatabase f text_lt stored select)
    (served : IsServed parse_time atoi show iso f select serve)
    (typed : is_empty filter ≡ false → is_event_type filter ≡ true) where
  abbrev query : Option (Time × ℕ) → QueryFilter
  query mark = asked parse_time (params_at filter (cursor_json f mark))

  abbrev left : Option (Time × ℕ) → List Event
  left mark = left_over stored (query none) mark

  abbrev page : Option (Time × ℕ) → QueryResult
  page mark = page_of f 50 (take 51 (left mark))

  abbrev json : List Event → List Client.Event
  json = map (event_json iso)

  query-cursor : (mark : Option (Time × ℕ)) → (query mark).cursor ≡ cursor_of f mark
  query-cursor none = refl
  query-cursor (some (t, id)) = ground (arith, encode_cursor-nonempty f t id v)

  typed_param :
      is_truthy (or_undefined filter) ≡ true
      → is_event_type (text_or_empty (or_undefined filter)) ≡ true
  typed_param h = elim (Bool-cases (is_empty filter)) [
    | inl e ↦ ground (arith, e, h)
    | inr e ↦ ground (arith, e, typed e)
  ]

  page_answer :
      (mark : Option (Time × ℕ))
      → IsMark mark
      → serve (params_at filter (cursor_json f mark)) ≡ response_json iso (page mark)
  unfolding handle_events effective_limit
  page_answer mark k = served.answers (params_at filter (cursor_json f mark)) (page mark) (
      ground (
        arith,
        parse-search_params parse_time atoi show (params_at filter (cursor_json f mark)) _ refl
            served.number (λ h. absurd (ground (arith, h))) (λ h. absurd (ground (arith, h)))
            typed_param,
        query_page f text_lt stored select v d (query mark) mark 49 (query-cursor mark) tt tt k
            refl,
      ))

  -- The first of the pages, and the others.
  pages_first :
      (k : ℕ) (mark : Option (Time × ℕ)) (items : List Event) (next : Option String)
      → IsMark mark
      → page mark ≡ record { items = items; next_cursor = next }
      → pages_from serve filter (suc k) (cursor_json f mark)
        ≡ json items
          ++ (if is_not_null (next_cursor_json next)
              then pages_from serve filter k (next_cursor_json next)
              else [])
  unfolding pages_from
  pages_first k mark items next m e =
      ap
        (λ r.
          r.items
          ++ (if is_not_null r.next_cursor then pages_from serve filter k r.next_cursor else []))
        (page_answer mark m ∙ ap (response_json iso) e)

  -- A page that is not the last gives 50 events and a cursor for the rest.
  record IsCut (mark : Option (Time × ℕ)) : Type 0 where
    first : List Event
    last : Event
    rest : List Event
    cut : left mark ≡ first ++ last ∷ rest
    size : length first ≡ 49
    page_is : page mark ≡ record {
      items = first ++ last ∷ [];
      next_cursor = some (encode_cursor f last.ts last.id);
    }

  page_cases :
      (mark : Option (Time × ℕ))
      → ((length (left mark) ≤ 50) × (page mark ≡ record { items = left mark; next_cursor = none }))
        ⊎ IsCut mark
  page_cases mark = elim (split 49 (left mark)) [
    | whole h t ↦ inl (h, ap (page_of f 50) t ∙ page_whole f 49 (left mark) h)
    | cut_at xs last ys l n t p g ↦ inr (record {
      first = xs;
      last = last;
      rest = ys;
      cut = l;
      size = n;
      page_is = page_cut f 49 (take 51 (left mark)) (xs ++ last ∷ []) last t p g;
    })
  ]

  -- A page's last event is a mark, with what is left after it.
  IsCut-rest :
      (mark : Option (Time × ℕ)) (pre : List Event) (c : IsCut mark)
      → keep (wanted (query none)) (stored desc) ≡ pre ++ left mark
      → let next : Option (Time × ℕ) = some (c.last.ts, c.last.id) in
        IsMark next
        × (left next ≡ c.rest)
        × (keep (wanted (query none)) (stored desc)
            ≡ ((pre ++ c.first) ++ c.last ∷ []) ++ left next)
  IsCut-rest mark pre c w =
      let w' : keep (wanted (query none)) (stored desc) ≡ (pre ++ c.first) ++ c.last ∷ c.rest =
        w ∙ ap (λ t. pre ++ t) c.cut ∙ sym (append_assoc pre c.first (c.last ∷ c.rest)) in
      let s =
        last-IsStorable f text_lt stored select v d (query none) (pre ++ c.first) c.last c.rest
          w' in
      let after =
        left_over-last f text_lt stored select v d (query none) pre c.first c.last c.rest w' in
      (
        (s.ts, s.id),
        after,
        w'
            ∙ sym (append_assoc (pre ++ c.first) (c.last ∷ []) c.rest)
            ∙ ap (λ t. ((pre ++ c.first) ++ c.last ∷ []) ++ t) (sym after),
      )

  no_pages : (c : Nullable String) → pages_from serve filter zero c ≡ []
  unfolding pages_from
  no_pages c = refl

  -- A page that is cut, and the pages after it.
  pages_cut :
      (k : ℕ) (mark : Option (Time × ℕ)) (c : IsCut mark)
      → IsMark mark
      → pages_from serve filter k (value (encode_cursor f c.last.ts c.last.id))
        ≡ json (take (k * 50) c.rest)
      → pages_from serve filter (suc k) (cursor_json f mark) ≡ json (take (suc k * 50) (left mark))
  pages_cut k mark c m e =
      let items = c.first ++ c.last ∷ [] in
      let count : suc k * 50 ≡ suc (length c.first) + k * 50 = omega (arith, c.size) in
      pages_first k mark items (some (encode_cursor f c.last.ts c.last.id)) m c.page_is
      ∙ ap (λ l. json items ++ l) e
      ∙ sym (map-append (event_json iso) items (take (k * 50) c.rest))
      ∙ ap json (sym (take-append (suc k * 50) (k * 50) c.first c.last c.rest count))
      ∙ ap (λ l. json (take (suc k * 50) l)) (sym c.cut)

  pages_from-stored :
      (k : ℕ) (mark : Option (Time × ℕ)) (pre : List Event)
      → IsMark mark
      → keep (wanted (query none)) (stored desc) ≡ pre ++ left mark
      → k * 50 < length (left mark)
      → pages_from serve filter (suc k) (cursor_json f mark) ≡ json (take (suc k * 50) (left mark))
  pages_from-stored zero mark pre m w h = elim (page_cases mark) [
    | inl (short, e) ↦
        pages_first zero mark (left mark) none m e
        ∙ ap (λ l. json (left mark) ++ l) (no_pages (next_cursor_json none))
        ∙ append-nil (json (left mark))
        ∙ ap json (sym (take_all 50 (left mark) short))
    | inr c ↦ pages_cut zero mark c m (no_pages _)
  ]
  pages_from-stored (suc k) mark pre m w h = elim (page_cases mark) [
    | inl (short, e) ↦ absurd (omega (arith, h, short))
    | inr c ↦
        let (m', after, w') = IsCut-rest mark pre c w in
        let next : Option (Time × ℕ) = some (c.last.ts, c.last.id) in
        let longer : k * 50 < length (left next) = omega (
          arith,
          h,
          c.size,
          ap length after,
          ap length c.cut,
          length-append c.first (c.last ∷ c.rest),
        ) in
        let rest = pages_from-stored k next ((pre ++ c.first) ++ c.last ∷ []) m' w' longer in
        pages_cut (suc k) mark c m (rest ∙ ap (λ l. json (take (suc k * 50) l)) after)
  ]

-- The page on the store, for a database that answers as SQLite documents and a server that answers as
-- the handler does: once the effect has fetched for the page's filter, which is "" or a type of event,
-- and the button has been pressed n times, the list shows the first 50 (n + 1) stored events of the
-- filter, each once, the newest first, or all if there are fewer; provided that no page before was the
-- last one.
pub presses-stored :
    (parse_time : String → Option Time) (atoi : String → Option ℤ) (show : ℕ → String)
    (iso : Time → String) (f : Formats) (text_lt : String → String → Bool)
    (stored : QueryOrder → List Event) (select : Select → Option (List EventRow))
    (serve : EventsParams → EventsResponse) (n : ℕ) (p : Page)
    → IsFormats f
    → IsDatabase f text_lt stored select
    → IsServed parse_time atoi show iso f select serve
    → (is_empty p.filter ≡ false → is_event_type p.filter ≡ true)
    → p.pending ≡ []
    → n * 50 < length (keep (of_filter p.filter) (stored desc))
    → (presses serve n (answer p.next_id (inl (serve (fetch_params true p))) (run_effect p))).events
      ≡ map (event_json iso) (take (suc n * 50) (keep (of_filter p.filter) (stored desc)))
unfolding pages_from
presses-stored parse_time atoi show iso f text_lt stored select serve n p v d served typed e h =
    let (events, cursor, more, filter, idle) = first_page serve p e in
    let q = answer p.next_id (inl (serve (fetch_params true p))) (run_effect p) in
    let all = wanted-of_filter parse_time p.filter (stored desc) in
    let start : left_over stored (asked parse_time (params_at p.filter null)) none
        ≡ keep (wanted (asked parse_time (params_at p.filter null))) (stored desc) =
      keep-keep _ (λ x. true) (stored desc) ∙ keep-All (λ x. true) _ (All-true _) in
    let pages =
      pages_from-stored parse_time atoi show iso f text_lt stored select serve p.filter v d served
        typed n none [] tt (sym start) (omega (arith, h, ap length (start ∙ all))) in
    (presses-events serve n q idle).0
    ∙ rw (events, cursor, more, filter) refl
    ∙ pages
    ∙ ap (λ l. map (event_json iso) (take (suc n * 50) l)) (start ∙ all)
