-- ===== src/Store/Answers.antt =====
-- What a query of internal/store/events.go answers, for a database that answers as SQLite documents it.
use Prim.Native.String.{◌++◌ as str_append}
use Prim.Native.String.append
use vrclog_companion.Prelude.{
  ℕ, zero, suc, ◌+◌, ◌^◌, ◌≡◌, ◌≤◌, ◌<◌, refl, ap, ◌∙◌, pos, Bool, true, false, ◌&&◌, String,
  is_empty, List, [], ◌∷◌, ◌++◌, All, All-keep, keep, take, arith, Option, some, none, map,
}
use vrclog_companion.Event.{Event, Time}
use vrclog_companion.Api.Events.{QueryFilter, QueryOrder}
use vrclog_companion.Store.{
  Formats, EventRow, Cond, Select, event_to_row, encode_cursor, query_events, query_ok,
  effective_limit, page_of, scan_rows, since_conds, until_conds, type_conds, cursor_cond,
  cursor_conds,
}
use vrclog_companion.Store.Codec.{
  IsFormats, last_time, to_event-event_to_row, decode_cursor-encode_cursor,
}
use vrclog_companion.Store.Order.{past}
use vrclog_companion.Store.Database.{meets_all, IsStorable, IsDatabase, wanted}
use vrclog_companion.Store.Conditions.{
  meets_all-append, IsBound, meets-since, meets-until, meets-type, meets-cursor,
}

keep-map :
    {A B : Type 0} (p : B → Bool) (g : A → B) (l : List A)
    → keep p (map g l) ≡ map g (keep (λ x. p (g x)) l)
keep-map p g [] = refl
keep-map p g (x ∷ l) = ground (arith, keep-map p g l)

take-map : {A B : Type 0} (g : A → B) (n : ℕ) (l : List A) → take n (map g l) ≡ map g (take n l)
take-map g zero l = refl
take-map g (suc n) [] = refl
take-map g (suc n) (x ∷ l) = ap (λ t. g x ∷ t) (take-map g n l)

scan_rows-map :
    (f : Formats) (l : List Event)
    → IsFormats f
    → All IsStorable l
    → scan_rows f (map (event_to_row f) l) ≡ some l
scan_rows-map f [] v a = refl
scan_rows-map f (e ∷ l) v a =
    ground (arith, to_event-event_to_row f e v a.0.ts a.0.ingested_at, scan_rows-map f l v a.1)

keep-same :
    (p r : Event → Bool) (P : Event → Type 0) (l : List Event)
    → ((e : Event) → P e → p e ≡ r e)
    → All P l
    → keep p l ≡ keep r l
keep-same p r P [] h a = refl
keep-same p r P (e ∷ l) h a = ground (arith, h e a.0, keep-same p r P l h a.1)

All-take : (P : Event → Type 0) (n : ℕ) (l : List Event) → All P l → All P (take n l)
All-take P zero l a = tt
All-take P (suc n) [] a = tt
All-take P (suc n) (e ∷ l) a = (a.0, All-take P n l a.1)

is_empty-append : (a s : String) → is_empty (str_append a (str_append "|" s)) ≡ false
is_empty-append String.[] s =
    ap is_empty (append.nil (str_append "|" s)) ∙ ap is_empty (append.cons _ "" s)
is_empty-append (String.◌∷◌ c a) s = ap is_empty (append.cons c a (str_append "|" s))

-- Where a caller is: at the start, or past the time and id of an event.
abbrev pub cursor_of : Formats → Option (Time × ℕ) → Option String
cursor_of f none = none
cursor_of f (some (t, id)) = some (encode_cursor f t id)

abbrev pub IsMark : Option (Time × ℕ) → Type 0
IsMark none = Unit
IsMark (some (t, id)) = (t ≤ last_time) × (id < 2 ^ 63)

abbrev pub past_mark : QueryOrder → Option (Time × ℕ) → Event → Bool
past_mark o none e = true
past_mark o (some (t, id)) e = past o t id e

abbrev mark_conds : Formats → QueryOrder → Option (Time × ℕ) → List Cond
mark_conds f o none = []
mark_conds f o (some (t, id)) = cursor_cond o (f.format_time t) (pos id) ∷ []

pub encode_cursor-nonempty :
    (f : Formats) (t : Time) (id : ℕ) → IsFormats f → is_empty (encode_cursor f t id) ≡ false
unfolding encode_cursor
encode_cursor-nonempty f t id v =
    v.raw_url_nonempty _ (is_empty-append (f.format_time t) (f.format_int id))

cursor_conds_lem :
    (f : Formats) (o : QueryOrder) (mark : Option (Time × ℕ))
    → IsFormats f
    → IsMark mark
    → cursor_conds f o (cursor_of f mark) ≡ some (mark_conds f o mark)
cursor_conds_lem f o none v m = refl
cursor_conds_lem f o (some (t, id)) v m =
    ground (arith, encode_cursor-nonempty f t id v, decode_cursor-encode_cursor f t id v m.0 m.1)

-- The statement of a query, from a mark.
abbrev statement : Formats → QueryFilter → Option (Time × ℕ) → Select
statement f q mark = record {
  conds =
      since_conds f q.since
      ++ until_conds f q.until
      ++ type_conds f q.type
      ++ mark_conds f q.order mark;
  order = q.order;
  limit = effective_limit q.limit + 1;
}

-- The events that a query may still give.
abbrev pub left_over : (QueryOrder → List Event) → QueryFilter → Option (Time × ℕ) → List Event
left_over stored q mark = keep (λ e. wanted q e && past_mark q.order mark e) (stored q.order)

module _ (f : Formats) (text_lt : String → String → Bool) (stored : QueryOrder → List Event)
    (select : Select → Option (List EventRow)) (v : IsFormats f)
    (d : IsDatabase f text_lt stored select) where
  meets-mark :
      (o : QueryOrder) (mark : Option (Time × ℕ)) (e : Event)
      → IsMark mark
      → IsStorable e
      → meets_all text_lt (mark_conds f o mark) (event_to_row f e) ≡ past_mark o mark e
  meets-mark o none e m s = refl
  meets-mark o (some (t, id)) e m s =
      ground (arith, meets-cursor f text_lt d.text_order v o t id e m.0 s)

  meets-wanted :
      (q : QueryFilter) (mark : Option (Time × ℕ)) (e : Event)
      → IsBound q.since
      → IsBound q.until
      → IsMark mark
      → IsStorable e
      → meets_all text_lt (statement f q mark).conds (event_to_row f e)
        ≡ wanted q e && past_mark q.order mark e
  meets-wanted q mark e a b m s =
      let row = event_to_row f e in
      let k = mark_conds f q.order mark in
      ground (
        arith,
        meets_all-append text_lt (since_conds f q.since)
            (until_conds f q.until ++ type_conds f q.type ++ k) row,
        meets_all-append text_lt (until_conds f q.until) (type_conds f q.type ++ k) row,
        meets_all-append text_lt (type_conds f q.type) k row,
        meets-since f text_lt d.text_order v q.since e a s,
        meets-until f text_lt d.text_order v q.until e b s,
        meets-type f text_lt d.text_order v q.type e,
        meets-mark q.order mark e m s,
      )

  select_lem :
      (q : QueryFilter) (mark : Option (Time × ℕ))
      → IsBound q.since
      → IsBound q.until
      → IsMark mark
      → select (statement f q mark)
        ≡ some (map (event_to_row f) (take (effective_limit q.limit + 1) (left_over stored q mark)))
  select_lem q mark a b m =
      d.selects (statement f q mark)
      ∙ ap (λ l. some (take (effective_limit q.limit + 1) l))
          (keep-map (meets_all text_lt (statement f q mark).conds) (event_to_row f) (stored q.order)
            ∙ ap (map (event_to_row f)) (
                keep-same _ _ IsStorable (stored q.order) (λ e s. meets-wanted q mark e a b m s)
                  (d.storable q.order)))
      ∙ ap some (take-map (event_to_row f) (effective_limit q.limit + 1) (left_over stored q mark))

  pub query_events_lem :
      (q : QueryFilter) (mark : Option (Time × ℕ))
      → q.cursor ≡ cursor_of f mark
      → IsBound q.since
      → IsBound q.until
      → IsMark mark
      → query_events f select q
        ≡ query_ok (
            page_of f
              (effective_limit q.limit)
              (take (effective_limit q.limit + 1) (left_over stored q mark)))
  unfolding query_events
  query_events_lem q mark c a b m =
      let l = effective_limit q.limit in
      let items = take (l + 1) (left_over stored q mark) in
      let ok : All IsStorable items =
        All-take IsStorable (l + 1) _
          (All-keep IsStorable _ (stored q.order) (d.storable q.order)) in
      ground (
        arith,
        c,
        cursor_conds_lem f q.order mark v m,
        select_lem q mark a b m,
        scan_rows-map f items v ok,
      )
