-- ===== src/Api/Stream/Replay.antt =====
-- A page that reconnects, web/src/hooks/useSSE.ts, and what internal/api/stream.go sends it first.
use mathlib.Core.List.{append_assoc}
use vrclog_companion.Prelude.{
  ◌⊎◌, inl, inr, Option-cases, ℕ, zero, suc, ◌*◌, ◌^◌, ◌≡◌, ◌≤◌, ◌<◌, refl, sym, ap, ◌∙◌, String,
  Bool, true, Option, none, some, List, [], ◌∷◌, ◌++◌, take, keep, arith, text_or_empty,
}
use vrclog_companion.Event.{Event, Time}
use vrclog_companion.Api.Events.{QueryFilter, QueryOrder, asc}
use vrclog_companion.Store.{
  Formats, Select, EventRow, encode_cursor, query_events, query_ok, query_err, effective_limit,
  Queried, QueryResult, StoreError,
}
use vrclog_companion.Store.Codec.{IsFormats, last_time}
use vrclog_companion.Store.Order.{past, past_suffix, keep-All}
use vrclog_companion.Store.Database.{IsDatabase}
use vrclog_companion.Store.Pages.{follow, follow_from, All-true}
use vrclog_companion.Store.Answers.{encode_cursor-nonempty}
use vrclog_companion.Client.{NowResponse}
use vrclog_companion.Sse.{
  Source, step, run, initial, Action, resync_fetched, waits, is_resync_of_connect,
}
use vrclog_companion.Sse.Resume.{last_received, open-resumes}
use vrclog_companion.Api.Stream.{
  write_sse_event, write_sse_events, missed_loop, missed_filter, replay,
}

write_sse_events-append :
    (f : Formats) (marshal : Event → Option String) (l k : List Event)
    → write_sse_events f marshal (l ++ k)
      ≡ write_sse_events f marshal l ++ write_sse_events f marshal k
write_sse_events-append f marshal [] k = refl
write_sse_events-append f marshal (e ∷ l) k =
    ap (λ t. write_sse_event f marshal e ++ t) (write_sse_events-append f marshal l k)
    ∙ sym (append_assoc (write_sse_event f marshal e) _ _)

Queried-cases :
    (r : Queried) → ((x : QueryResult) × (r ≡ query_ok x)) ⊎ ((x : StoreError) × (r ≡ query_err x))
Queried-cases (query_ok x) = inl (x, refl)
Queried-cases (query_err x) = inr (x, refl)

-- The loop writes what a caller gets who follows the cursors without an error.
missed_loop-follow :
    (f : Formats) (marshal : Event → Option String) (select : Select → Option (List EventRow))
    (n : ℕ) (q : QueryFilter) (items : List Event)
    → follow f select n q ≡ some items
    → missed_loop f marshal select n q ≡ write_sse_events f marshal items
unfolding missed_loop follow
missed_loop-follow f marshal select zero q items h = ground (arith, h)
missed_loop-follow f marshal select (suc n) q items h =
    elim (Queried-cases (query_events f select q)) [
      | inr (x, e) ↦ ground (arith, e, h)
      | inl (r, e) ↦ elim (Option-cases r.next_cursor) [
        | inl c ↦ ground (arith, e, c, h)
        | inr (c, k) ↦
            let q' : QueryFilter = record q { cursor = some c } in
            elim (Option-cases (follow f select n q')) [
              | inl z ↦ ground (arith, e, k, z, h)
              | inr (rest, z) ↦ ground (
                arith,
                e,
                k,
                z,
                h,
                missed_loop-follow f marshal select n q' rest z,
                write_sse_events-append f marshal r.items rest,
              )
            ]
      ]
    ]

module _ (f : Formats) (text_lt : String → String → Bool) (stored : QueryOrder → List Event)
    (select : Select → Option (List EventRow)) (v : IsFormats f)
    (d : IsDatabase f text_lt stored select) where
  follow_missed :
      (n : ℕ) (t : Time) (id : ℕ)
      → t ≤ last_time
      → id < 2 ^ 63
      → follow f select n (missed_filter (encode_cursor f t id))
        ≡ some (take (n * 100) (keep (past asc t id) (stored asc)))
  follow_missed n t id h k =
      let q = missed_filter (encode_cursor f t id) in
      let (pre, e) = past_suffix asc t id (stored asc) (d.sorted asc) in
      let l : effective_limit q.limit ≡ suc 99 = unfold effective_limit in refl in
      follow_from f text_lt stored select v d n q (some (t, id)) pre 99 refl tt tt (h, k) l
        (keep-All (λ e. true) (stored asc) (All-true (stored asc)) ∙ e)

  -- What the server writes first to a stream whose last event id is that of a time and an id.
  replay-take :
      (marshal : Event → Option String) (t : Time) (id : ℕ)
      → t ≤ last_time
      → id < 2 ^ 63
      → replay f marshal select "" (encode_cursor f t id)
        ≡ write_sse_events f marshal (take 500 (keep (past asc t id) (stored asc)))
  unfolding replay
  replay-take marshal t id h k =
      let full = encode_cursor-nonempty f t id v in
      ground (
        arith,
        full,
        missed_loop-follow f marshal select 5 (missed_filter (encode_cursor f t id)) _
            (follow_missed 5 t id h k),
      )

-- A page whose last message, in any run of its hook, had the cursor of a time and an id opens its next
-- stream with that cursor; and the server, for a database that answers as SQLite documents, then writes
-- first every stored event past that time and id that can be written as JSON, each once and oldest
-- first, up to 500 of them.
pub reconnect-replay :
    (f : Formats) (text_lt : String → String → Bool) (stored : QueryOrder → List Event)
    (select : Select → Option (List EventRow)) (marshal : Event → Option String)
    (actions : List Action) (task : ℕ) (state : Option NowResponse) (t : Time) (id : ℕ)
    → IsFormats f
    → IsDatabase f text_lt stored select
    → waits is_resync_of_connect task (run initial actions).tasks ≡ true
    → last_received none initial actions ≡ some (encode_cursor f t id)
    → t ≤ last_time
    → id < 2 ^ 63
    → (source : Source) × ((step (run initial actions) (resync_fetched task state)).sources
        ≡ (run initial actions).sources ++ source ∷ [])
      × (replay f marshal select "" (text_or_empty source.url_last_event_id)
          ≡ write_sse_events f marshal (take 500 (keep (past asc t id) (stored asc))))
reconnect-replay f text_lt stored select marshal actions task state t id v d w last h k = (
  record {
    id = (run initial actions).next_id;
    url_token = (run initial actions).token;
    url_last_event_id = last_received none initial actions;
  },
  open-resumes actions task state w,
  rw last (replay-take f text_lt stored select v d marshal t id h k),
)
