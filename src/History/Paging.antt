-- ===== src/History/Paging.antt =====
-- What web/src/pages/History.tsx shows after any number of pages, for a server that answers at once.
use mathlib.Core.List.{append_assoc, append-nil}
use vrclog_companion.Prelude.{
  ℕ, zero, suc, ◌≡◌, sym, ◌∙◌, ap, true, false, none, some, List, [], ◌++◌, arith, if◌then◌else◌,
  inl, inr, String, Bool-cases, str_eq,
}
use vrclog_companion.Client.{Event, EventsResponse, Nullable, undefined}
use vrclog_companion.Client.Requests.{EventsParams}
use vrclog_companion.History.{
  Page, fetch_params, start_fetch, finish_fetch, answer, load_more, is_not_null, cursor_param,
  or_undefined, set_filter, run_effect,
}

-- Nothing waits for an answer.
pub record IsIdle (p : Page) : Type 0 where
  pub no_pending : p.pending ≡ []
  pub not_loading : p.loading ≡ false

-- One press of the button, with the server's answer to the request that it makes, if it makes one.
abbrev pub press : (EventsParams → EventsResponse) → Page → Page
press serve p =
    if p.has_more then answer p.next_id (inl (serve (fetch_params false p))) (load_more p) else p

abbrev pub presses : (EventsParams → EventsResponse) → ℕ → Page → Page
presses serve zero p = p
presses serve (suc k) p = presses serve k (press serve p)

-- The request for the page at a cursor.
abbrev pub params_at : String → Nullable String → EventsParams
params_at filter c = record {
  type = or_undefined filter;
  since = none;
  until = none;
  limit = some 50;
  cursor = cursor_param c;
}

-- The items of the next k pages from a cursor on, until one says `null`.
unfoldable pub pages_from :
    (EventsParams → EventsResponse) → String → ℕ → Nullable String → List Event
pages_from serve filter zero c = []
pages_from serve filter (suc k) c =
    let res = serve (params_at filter c) in
    let rest = pages_from serve filter k res.next_cursor in
    res.items ++ (if is_not_null res.next_cursor then rest else [])

press_more :
    (serve : EventsParams → EventsResponse) (p : Page)
    → IsIdle p
    → p.has_more ≡ true
    → let res = serve (params_at p.filter p.cursor) in
      let q = press serve p in
      (q.events ≡ p.events ++ res.items)
      × (q.cursor ≡ res.next_cursor)
      × (q.has_more ≡ is_not_null res.next_cursor)
      × (q.filter ≡ p.filter)
      × IsIdle q
unfolding answer load_more start_fetch finish_fetch
press_more serve p i m = ground arith

-- After k presses of "Load more" on an idle page, the list is what was there and the items of the
-- next k pages, each once and in order, each asked for with the cursor of the page before, up to a
-- page that says `null`; the page is idle again.
pub presses-events :
    (serve : EventsParams → EventsResponse) (k : ℕ) (p : Page)
    → IsIdle p
    → ((presses serve k p).events
        ≡ p.events ++ (if p.has_more then pages_from serve p.filter k p.cursor else []))
      × IsIdle (presses serve k p)
unfolding pages_from
presses-events serve zero p i = (
  elim p.has_more as (λ b. p.events ≡ p.events ++ (if b then [] else [])) [
    | true ↦ sym (append-nil p.events)
    | false ↦ sym (append-nil p.events)
  ],
  i,
)
presses-events serve (suc k) p i = elim (Bool-cases p.has_more) [
  | inr done ↦
      let stay : press serve p ≡ p = rw done in
      let (e, j) = presses-events serve k p i in
      (ap (λ q. (presses serve k q).events) stay ∙ e ∙ ground arith, rw stay j)
  | inl more ↦
      let (e, c, m, f, j) = press_more serve p i more in
      let (e', j') = presses-events serve k (press serve p) j in
      let res = serve (params_at p.filter p.cursor) in
      let rest =
        if is_not_null res.next_cursor then pages_from serve p.filter k res.next_cursor else [] in
      (e' ∙ rw (e, c, m, f, more) (append_assoc p.events res.items rest), j')
]

-- A server that leaves `next_cursor` out of its last page: the list goes on with the first page
-- again. The second press makes the request of the first fetch, and its items are appended.
pub presses_after_end :
    (serve : EventsParams → EventsResponse) (p : Page)
    → IsIdle p
    → p.has_more ≡ true
    → (serve (params_at p.filter p.cursor)).next_cursor ≡ undefined
    → (presses serve 2 p).events
      ≡ (p.events ++ (serve (params_at p.filter p.cursor)).items)
        ++ (serve (fetch_params true p)).items
presses_after_end serve p i m u =
    let (e, c, n, f, j) = press_more serve p i m in
    let (e', c', n', f', j') = press_more serve (press serve p) j (n ∙ ap is_not_null u) in
    e' ∙ rw (e, f, c, u)

-- If no answer says `null`, the button for more never goes away.
pub presses-has_more :
    (serve : EventsParams → EventsResponse) (k : ℕ) (p : Page)
    → ((q : EventsParams) → is_not_null (serve q).next_cursor ≡ true)
    → IsIdle p
    → p.has_more ≡ true
    → (presses serve k p).has_more ≡ true
presses-has_more serve zero p h i m = m
presses-has_more serve (suc k) p h i m =
    let (e, c, n, f, j) = press_more serve p i m in
    presses-has_more serve k (press serve p) h j (n ∙ h (params_at p.filter p.cursor))

-- The answers of two calls may come in the other order: where the filter changes while more events
-- are loading, the old filter's events are appended to the new filter's.
pub stale_answer-events :
    (p : Page) (g : String) (old new : EventsResponse)
    → IsIdle p
    → p.has_more ≡ true
    → str_eq g p.filter ≡ false
    → let changed = set_filter g (load_more p) in
      let q = answer p.next_id (inl old) (answer (suc p.next_id) (inl new) changed) in
      (q.events ≡ new.items ++ old.items) × (q.filter ≡ g)
unfolding answer load_more start_fetch finish_fetch set_filter run_effect
stale_answer-events p g old new i m n = ground arith
