-- ===== src/Ingest/Replay.antt =====
-- internal/ingest over a table whose database keeps the keys unique: every new line counts once.
use vrclog_companion.Prelude.{
  ℕ, ◌≡◌, refl, sym, ap, ◌∙◌, Bool, true, false, Option, List, [], ◌∷◌, ◌++◌, map, ◌==◌, ◌⊎◌, inl,
  inr, str_eq_refl, arith, All, Bool-cases,
}
use vrclog_companion.Event.{Time}
use vrclog_companion.Event.{Event as StoreEvent}
use vrclog_companion.Store.{event_to_row}
use vrclog_companion.Ingest.{Env, Event, App, Input, event_received, Ended, handle_event, run_loop}
use vrclog_companion.Ingest.Table.{
  IsTable, is_settled, has_key-append, row_of, with_id, fed, fed_rows, handle_cases, handle_fresh,
  handle_settled,
}

-- The inputs that the lines of a log become, and an event that is one of them.
abbrev pub events_of : List (Time × Event) → List Input
events_of = map (λ p. event_received false p.0 p.1)

abbrev pub Occurs : Event → List (Time × Event) → Type 0
Occurs x [] = ⊥
Occurs x (p ∷ log) = (p.1 ≡ x) ⊎ Occurs x log

module _ (env : Env) (t : IsTable env.exec) where
  settled_fed :
      (x : Event) (e : StoreEvent) (app : App)
      → is_settled env.sha256_hex app.rows x ≡ true
      → is_settled env.sha256_hex (fed env e app).rows x ≡ true
  unfolding event_to_row
  settled_fed x e app s = ground (
    arith,
    s,
    fed_rows env e app,
    has_key-append (env.sha256_hex x.raw_line) app.rows (row_of env.formats e),
  )

  fed-settles :
      (now : Time) (e : Event) (id : ℕ) (app : App)
      → is_settled env.sha256_hex (fed env (with_id env now e id) app).rows e ≡ true
  unfolding event_to_row
  fed-settles now e id app =
      let key = env.sha256_hex e.raw_line in
      ground (
        arith,
        fed_rows env (with_id env now e id) app,
        str_eq_refl key,
        has_key-append key app.rows (row_of env.formats (with_id env now e id)),
      )

  handle-settles :
      (now : Time) (e : Event) (app : App)
      → (now == 0) ≡ false
      → is_settled env.sha256_hex (handle_event env false now e app).rows e ≡ true
  handle-settles now e app h = elim (Bool-cases (is_settled env.sha256_hex app.rows e)) [
    | inl s ↦ rw (handle_settled env t false now e app h s) s
    | inr s ↦ let (id, q) = handle_fresh env t now e app h s in rw q (fed-settles now e id app)
  ]

  settled_later :
      (fails : Bool) (now : Time) (e x : Event) (app : App)
      → is_settled env.sha256_hex app.rows x ≡ true
      → is_settled env.sha256_hex (handle_event env fails now e app).rows x ≡ true
  settled_later fails now e x app s = elim (handle_cases env t fails now e app) [
    | inl same ↦ rw same s
    | inr (id, q, fresh) ↦ rw q (settled_fed x (with_id env now e id) app s)
  ]

  abbrev pub loop : List Input → App → App × Option Ended
  loop = run_loop env true true

  abbrev ingest : List (Time × Event) → App → App
  ingest [] app = app
  ingest (p ∷ log) app = ingest log (handle_event env false p.0 p.1 app)

  abbrev AllSettled : List (Time × Event) → App → Type 0
  AllSettled log app = All (λ p. is_settled env.sha256_hex app.rows p.1 ≡ true) log

  settled_all :
      (fails : Bool) (now : Time) (e : Event) (log : List (Time × Event)) (app : App)
      → AllSettled log app
      → AllSettled log (handle_event env fails now e app)
  settled_all fails now e [] app a = tt
  settled_all fails now e (p ∷ log) app a =
      (settled_later fails now e p.1 app a.0, settled_all fails now e log app a.1)

  -- Lines whose events are settled pass without a trace.
  skip_settled :
      (again : List (Time × Event)) (rest : List Input) (app : App)
      → All (λ p. (p.0 == 0) ≡ false) again
      → AllSettled again app
      → loop (events_of again ++ rest) app ≡ loop rest app
  unfolding run_loop
  skip_settled [] rest app c a = refl
  skip_settled (p ∷ again) rest app c a =
      ap (loop (events_of again ++ rest)) (handle_settled env t false p.0 p.1 app c.0 a.0)
      ∙ skip_settled again rest app c.1 a.1

  -- The events of a log are settled by its end, and what was settled before stays so.
  log-settles :
      (log : List (Time × Event)) (x : Event) (app : App)
      → All (λ p. (p.0 == 0) ≡ false) log
      → (is_settled env.sha256_hex app.rows x ≡ true) ⊎ Occurs x log
      → is_settled env.sha256_hex (ingest log app).rows x ≡ true
  log-settles [] x app c (inl s) = s
  log-settles [] x app c (inr o) = absurd o
  log-settles (p ∷ log) x app c (inl s) =
      log-settles log x (handle_event env false p.0 p.1 app) c.1
        (inl (settled_later false p.0 p.1 x app s))
  log-settles (p ∷ log) x app c (inr (inl e)) =
      log-settles log x (handle_event env false p.0 p.1 app) c.1
        (inl (rw (← e) (handle-settles p.0 p.1 app c.0)))
  log-settles (p ∷ log) x app c (inr (inr o)) =
      log-settles log x (handle_event env false p.0 p.1 app) c.1 (inr o)

  loop_log :
      (log : List (Time × Event)) (rest : List Input) (app : App)
      → loop (events_of log ++ rest) app ≡ loop rest (ingest log app)
  unfolding run_loop
  loop_log [] rest app = refl
  loop_log (p ∷ log) rest app = loop_log log rest (handle_event env false p.0 p.1 app)

  all_settled :
      (log again : List (Time × Event)) (app : App)
      → All (λ p. (p.0 == 0) ≡ false) log
      → All (λ p. Occurs p.1 log) again
      → AllSettled again (ingest log app)
  all_settled log [] app c o = tt
  all_settled log (p ∷ again) app c o =
      (log-settles log p.1 app c (inr o.0), all_settled log again app c o.1)

-- Replaying lines that a log held already, at other times of the clock, changes nothing, whatever
-- comes after them: not the tables, the derived state, the notifier's channel or the hub's; when the
-- database keeps its keys unique and does not fail meanwhile, and the clock is never the zero time.
pub replay_again :
    (env : Env) (log again : List (Time × Event)) (rest : List Input) (app : App)
    → IsTable env.exec
    → All (λ p. (p.0 == 0) ≡ false) log
    → All (λ p. (p.0 == 0) ≡ false) again
    → All (λ p. Occurs p.1 log) again
    → run_loop env true true (events_of log ++ (events_of again ++ rest)) app
      ≡ run_loop env true true (events_of log ++ rest) app
replay_again env log again rest app t c c' o =
    loop_log env t log (events_of again ++ rest) app
    ∙ skip_settled env t again rest _ c' (all_settled env t log again app c o)
    ∙ sym (loop_log env t log rest app)
