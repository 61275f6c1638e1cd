-- ===== src/Stats/Shows.antt =====
-- What web/src/pages/Stats.tsx shows, by the answers that it has had.
use vrclog_companion.Prelude.{
  ◌≡◌, refl, String, Bool, true, false, Option, none, some, List, [], ◌∷◌, is_empty, if◌then◌else◌,
  ◌⊎◌, inl, inr, arith, Bool-cases, Option-cases, is_truthy,
}
use vrclog_companion.Client.{StatsResponse}
use vrclog_companion.Stats.{
  Page, start_load, finish_load, answer, View, loading_note, error_note, stats_cards, cards_of,
  render, Action, clicks, answers, step, run, loaded,
}

-- Whether a call is in flight, and the answers so far, the last first.
pub record Account : Type 0 where
  pub in_flight : Bool
  pub results : List (StatsResponse ⊎ String)

abbrev pub account_one : Account → Action → Account
account_one k clicks = record { in_flight = true; results = k.results }
account_one k (answers result) = record {
  in_flight = false;
  results = if k.in_flight then result ∷ k.results else k.results;
}

abbrev pub account : Account → List Action → Account
account k [] = k
account k (a ∷ actions) = account (account_one k a) actions

abbrev pub last_stats : List (StatsResponse ⊎ String) → Option StatsResponse
last_stats [] = none
last_stats (inl stats ∷ results) = some stats
last_stats (inr message ∷ results) = last_stats results

-- The message of the last answer, if that was an error with one.
abbrev pub last_message : List (StatsResponse ⊎ String) → Option String
last_message [] = none
last_message (inl stats ∷ results) = none
last_message (inr message ∷ results) = if is_empty message then none else some message

abbrev pub shown : (String → String) → Account → View
shown show_date k = if k.in_flight then loading_note else elim (last_message k.results) [
  | some message ↦ error_note message
  | none ↦ stats_cards (cards_of show_date (last_stats k.results))
]

record IsAccounted (p : Page) (k : Account) : Type 0 where
  loading : p.loading ≡ k.in_flight
  pending : p.pending ≡ (if k.in_flight then 1 else 0)
  stats : p.stats ≡ last_stats k.results
  message :
      (k.in_flight ≡ true)
      ⊎ ((if is_truthy p.error then p.error else none) ≡ last_message k.results)
  calm : (k.in_flight ≡ false) ⊎ (p.error ≡ none)

render-shown :
    (show_date : String → String) (p : Page) (k : Account)
    → IsAccounted p k
    → render show_date p ≡ shown show_date k
unfolding render
render-shown show_date p k v = elim (Bool-cases k.in_flight) [
  | inl e ↦ ground (arith, e, v.loading)
  | inr e ↦ elim (Option-cases p.error) [
    | inl q ↦ ground (arith, e, q, v.loading, v.stats, v.message)
    | inr (m, q) ↦ ground (arith, e, q, v.loading, v.stats, v.message)
  ]
]

step-IsAccounted :
    (show_date : String → String) (p : Page) (k : Account) (a : Action)
    → IsAccounted p k
    → IsAccounted (step show_date p a) (account_one k a)
unfolding step start_load finish_load answer render
step-IsAccounted show_date p k clicks v = ground (arith, v.loading)
step-IsAccounted show_date p k (answers (inl stats)) v = ground arith
step-IsAccounted show_date p k (answers (inr message)) v = ground arith

run-IsAccounted :
    (show_date : String → String) (p : Page) (k : Account) (actions : List Action)
    → IsAccounted p k
    → IsAccounted (run show_date p actions) (account k actions)
unfolding run
run-IsAccounted show_date p k [] v = v
run-IsAccounted show_date p k (a ∷ actions) v =
    run-IsAccounted show_date (step show_date p a) (account_one k a) actions
      (step-IsAccounted show_date p k a v)

-- In every run of the page, with clicks on the buttons that it shows: one call at most is in flight,
-- and the page shows that it loads exactly while one is. Else it shows the message of the last answer,
-- if that was an error with one, and if not the numbers of the last answer that was none.
pub run-shown :
    (show_date : String → String) (actions : List Action)
    → let p = run show_date loaded actions in
      let k = account (record { in_flight = true; results = [] }) actions in
      (p.pending ≡ (if k.in_flight then 1 else 0)) × (render show_date p ≡ shown show_date k)
unfolding loaded start_load
run-shown show_date actions =
    let v =
      run-IsAccounted show_date loaded (record { in_flight = true; results = [] }) actions
        (record {
          loading = refl;
          pending = refl;
          stats = refl;
          message = inl refl;
          calm = inr refl;
        }) in
    (v.pending, render-shown show_date _ _ v)
