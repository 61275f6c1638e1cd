-- ===== src/Api/Stream/Open/Taken.antt =====
-- What the handler of a stream takes from the channel that internal/api/hub.go feeds.
use vrclog_companion.Prelude.{
  ℕ, ◌≡◌, refl, sym, ap, ◌∙◌, Bool, true, false, ◌&&◌, Option, none, some, List, [], ◌∷◌, ◌++◌, map,
  ◌==◌, arith, Bool-cases, List-cases, inl, inr, if◌then◌else◌,
}
use vrclog_companion.Event.{Event}
use vrclog_companion.Api.Hub as Hub
use vrclog_companion.Api.Hub.{
  Subscriber, new_subscriber, subscribe, unsubscribe, publish, offer, handle_broadcast,
  receive_broadcast, stop, take_event, take_of, close_some, subscribes, unsubscribes, publishes,
  broadcasts, stops, takes,
}
use vrclog_companion.Api.Stream.Open.{events_of, is_own}

-- What the handler of a subscriber has taken from its channel.
abbrev pub taken_of : ℕ → List Subscriber → List Event
taken_of id [] = []
taken_of id (s ∷ l) = if s.id == id then s.taken else taken_of id l

taken_of-map :
    (id : ℕ) (g : Subscriber → Subscriber) (l : List Subscriber)
    → ((s : Subscriber) → (g s).id ≡ s.id)
    → ((s : Subscriber) → (s.id == id) ≡ true → (g s).taken ≡ s.taken)
    → taken_of id (map g l) ≡ taken_of id l
taken_of-map id g [] same kept = refl
taken_of-map id g (s ∷ l) same kept =
    let rest = taken_of-map id g l same kept in
    elim (Bool-cases (s.id == id)) [
      | inl e ↦ rw (same s, e) (kept s e)
      | inr e ↦ rw (same s, e) rest
    ]

taken_of-append :
    (id : ℕ) (s : Subscriber) (l : List Subscriber)
    → s.taken ≡ []
    → taken_of id (l ++ s ∷ []) ≡ taken_of id l
taken_of-append id s [] e = elim (Bool-cases (s.id == id)) [ inl h ↦ rw h e | inr h ↦ rw h refl ]
taken_of-append id s (x ∷ l) e = elim (Bool-cases (x.id == id)) [
  | inl h ↦ rw h refl
  | inr h ↦ rw h (taken_of-append id s l e)
]

-- A receive takes the first event of the channel.
pub taken_of-take_of :
    (id : ℕ) (l : List Subscriber) (e : Event) (rest : List Event)
    → events_of id l ≡ e ∷ rest
    → taken_of id (map (λ s. if s.id == id then take_event s else s) l) ≡ taken_of id l ++ e ∷ []
unfolding take_event
taken_of-take_of id [] e rest h = ground (arith, h)
taken_of-take_of id (s ∷ l) e rest h = elim (Bool-cases (s.id == id)) [
  | inl k ↦ ground (arith, k, h)
  | inr k ↦ ground (arith, k, h, taken_of-take_of id l e rest (sym (rw k refl) ∙ h))
]

close_some-taken_of :
    (id : ℕ) (test : Subscriber → Bool) (h : Hub.Hub)
    → taken_of id (close_some test h).subscribers ≡ taken_of id h.subscribers
close_some-taken_of id test h =
    taken_of-map id _ h.subscribers
      (λ s. elim (Bool-cases (test s)) [ inl e ↦ rw e refl | inr e ↦ rw e refl ])
      (λ s k. elim (Bool-cases (test s)) [ inl e ↦ rw e refl | inr e ↦ rw e refl ])

offer-kept :
    (size : ℕ) (e : Event) (s : Subscriber)
    → ((offer size e s).id ≡ s.id) × ((offer size e s).taken ≡ s.taken)
unfolding offer
offer-kept size e s = ground arith

pub unsubscribe-taken_of :
    (id j : ℕ) (h : Hub.Hub) → taken_of id (unsubscribe j h).subscribers ≡ taken_of id h.subscribers
unfolding unsubscribe
unsubscribe-taken_of id j h = elim (Bool-cases h.is_stopped) [
  | inl e ↦ rw (unsubscribe, e) refl
  | inr e ↦ rw (unsubscribe, e) (close_some-taken_of id (λ s. s.id == j && s.is_client) h)
]

publish-subscribers :
    (choice : Bool) (e : Option Event) (h : Hub.Hub)
    → (publish choice e h).subscribers ≡ h.subscribers
unfolding publish
publish-subscribers choice none h = refl
publish-subscribers choice (some e) h = ground arith

receive_broadcast-taken_of :
    (id : ℕ) (h : Hub.Hub)
    → taken_of id (receive_broadcast h).subscribers ≡ taken_of id h.subscribers
unfolding receive_broadcast handle_broadcast
receive_broadcast-taken_of id h = elim (List-cases h.broadcast) [
  | inl e ↦ rw (receive_broadcast, e) refl
  | inr (e, rest, q) ↦
      rw (receive_broadcast, q)
        (taken_of-map id (offer h.subscriber_buffer_size e) h.subscribers
          (λ s. (offer-kept h.subscriber_buffer_size e s).0)
          (λ s k. (offer-kept h.subscriber_buffer_size e s).1))
]

take_event-kept : (s : Subscriber) → (take_event s).id ≡ s.id
unfolding take_event
take_event-kept s = elim (List-cases s.events) [
  | inl e ↦ rw (take_event, e) refl
  | inr (e, rest, q) ↦ rw (take_event, q) refl
]

take_of-taken_of :
    (id j : ℕ) (h : Hub.Hub)
    → (j == id) ≡ false
    → taken_of id (take_of j h).subscribers ≡ taken_of id h.subscribers
take_of-taken_of id j h other =
    taken_of-map id _ h.subscribers
      (λ s. elim (Bool-cases (s.id == j)) [ inl e ↦ rw e (take_event-kept s) | inr e ↦ rw e refl ])
      (λ s k. elim (Bool-cases (s.id == j)) [
        | inl e ↦ absurd (ground (arith, e, k, other))
        | inr e ↦ rw e refl
      ])

if_same :
    (id : ℕ) (b : Bool) (x y : Hub.Hub) (l : List Event)
    → taken_of id x.subscribers ≡ l
    → taken_of id y.subscribers ≡ l
    → taken_of id (if b then x else y).subscribers ≡ l
if_same id true x y l h k = h
if_same id false x y l h k = k

pub step-taken_of :
    (id : ℕ) (h : Hub.Hub) (a : Hub.Action)
    → is_own id a ≡ false
    → taken_of id (Hub.step h a).subscribers ≡ taken_of id h.subscribers
unfolding Hub.step subscribe stop
step-taken_of id h subscribes o =
    taken_of-append id (new_subscriber h.is_stopped h) h.subscribers refl
step-taken_of id h (unsubscribes j) o = unsubscribe-taken_of id j h
step-taken_of id h (publishes choice e) o = ap (taken_of id) (publish-subscribers choice e h)
step-taken_of id h broadcasts o =
    if_same id h.is_stopped h _ _ refl (receive_broadcast-taken_of id h)
step-taken_of id h stops o =
    if_same id h.is_stopped h _ _ refl
      (close_some-taken_of id (λ s. s.is_client) (record h { is_stopped = true }))
step-taken_of id h (takes j) o = take_of-taken_of id j h o
