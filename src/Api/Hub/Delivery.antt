-- ===== src/Api/Hub/Delivery.antt =====
-- What the subscribers of internal/api/hub.go get, in every order of calls and cases.
use mathlib.Core.List.{append_assoc}
use vrclog_companion.Prelude.{
  ℕ, zero, suc, ◌+◌, ◌≡◌, ◌≤◌, refl, sym, ap, ◌∙◌, ℤ, Bool, true, false, not, ◌&&◌, none, some,
  List, [], ◌∷◌, ◌++◌, map, any, length, length-append, drop, All, All-append_last, arith, ◌==◌,
  if◌then◌else◌, List-cases, inl, inr, ◌⊎◌,
}
use vrclog_companion.Event.{Event}
use vrclog_companion.Api.Hub.{
  Subscriber, Hub, new_hub, new_subscriber, subscribe, unsubscribe, publish, offer,
  handle_broadcast, receive_broadcast, stop, take_event, close_some, Action, subscribes,
  unsubscribes, publishes, broadcasts, stops, takes, step, run,
}

-- The first list, in its order, with others between.
pub data IsSublist : List Event → List Event → Type 0 where
  nil : IsSublist [] []
  both : {xs ys : List Event} (e : Event) → IsSublist xs ys → IsSublist (e ∷ xs) (e ∷ ys)
  skip : {xs ys : List Event} (e : Event) → IsSublist xs ys → IsSublist xs (e ∷ ys)

both_last :
    {xs ys : List Event} (e : Event) → IsSublist xs ys → IsSublist (xs ++ e ∷ []) (ys ++ e ∷ [])
both_last e nil = both e nil
both_last e (both d s) = both d (both_last e s)
both_last e (skip d s) = skip d (both_last e s)

skip_last : {xs ys : List Event} (e : Event) → IsSublist xs ys → IsSublist xs (ys ++ e ∷ [])
skip_last e nil = skip e nil
skip_last e (both d s) = both d (skip_last e s)
skip_last e (skip d s) = skip d (skip_last e s)

drop-append :
    (n : ℕ) (l : List Event) (e : Event) → n ≤ length l → drop n (l ++ e ∷ []) ≡ drop n l ++ e ∷ []
drop-append zero l e h = refl
drop-append (suc n) [] e h = absurd (omega arith)
drop-append (suc n) (x ∷ l) e h = drop-append n l e (omega arith)

drop-length : (l : List Event) → drop (length l) l ≡ []
drop-length [] = refl
drop-length (x ∷ l) = drop-length l

-- What a subscriber has got, or has in its channel.
abbrev pub received : Subscriber → List Event
received s = s.taken ++ s.events

pub record IsServed (size : ℕ) (handled : List Event) (s : Subscriber) : Type 0 where
  pub open_client : s.is_client ≡ not s.is_closed
  pub room : length s.events ≤ size
  pub since : s.since ≤ length handled
  pub in_order : IsSublist (received s) (drop s.since handled)
  pub counted : (s.is_client ≡ false) ⊎ (length (received s) + s.dropped + s.since ≡ length handled)

-- The log grows: in order, one event longer.
skip-order :
    (handled : List Event) (e : Event) (s : Subscriber)
    → s.since ≤ length handled
    → IsSublist (received s) (drop s.since handled)
    → IsSublist (received s) (drop s.since (handled ++ e ∷ []))
skip-order handled e s h o = rw (drop-append s.since handled e h) (skip_last e o)

both-order :
    (handled : List Event) (e : Event) (s : Subscriber)
    → s.since ≤ length handled
    → IsSublist (received s) (drop s.since handled)
    → IsSublist (s.taken ++ (s.events ++ e ∷ [])) (drop s.since (handled ++ e ∷ []))
both-order handled e s h o =
    rw (drop-append s.since handled e h, ← append_assoc s.taken s.events (e ∷ [])) (both_last e o)

offer-IsServed :
    (size : ℕ) (handled : List Event) (e : Event) (s : Subscriber)
    → IsServed size handled s
    → IsServed size (handled ++ e ∷ []) (offer size e s)
unfolding offer
offer-IsServed size handled e s v =
    let one = length-append handled (e ∷ []) in
    let buffered = length-append s.events (e ∷ []) in
    let got = length-append s.taken s.events in
    let got' = length-append s.taken (s.events ++ e ∷ []) in
    let skipped = skip-order handled e s v.since v.in_order in
    let kept = both-order handled e s v.since v.in_order in ground arith

take_event-received : (s : Subscriber) → received (take_event s) ≡ received s
unfolding take_event
take_event-received s = elim (List-cases s.events) [
  | inl e ↦ ground (arith, e)
  | inr (e, rest, q) ↦ ground (arith, q, append_assoc s.taken (e ∷ []) rest)
]

-- Taking changes the two lists of events only.
take_event-fields :
    (s : Subscriber)
    → ((take_event s).is_client ≡ s.is_client)
      × ((take_event s).is_closed ≡ s.is_closed)
      × ((take_event s).dropped ≡ s.dropped)
      × ((take_event s).since ≡ s.since)
      × (length (take_event s).events ≤ length s.events)
unfolding take_event
take_event-fields s = elim (List-cases s.events) [
  | inl e ↦ ground (arith, e)
  | inr (e, rest, q) ↦ ground (arith, q)
]

take_event-IsServed :
    (size : ℕ) (handled : List Event) (s : Subscriber)
    → IsServed size handled s
    → IsServed size handled (take_event s)
take_event-IsServed size handled s v =
    let (client, closed, dropped, since, room) = take_event-fields s in
    let same = take_event-received s in
    record {
      open_client = client ∙ v.open_client ∙ ap not (sym closed);
      room = omega (arith, room, v.room);
      since = omega (arith, since, v.since);
      in_order = rw (same, since) v.in_order;
      counted = rw (client, same, dropped, since) v.counted;
    }

close-IsServed :
    (size : ℕ) (handled : List Event) (s : Subscriber)
    → IsServed size handled s
    → IsServed size handled (record s { is_closed = true; is_client = false })
close-IsServed size handled s v = record {
  open_client = refl;
  room = v.room;
  since = v.since;
  in_order = v.in_order;
  counted = inl refl;
}

new_subscriber-IsServed :
    (h : Hub) → IsServed h.subscriber_buffer_size h.handled (new_subscriber h.is_stopped h)
new_subscriber-IsServed h = record {
  open_client = refl;
  room = omega arith;
  since = omega arith;
  in_order = rw (drop-length h.handled) nil;
  counted = inr (omega arith);
}

-- No channel of the picked clients is closed already.
none_closed :
    (test : Subscriber → Bool) (size : ℕ) (handled : List Event) (l : List Subscriber)
    → ((s : Subscriber) → test s ≡ true → s.is_client ≡ true)
    → All (IsServed size handled) l
    → any (λ s. test s && s.is_closed) l ≡ false
none_closed test size handled [] t a = refl
none_closed test size handled (s ∷ l) t a =
    ground (arith, t s, a.0.open_client, none_closed test size handled l t a.1)

All-map :
    (P Q : Subscriber → Type 0) (f : Subscriber → Subscriber) (l : List Subscriber)
    → ((s : Subscriber) → P s → Q (f s))
    → All P l
    → All Q (map f l)
All-map P Q f [] h a = tt
All-map P Q f (s ∷ l) h a = (h s a.0, All-map P Q f l h a.1)

pub record IsSafe (h : Hub) : Type 0 where
  pub served : All (IsServed h.subscriber_buffer_size h.handled) h.subscribers
  pub calm : h.is_panicking ≡ false

if-IsServed :
    (size : ℕ) (handled : List Event) (b : Bool) (s t : Subscriber)
    → IsServed size handled s
    → IsServed size handled t
    → IsServed size handled (if b then t else s)
if-IsServed size handled true s t v w = w
if-IsServed size handled false s t v w = v

close_some-IsSafe :
    (test : Subscriber → Bool) (h : Hub)
    → ((s : Subscriber) → test s ≡ true → s.is_client ≡ true)
    → IsSafe h
    → IsSafe (close_some test h)
close_some-IsSafe test h t v = record {
  served =
      All-map _ _ (λ s. if test s then record s { is_closed = true; is_client = false } else s)
        h.subscribers (λ s w. if-IsServed _ _ (test s) s _ w (close-IsServed _ _ s w)) v.served;
  calm =
      ground (
        arith,
        v.calm,
        none_closed test h.subscriber_buffer_size h.handled h.subscribers t v.served,
      );
}

handle_broadcast-IsSafe : (e : Event) (h : Hub) → IsSafe h → IsSafe (handle_broadcast e h)
unfolding handle_broadcast
handle_broadcast-IsSafe e h v = record {
  served =
      All-map _ _ (offer h.subscriber_buffer_size e) h.subscribers
        (λ s w. offer-IsServed h.subscriber_buffer_size h.handled e s w) v.served;
  calm = ground (
    arith,
    v.calm,
    none_closed (λ s. s.is_client) h.subscriber_buffer_size h.handled h.subscribers (λ s c. c)
        v.served,
  );
}

receive_broadcast-IsSafe : (h : Hub) → IsSafe h → IsSafe (receive_broadcast h)
unfolding receive_broadcast
receive_broadcast-IsSafe h v = elim (List-cases h.broadcast) [
  | inl e ↦ ground (arith, e)
  | inr (e, rest, q) ↦ ground (
    arith,
    q,
    handle_broadcast-IsSafe e (record h { broadcast = rest })
        (record { served = v.served; calm = v.calm }),
  )
]

step-IsSafe : (h : Hub) (a : Action) → IsSafe h → IsSafe (step h a)
unfolding step subscribe unsubscribe publish stop
step-IsSafe h subscribes v = record {
  served = All-append_last _ h.subscribers _ v.served (new_subscriber-IsServed h);
  calm = v.calm;
}
step-IsSafe h (unsubscribes id) v =
    ground (arith, close_some-IsSafe (λ s. s.id == id && s.is_client) h (λ s c. ground arith) v)
step-IsSafe h (publishes choice none) v = v
step-IsSafe h (publishes choice (some e)) v = ground arith
step-IsSafe h broadcasts v = ground (arith, receive_broadcast-IsSafe h v)
step-IsSafe h stops v = ground (
  arith,
  close_some-IsSafe (λ s. s.is_client) (record h { is_stopped = true }) (λ s c. c)
      (record { served = v.served; calm = v.calm }),
)
step-IsSafe h (takes id) v = record {
  served =
      All-map _ _ (λ s. if s.id == id then take_event s else s) h.subscribers
        (λ s w. if-IsServed _ _ (s.id == id) s _ w (take_event-IsServed _ _ s w)) v.served;
  calm = v.calm;
}

run-IsSafe_from : (h : Hub) (actions : List Action) → IsSafe h → IsSafe (run h actions)
unfolding run
run-IsSafe_from h [] v = v
run-IsSafe_from h (a ∷ actions) v = run-IsSafe_from (step h a) actions (step-IsSafe h a v)

-- In every order of the calls and of the hub's cases: nothing is sent on a closed channel and no
-- channel is closed twice; and what each subscriber gets are events that were broadcast since it was
-- registered, in that order, of which a client misses exactly those that found its channel full, and
-- its channel is never longer than its size.
pub run-IsSafe : (size : ℤ) (actions : List Action) → IsSafe (run (new_hub size) actions)
run-IsSafe size actions =
    run-IsSafe_from (new_hub size) actions (record { served = tt; calm = refl })
