-- ===== src/Notify/Splits.antt =====
-- The split of a batch into payloads, in internal/notify/payload.go, ends and loses nothing.
use mathlib.Core.List.{append_assoc, append-nil}
use vrclog_companion.Prelude.{
  ℕ, zero, suc, ◌+◌, ◌-◌, ◌*◌, ◌≡◌, ◌≤◌, ◌<◌, refl, sym, ap, ◌∙◌, List, [], ◌∷◌, ◌++◌, some, All,
  length, length-drop, take, drop, min, ltb, arith, Bool-cases, inl, inr, String,
}
use vrclog_companion.Event.{Time}
use vrclog_companion.Derive.{DerivedEvent}
use vrclog_companion.Notify.Payload.{
  DiscordEmbed, DiscordPayload, slice, split_loop, build_embeds, build_payloads,
}

-- The embeds of the payloads, in order.
abbrev pub all_embeds : List DiscordPayload → List DiscordEmbed
all_embeds [] = []
all_embeds (p ∷ ps) = p.embeds ++ all_embeds ps

-- A message that Discord takes: it has an embed, and ten at most.
abbrev pub IsSendable : DiscordPayload → Type 0
IsSendable p = (1 ≤ length p.embeds) × (length p.embeds ≤ 10)

length-take : (i : ℕ) (l : List DiscordEmbed) → length (take i l) ≡ min i (length l)
length-take zero l = omega arith
length-take (suc i) [] = omega arith
length-take (suc i) (x ∷ l) = omega (arith, length-take i l)

take-min : (k : ℕ) (l : List DiscordEmbed) → take (min k (length l)) l ≡ take k l
take-min k [] = take_none k
  where
    take_none : (k : ℕ) → take {A = DiscordEmbed} (min k 0) [] ≡ take k []
    take_none zero = refl
    take_none (suc k) = let z : min (suc k) 0 ≡ 0 = omega arith in rw z refl
take-min zero (x ∷ l) = let z : min 0 (suc (length l)) ≡ 0 = omega arith in rw z refl
take-min (suc k) (x ∷ l) =
    let m : min (suc k) (suc (length l)) ≡ suc (min k (length l)) = omega arith in
    rw m (ap (λ t. x ∷ t) (take-min k l))

take-append-drop : (k : ℕ) (l : List DiscordEmbed) → take k l ++ drop k l ≡ l
take-append-drop zero l = refl
take-append-drop (suc k) [] = refl
take-append-drop (suc k) (x ∷ l) = ap (λ t. x ∷ t) (take-append-drop k l)

drop-drop : (i j k : ℕ) (l : List DiscordEmbed) → j ≡ i + k → drop k (drop i l) ≡ drop j l
drop-drop zero j k l e = let e' : k ≡ j = omega (arith, e) in ap (λ n. drop n l) e'
drop-drop (suc i) zero k l e = absurd (omega (arith, e))
drop-drop (suc i) (suc j) zero [] e = refl
drop-drop (suc i) (suc j) (suc k) [] e = refl
drop-drop (suc i) (suc j) k (x ∷ l) e = drop-drop i j k l (omega (arith, e))

drop_all : (i : ℕ) (l : List DiscordEmbed) → length l ≤ i → drop i l ≡ []
drop_all zero [] h = refl
drop_all zero (x ∷ l) h = absurd (omega arith)
drop_all (suc i) [] h = refl
drop_all (suc i) (x ∷ l) h = drop_all i l (omega arith)

all_embeds-append :
    (ps qs : List DiscordPayload) → all_embeds (ps ++ qs) ≡ all_embeds ps ++ all_embeds qs
all_embeds-append [] qs = refl
all_embeds-append (p ∷ ps) qs =
    ap (λ t. p.embeds ++ t) (all_embeds-append ps qs)
    ∙ sym (append_assoc p.embeds (all_embeds ps) (all_embeds qs))

-- One round cuts off the next ten embeds, or what is left of them.
slice_round :
    (i : ℕ) (l : List DiscordEmbed)
    → i < length l
    → (slice i (min (i + 10) (length l)) l ++ drop (i + 10) l ≡ drop i l)
      × (1 ≤ length (slice i (min (i + 10) (length l)) l))
      × (length (slice i (min (i + 10) (length l)) l) ≤ 10)
slice_round i l h =
    let d = drop i l in
    let n = length-drop i l in
    let k : min (i + 10) (length l) - i ≡ min 10 (length d) = omega (arith, n) in
    let cut : slice i (min (i + 10) (length l)) l ≡ take 10 d =
      ap (λ k. take k d) k ∙ take-min 10 d in
    let size = length-take 10 d in
    (
      ap (λ t. t ++ drop (i + 10) l) cut
          ∙ ap (λ t. take 10 d ++ t) (sym (drop-drop i (i + 10) 10 l refl))
          ∙ take-append-drop 10 d,
      rw cut (omega (arith, size, n, h)),
      rw cut (omega (arith, size)),
    )

split_loop_ends :
    (fuel i : ℕ) (embeds : List DiscordEmbed) (payloads : List DiscordPayload)
    → length embeds + 10 ≤ i + 10 * fuel
    → i < length embeds + 10
    → (ps : List DiscordPayload) × (split_loop fuel i embeds payloads ≡ some (payloads ++ ps))
      × (all_embeds ps ≡ drop i embeds)
      × All IsSendable ps
unfolding split_loop
split_loop_ends zero i embeds payloads h k = absurd (omega arith)
split_loop_ends (suc fuel) i embeds payloads h k = elim (Bool-cases (ltb i (length embeds))) [
  | inr done ↦ (
    [],
    rw done (ap some (sym (append-nil payloads))),
    sym (drop_all i embeds (ground (arith, done))),
    tt,
  )
  | inl more ↦
      let p : DiscordPayload = record {
        content = "";
        embeds = slice i (min (i + 10) (length embeds)) embeds;
      } in
      let (ps, e, all, ok) =
        split_loop_ends fuel (i + 10) embeds (payloads ++ p ∷ []) (omega arith)
          (ground (arith, more)) in
      let (cut, one, ten) = slice_round i embeds (ground (arith, more)) in
      (
        p ∷ ps,
        rw more (e ∙ ap some (append_assoc payloads (p ∷ []) ps)),
        ap (λ t. p.embeds ++ t) all ∙ cut,
        ((one, ten), ok),
      )
]

-- The batch of any events, with any formats: the loop ends with the fuel that it has, the payloads
-- hold all the embeds of the batch, each once and in order, and every payload has an embed and ten at
-- most.
pub build_payloads_ends :
    (show : ℕ → String) (format_time : Time → String) (events : List DerivedEvent)
    → (ps : List DiscordPayload) × (build_payloads show format_time events ≡ some ps)
      × (all_embeds ps ≡ build_embeds show format_time events)
      × All IsSendable ps
unfolding build_payloads
build_payloads_ends show format_time events =
    let embeds = build_embeds show format_time events in
    split_loop_ends (suc (length embeds)) 0 embeds [] (omega arith) (omega arith)
