-- ===== src/Notify/Payload.antt =====
-- internal/notify/payload.go: the webhook bodies for a batch of events.
use Prim.Native.String.{◌++◌ as append}
use vrclog_companion.Prelude.{
  ℕ, zero, suc, ◌+◌, ◌-◌, String, Bool, true, false, Option, none, some, List, [], ◌∷◌, ◌++◌, map,
  keep, length, take, drop, min, ltb, is_empty, text_or_empty, if◌then◌else◌,
}
use vrclog_companion.Event.{Time}
use vrclog_companion.Derive.{
  DerivedEvent, DerivedEventType, world_changed, player_joined, player_left,
}

abbrev pub color_green : ℕ
color_green = 0x00ff00

abbrev pub color_red : ℕ
color_red = 0xff0000

abbrev pub color_blue : ℕ
color_blue = 0x5865f2

abbrev pub max_embeds_per_request : ℕ
max_embeds_per_request = 10

pub record DiscordEmbed : Type 0 where
  pub title : String
  pub description : String
  pub color : ℕ
  pub timestamp : String

pub record DiscordPayload : Type 0 where
  pub content : String
  pub embeds : List DiscordEmbed

-- `embeds[i:j]`.
abbrev pub slice : {A : Type 0} → ℕ → ℕ → List A → List A
slice i j l = take (j - i) (drop i l)

-- The loop of `splitIntoPayloads`: `none` is no fuel left.
unfoldable pub split_loop :
    ℕ → ℕ → List DiscordEmbed → List DiscordPayload → Option (List DiscordPayload)
split_loop zero i embeds payloads = none
split_loop (suc fuel) i embeds payloads =
    let stop = min (i + max_embeds_per_request) (length embeds) in
    let payload : DiscordPayload = record { content = ""; embeds = slice i stop embeds } in
    let rest = split_loop fuel (i + max_embeds_per_request) embeds (payloads ++ payload ∷ []) in
    if ltb i (length embeds) then rest else some payloads

unfoldable pub split_into_payloads : List DiscordEmbed → Option (List DiscordPayload)
split_into_payloads embeds = split_loop (suc (length embeds)) 0 embeds []

abbrev pub is_join : DerivedEventType → Bool
is_join player_joined = true
is_join _ = false

abbrev pub is_leave : DerivedEventType → Bool
is_leave player_left = true
is_leave _ = false

abbrev pub is_world : DerivedEventType → Bool
is_world world_changed = true
is_world _ = false

-- `strings.Join(names, ", ")`.
abbrev pub join_names : List String → String
join_names [] = ""
join_names (name ∷ []) = name
join_names (name ∷ next ∷ names) = append name (append ", " (join_names (next ∷ names)))

-- The time of the last event of a group that is not empty.
abbrev last_ts : Time → List DerivedEvent → Time
last_ts ts [] = ts
last_ts ts (e ∷ events) = last_ts e.event.ts events

-- `%d`, and `Format(time.RFC3339)`.
module _ (show : ℕ → String) (format_time : Time → String) where
  unfoldable pub build_world_embed : DerivedEvent → DiscordEmbed
  build_world_embed e =
      let world_name = text_or_empty e.event.world_name in
      let instance_id = text_or_empty e.event.instance_id in
      let joined =
        append "Joined **"
          (append (if is_empty world_name then "Unknown World" else world_name) "**") in
      record {
        title = "World Changed";
        description =
            append joined (
              if is_empty instance_id then "" else append "\nInstance: `" (append instance_id "`"));
        color = color_blue;
        timestamp = format_time e.event.ts;
      }

  -- The description of a group, which is one player or a number of them.
  abbrev pub group_text : String → List DerivedEvent → String
  group_text verb [] = ""
  group_text verb (e ∷ []) =
      append "**" (append (text_or_empty e.event.player_name) (append "** " verb))
  group_text verb (e ∷ f ∷ events) = append "**" (
      append (show (length (e ∷ f ∷ events))) (
        append " players** " (
          append verb (
            append ": "
              (join_names (map (λ g. text_or_empty g.event.player_name) (e ∷ f ∷ events)))))))

  -- `buildJoinsEmbed` and `buildLeavesEmbed`, for a group whose first event is given.
  unfoldable pub build_joins_embed : DerivedEvent → List DerivedEvent → DiscordEmbed
  build_joins_embed e events = record {
    title = "Player Joined";
    description = group_text "joined" (e ∷ events);
    color = color_green;
    timestamp = format_time (last_ts e.event.ts events);
  }

  unfoldable pub build_leaves_embed : DerivedEvent → List DerivedEvent → DiscordEmbed
  build_leaves_embed e events = record {
    title = "Player Left";
    description = group_text "left" (e ∷ events);
    color = color_red;
    timestamp = format_time (last_ts e.event.ts events);
  }

  abbrev pub joins_embeds : List DerivedEvent → List DiscordEmbed
  joins_embeds [] = []
  joins_embeds (e ∷ events) = build_joins_embed e events ∷ []

  abbrev pub leaves_embeds : List DerivedEvent → List DiscordEmbed
  leaves_embeds [] = []
  leaves_embeds (e ∷ events) = build_leaves_embed e events ∷ []

  -- The embeds of a batch: each world change, the joins as one, and the leaves as one.
  unfoldable pub build_embeds : List DerivedEvent → List DiscordEmbed
  build_embeds events =
      map build_world_embed (keep (λ e. is_world e.type) events)
      ++ (joins_embeds (keep (λ e. is_join e.type) events)
          ++ leaves_embeds (keep (λ e. is_leave e.type) events))

  unfoldable pub build_payloads : List DerivedEvent → Option (List DiscordPayload)
  unfolding build_embeds split_into_payloads
  build_payloads events = split_into_payloads (build_embeds events)
