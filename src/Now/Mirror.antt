-- ===== src/Now/Mirror.antt =====
-- The live page (web/src/pages/Now.tsx) beside the server's state (internal/derive/state.go).
use Prim.Derive.{subst}
use mathlib.Core.List.{foldl}
use mathlib.Core.List.Perm
use vrclog_companion.Prelude.{
  String, ◌≡◌, refl, ◌∙◌, true, false, not, Option, none, some, List, [], ◌∷◌, ◌++◌, map, keep, any,
  All, All-append_last, All-keep, ◌&&◌, ◌+◌, length-append, arith, inl, inr, Option-cases,
  Bool-cases, any-Perm, keep-Perm, ◌||◌, is_empty, str_eq, is_truthy, text_or_empty,
}
use vrclog_companion.Event.{Event, Time, type_player_join, type_player_left, type_world_join}
use vrclog_companion.Derive.{
  State, exists_key, delete_key, player_key, player_info, update, update_event, handle_world_join,
  handle_player_join, handle_player_left, player_count,
}
use vrclog_companion.Derive.Players.{IsKeyed, IsValid, delete_key_absent, update-IsValid}
use vrclog_companion.Derive.Presence.{replay}
use vrclog_companion.Derive
use vrclog_companion.Client
use vrclog_companion.Client.{NowResponse, PlayerInfo}
use vrclog_companion.Now.Json.{event_json, entry_json, now_json, IsSame, IsNow}
use vrclog_companion.Now.{apply_event, is_same, is_leaving, new_player}

abbrev pub HasId : String × Derive.PlayerInfo → Type 0
HasId e = is_empty e.1.player_id ≡ false

-- Every stored player has an id.
abbrev pub IsIdentified : State → Type 0
IsIdentified s = All HasId s.players

-- An event of a player who joins or leaves names the player's id.
abbrev pub HasPlayer : Event → Type 0
HasPlayer e =
    (is_truthy e.player_id
      || not (str_eq e.type type_player_join || str_eq e.type type_player_left))
    ≡ true

truthy-nonempty : (o : Option String) → is_truthy o ≡ true → is_empty (text_or_empty o) ≡ false
truthy-nonempty none h = cc
truthy-nonempty (some s) h = ground arith

-- `iso` is the JSON form of a time, which encoding/json makes.
module _ (iso : Time → String) where
  any-same :
      (e : Client.Event) (key : String) (l : List (String × Derive.PlayerInfo))
      → text_or_empty e.player_id ≡ key
      → All IsKeyed l
      → All HasId l
      → any (is_same (new_player e)) (map (entry_json iso) l) ≡ exists_key key l
  any-same e key [] h k d = refl
  any-same e key (x ∷ l) h k d = ground (arith, any-same e key l h k.1 d.1)

  leaving_by_id :
      (e : Client.Event) (p : PlayerInfo)
      → is_truthy e.player_id ≡ true
      → is_leaving e p ≡ str_eq p.player_id (text_or_empty e.player_id)
  unfolding is_leaving
  leaving_by_id e p h = elim (Option-cases e.player_id) [
    | inl absent ↦ absurd (ground arith)
    | inr (id, present) ↦ ground arith
  ]

  keep-leaving :
      (e : Client.Event) (l : List (String × Derive.PlayerInfo))
      → is_truthy e.player_id ≡ true
      → All IsKeyed l
      → All HasId l
      → keep (λ p. not (is_leaving e p)) (map (entry_json iso) l)
        ≡ map (entry_json iso) (delete_key (text_or_empty e.player_id) l)
  keep-leaving e [] n k d = refl
  keep-leaving e (x ∷ l) n k d =
      let same : x.1.player_id ≡ x.0 = ground arith in
      ground (arith, leaving_by_id e (entry_json iso x) n, same, keep-leaving e l n k.1 d.1)

  map-snoc :
      (l : List (String × Derive.PlayerInfo)) (x : String × Derive.PlayerInfo)
      → map (entry_json iso) (l ++ x ∷ []) ≡ map (entry_json iso) l ++ entry_json iso x ∷ []
  map-snoc [] x = refl
  map-snoc (y ∷ l) x = rw (map-snoc l x)

  -- The server and the page take one event in step: when every stored player has an id, and the event
  -- has one where it is a player's, the page's new state is the JSON of the server's new state.
  apply_event-update :
      (s : State) (e : Event)
      → IsValid s
      → IsIdentified s
      → HasPlayer e
      → apply_event (now_json iso s) (event_json iso e) ≡ now_json iso (update s (some e)).0
  unfolding apply_event update update_event handle_world_join handle_player_join handle_player_left
  apply_event-update s e v d h = elim (Bool-cases (is_truthy e.player_id)) [
    | inl t ↦ ground (
      arith,
      any-same (event_json iso e) (player_key e) s.players,
      keep-leaving (event_json iso e) s.players t v.keyed d,
      delete_key_absent (player_key e) s.players,
      map-snoc s.players (player_key e, player_info e),
    )
    | inr f ↦
        let joins : str_eq e.type type_player_join ≡ false = ground (arith, h, f) in
        let leaves : str_eq e.type type_player_left ≡ false = ground (arith, h, f) in
        ground (arith, joins, leaves)
  ]

  IsIdentified-update :
      (s : State) (e : Event) → IsIdentified s → HasPlayer e → IsIdentified (update s (some e)).0
  unfolding update update_event handle_world_join handle_player_join handle_player_left
  IsIdentified-update s e d h = elim (Bool-cases (is_truthy e.player_id)) [
    | inl t ↦
        let has_id : is_empty (text_or_empty e.player_id) ≡ false = truthy-nonempty e.player_id t in
        ground (
          arith,
          All-append_last HasId s.players (player_key e, player_info e) d has_id,
          All-keep HasId (λ x. not (str_eq x.0 (player_key e))) s.players d,
        )
    | inr f ↦
        let joins : str_eq e.type type_player_join ≡ false = ground (arith, h, f) in
        let leaves : str_eq e.type type_player_left ≡ false = ground (arith, h, f) in
        ground (arith, d, joins, leaves)
  ]

  -- The page takes an event alike, in whatever order its players are.
  apply_event-IsSame :
      (n n' : NowResponse) (e : Client.Event)
      → IsSame n n'
      → IsSame (apply_event n e) (apply_event n' e)
  unfolding apply_event
  apply_event-IsSame n n' e (world, players) = elim (Bool-cases (str_eq e.type type_world_join)) [
    | inl t ↦ rw t (refl, Perm.rfl)
    | inr w ↦ elim (Bool-cases (str_eq e.type type_player_join)) [
      | inl t ↦
          let found = any-Perm (is_same (new_player e)) players in
          elim (Bool-cases (any (is_same (new_player e)) n'.players)) [
            | inl there ↦ rw (w, t, found, there) (world, players)
            | inr new ↦ rw (w, t, found, new) (world, Perm.append_right (new_player e ∷ []) players)
          ]
      | inr j ↦ elim (Bool-cases (str_eq e.type type_player_left)) [
        | inl t ↦ rw (w, j, t) (world, keep-Perm (λ p. not (is_leaving e p)) players)
        | inr l ↦ rw (w, j, l) (world, players)
      ]
    ]
  ]

  apply_event-IsNow :
      (s : State) (n : NowResponse) (e : Event)
      → IsValid s
      → IsIdentified s
      → HasPlayer e
      → IsNow iso s n
      → IsNow iso (update s (some e)).0 (apply_event n (event_json iso e))
  apply_event-IsNow s n e v d h same =
      subst (IsSame (apply_event n (event_json iso e))) (apply_event-update s e v d h)
        (apply_event-IsSame n (now_json iso s) (event_json iso e) same)

  -- A page that fetched the server's state, a valid one, and then takes every event of the stream in
  -- order, has what the server answers after the same events, its players in some order, when every
  -- stored player has an id, and so has every event of a player who joins or leaves. The server lists
  -- its players in any order; a change of the world needs no player.
  pub stream-replay :
      (s : State) (n : NowResponse) (es : List Event)
      → IsValid s
      → IsIdentified s
      → IsNow iso s n
      → All HasPlayer es
      → IsNow iso (replay s es) (foldl (λ n e. apply_event n (event_json iso e)) n es)
  unfolding replay
  stream-replay s n [] v d same h = same
  stream-replay s n (e ∷ es) v d same h =
      stream-replay (update s (some e)).0 (apply_event n (event_json iso e)) es
        (update-IsValid s (some e) v) (IsIdentified-update s e d h.0)
        (apply_event-IsNow s n e v d h.0 same) h.1

  any-namesake :
      (e : Client.Event) (l : List (String × Derive.PlayerInfo))
      → any (λ x. is_empty x.1.player_id && str_eq x.1.player_name (text_or_empty e.player_name)) l
        ≡ true
      → any (is_same (new_player e)) (map (entry_json iso) l) ≡ true
  any-namesake e [] h = h
  any-namesake e (x ∷ l) h = ground (arith, any-namesake e l)

  -- A player with an id who is new to the server joins while a player without an id is listed under
  -- the same name: the server counts one player more, and the page, which lists the server's players
  -- in any order, lists nobody new.
  pub namesake_hidden :
      (s : State) (n : NowResponse) (e : Event)
      → IsNow iso s n
      → e.type ≡ type_player_join
      → is_truthy e.player_id ≡ true
      → exists_key (player_key e) s.players ≡ false
      → any
          (λ x. is_empty x.1.player_id && str_eq x.1.player_name (text_or_empty e.player_name))
          s.players
        ≡ true
      → (apply_event n (event_json iso e) ≡ n)
        × (player_count (update s (some e)).0 ≡ player_count s + 1)
  unfolding apply_event update update_event handle_player_join
  namesake_hidden s n e same t i absent h =
      let nonempty = truthy-nonempty e.player_id i in
      let found =
        any-Perm (is_same (new_player (event_json iso e))) same.1
        ∙ any-namesake (event_json iso e) s.players h in
      let grown = length-append s.players ((player_key e, player_info e) ∷ []) in
      let joins : str_eq e.type type_player_join ≡ true = rw t refl in
      let stays : str_eq e.type type_world_join ≡ false = rw t refl in
      (ground (arith, found, joins, stays), ground (arith, grown, nonempty, joins, stays))
