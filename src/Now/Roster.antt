-- ===== src/Now/Roster.antt =====
-- The player list of the live page, web/src/pages/Now.tsx.
use text.Mathlib.TextEquality.{eq_iff}
use vrclog_companion.Prelude.{
  String, ◌≡◌, Bool, true, false, not, List, [], ◌∷◌, ◌++◌, keep, any, arith, is_empty, str_eq,
  if◌then◌else◌,
}
use vrclog_companion.Client.{PlayerInfo, NowResponse, Event}
use vrclog_companion.Now.{apply_event, is_same, is_leaving, new_player}

-- Some listed player has the id.
abbrev pub has_id : String → List PlayerInfo → Bool
has_id id = any (λ p. str_eq p.player_id id)

-- No id that is not empty is listed twice.
abbrev pub UniqueIds : List PlayerInfo → Type 0
UniqueIds [] = Unit
UniqueIds (p ∷ l) = ((is_empty p.player_id ≡ false) → has_id p.player_id l ≡ false) × UniqueIds l

has_id-keep :
    (q : PlayerInfo → Bool) (id : String) (l : List PlayerInfo)
    → has_id id l ≡ false
    → has_id id (keep q l) ≡ false
has_id-keep q id [] h = h
has_id-keep q id (p ∷ l) h = ground (arith, has_id-keep q id l)

UniqueIds-keep : (q : PlayerInfo → Bool) (l : List PlayerInfo) → UniqueIds l → UniqueIds (keep q l)
UniqueIds-keep q [] u = u
UniqueIds-keep q (p ∷ l) u = ground (arith, has_id-keep q p.player_id l, UniqueIds-keep q l u.1)

has_id-append :
    (id : String) (l : List PlayerInfo) (p : PlayerInfo)
    → has_id id (l ++ p ∷ []) ≡ (if has_id id l then true else str_eq p.player_id id)
has_id-append id [] p = ground arith
has_id-append id (q ∷ l) p = ground (arith, has_id-append id l p)

UniqueIds-append :
    (l : List PlayerInfo) (p : PlayerInfo)
    → UniqueIds l
    → any (is_same p) l ≡ false
    → UniqueIds (l ++ p ∷ [])
UniqueIds-append [] p u h = ground arith
UniqueIds-append (q ∷ l) p u h = ground (
  arith,
  has_id-append q.player_id l p,
  UniqueIds-append l p u.1,
  eq_iff p.player_id q.player_id,
  eq_iff q.player_id p.player_id,
)

-- No event makes the page list an id twice, an event without an id included.
pub apply_event-UniqueIds :
    (prev : NowResponse) (event : Event)
    → UniqueIds prev.players
    → UniqueIds (apply_event prev event).players
unfolding apply_event
apply_event-UniqueIds prev event u = ground (
  arith,
  UniqueIds-append prev.players (new_player event) u,
  UniqueIds-keep (λ p. not (is_leaving event p)) prev.players u,
)
