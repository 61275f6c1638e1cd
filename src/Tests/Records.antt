-- ===== src/Tests/Records.antt =====
-- The codecs of internal/store, with times and ids written as that many strokes.
use Prim.Native.Char.{Char, nul}
use Prim.Native.String.{◌++◌ as append}
use Prim.Native.String.append
use vrclog_companion.Prelude.{
  ℕ, zero, suc, ◌≡◌, refl, ap, ◌∙◌, pos, String, some, none, Option, arith, str_eq, if◌then◌else◌,
}
use vrclog_companion.Event.{Event}
use vrclog_companion.Api.Events.{QueryFilter, QueryOrder, desc, asc, no_filter}
use vrclog_companion.Prelude.{Bool, ltb, List, [], ◌∷◌, take, keep, map, All, ◌≤◌, ◌*◌}
use vrclog_companion.Store.Order.{IsSorted}
use vrclog_companion.Store.Database.{IsDatabase, IsStorable, meets_all, wanted}
use vrclog_companion.Store.Pages.{follow, follow-take}
use vrclog_companion.Store.{EventRow, Select, effective_limit, Formats, event_to_row, encode_cursor}
use vrclog_companion.Store.Codec.{IsFormats}

abbrev pub first_char : String → Char
first_char String.[] = nul
first_char (String.◌∷◌ c s) = c

abbrev pub stroke : Char
stroke = first_char "I"

abbrev pub strokes : ℕ → String
strokes zero = ""
strokes (suc n) = String.◌∷◌ stroke (strokes n)

abbrev pub count : String → ℕ
count String.[] = zero
count (String.◌∷◌ c s) = suc (count s)

abbrev add_stroke : Option (String × String) → Option (String × String)
add_stroke none = none
add_stroke (some (a, b)) = some (String.◌∷◌ stroke a, b)

abbrev pub cut_bar : String → Option (String × String)
cut_bar String.[] = none
cut_bar (String.◌∷◌ c s) =
    let rest = cut_bar s in
    if str_eq (String.◌∷◌ c String.[]) "|" then some ("", s) else add_stroke rest

abbrev pub unary : Formats
unary = record {
  format_time = strokes;
  parse_time = λ s. some (count s);
  format_int = strokes;
  parse_int = λ s. some (pos (count s));
  raw_url_encode = λ s. s;
  raw_url_decode = λ s. some s;
  std_decode = λ s. some s;
  cut = cut_bar;
}

pub count-strokes : (n : ℕ) → count (strokes n) ≡ n
count-strokes zero = refl
count-strokes (suc n) = ap suc (count-strokes n)

pub cut_bar-strokes :
    (n : ℕ) (s : String) → cut_bar (append (strokes n) (append "|" s)) ≡ some (strokes n, s)
cut_bar-strokes zero s =
    ap cut_bar (append.nil (append "|" s))
    ∙ ap cut_bar (append.cons (first_char "|") "" s)
    ∙ ap (λ t. some ("", t)) (append.nil s)
cut_bar-strokes (suc n) s =
    ap cut_bar (append.cons stroke (strokes n) (append "|" s)) ∙ ap add_stroke (cut_bar-strokes n s)

pub unary-IsFormats : IsFormats unary
unary-IsFormats = record {
  time_read = λ t h. ap some (count-strokes t);
  int_read = λ n h. ap (λ k. some (pos k)) (count-strokes n);
  raw_url_read = λ b. refl;
  raw_url_nonempty = λ b h. h;
  time_cut = λ t s h. cut_bar-strokes t s;
}

abbrev pub joined : Event
joined = record {
  id = 1;
  ts = 3;
  type = "player_join";
  player_name = some "Alice";
  player_id = none;
  world_id = none;
  world_name = none;
  instance_id = none;
  meta_json = "";
  dedupe_key = "k1";
  ingested_at = 4;
  schema_version = 1;
}

cursor_text : encode_cursor unary 3 2 ≡ "III|II"
unfolding encode_cursor
cursor_text = refl

abbrev pub shorter : String → String → Bool
shorter a b = ltb (count a) (count b)

abbrev pub at_time : ℕ → Event
at_time n = record joined { id = n; ts = n }

-- Three events, in each order.
abbrev pub stored : QueryOrder → List Event
stored desc = at_time 3 ∷ at_time 2 ∷ at_time 1 ∷ []
stored asc = at_time 1 ∷ at_time 2 ∷ at_time 3 ∷ []

abbrev pub table : Select → Option (List EventRow)
table s =
    some
      (take s.limit (keep (meets_all shorter s.conds) (map (event_to_row unary) (stored s.order))))

at_time-IsStorable : (n : ℕ) → n ≤ 3 → IsStorable (at_time n)
at_time-IsStorable n h = record {
  ts = omega (arith, h);
  ingested_at = omega arith;
  id = omega (arith, h);
}

stored-IsSorted : (o : QueryOrder) → IsSorted o (stored o)
stored-IsSorted desc = ((refl, (refl, tt)), ((refl, tt), (tt, tt)))
stored-IsSorted asc = ((refl, (refl, tt)), ((refl, tt), (tt, tt)))

stored-IsStorable : (o : QueryOrder) → All IsStorable (stored o)
stored-IsStorable desc = (
  at_time-IsStorable 3 (omega arith),
  (at_time-IsStorable 2 (omega arith), (at_time-IsStorable 1 (omega arith), tt)),
)
stored-IsStorable asc = (
  at_time-IsStorable 1 (omega arith),
  (at_time-IsStorable 2 (omega arith), (at_time-IsStorable 3 (omega arith), tt)),
)

pub table-IsDatabase : IsDatabase unary shorter stored table
table-IsDatabase = record {
  selects = λ s. refl;
  sorted = stored-IsSorted;
  storable = stored-IsStorable;
  text_order = λ a b h k. rw (count-strokes a, count-strokes b) refl;
}

abbrev by_two : QueryFilter
by_two = record no_filter { limit = pos 2 }

follow-take_example :
    follow unary table 2 by_two
    ≡ some (take (2 * effective_limit by_two.limit) (keep (wanted by_two) (stored by_two.order)))
follow-take_example =
    follow-take unary shorter stored table 2 by_two unary-IsFormats table-IsDatabase refl tt tt

follow_all : follow unary table 2 by_two ≡ some (at_time 3 ∷ at_time 2 ∷ at_time 1 ∷ [])
follow_all =
    follow-take unary shorter stored table 2 by_two unary-IsFormats table-IsDatabase refl tt tt
    ∙ (unfold effective_limit in refl)
