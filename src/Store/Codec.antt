-- ===== src/Store/Codec.antt =====
-- What internal/store/cursor.go and row.go write is read back.
use Prim.Native.String.{◌++◌ as append}
use vrclog_companion.Prelude.{
  ℕ, ◌≡◌, refl, ◌≤◌, ◌<◌, ◌-◌, ◌^◌, ◌*◌, pos, String, some, none, arith, is_empty, false,
  text_or_empty, if◌then◌else◌,
}
use vrclog_companion.Event.{Event, Time}
use vrclog_companion.Store.{
  Formats, to_event, event_to_row, encode_cursor, decode_cursor, parse_parts,
}

-- The last nanosecond of the year 9999, the last that four digits of a year can write.
abbrev pub last_time : Time
last_time = 315537897600 * 10 ^ 9 - 1

-- What Go's packages say of the formats, for the years 1 to 9999 and for an `int64`. A time that is
-- written has no "|".
pub record IsFormats (f : Formats) : Type 0 where
  pub time_read : (t : Time) → t ≤ last_time → f.parse_time (f.format_time t) ≡ some t
  pub int_read : (n : ℕ) → n < 2 ^ 63 → f.parse_int (f.format_int n) ≡ some (pos n)
  pub raw_url_read : (b : String) → f.raw_url_decode (f.raw_url_encode b) ≡ some b
  pub raw_url_nonempty : (b : String) → is_empty b ≡ false → is_empty (f.raw_url_encode b) ≡ false
  pub time_cut :
      (t : Time) (s : String)
      → t ≤ last_time
      → f.cut (append (f.format_time t) (append "|" s)) ≡ some (f.format_time t, s)

-- A cursor that the store writes, for a time up to the year 9999 and an id in range, is decoded to the
-- same time and id.
pub decode_cursor-encode_cursor :
    (f : Formats) (t : Time) (id : ℕ)
    → IsFormats f
    → t ≤ last_time
    → id < 2 ^ 63
    → decode_cursor f (encode_cursor f t id) ≡ some (t, pos id)
unfolding decode_cursor encode_cursor
decode_cursor-encode_cursor f t id v h k = rw (
  decode_cursor,
  encode_cursor,
  v.raw_url_read _,
  v.time_cut t (f.format_int id) h,
  parse_parts,
  v.time_read t h,
  v.int_read id k,
)

meta_read : (s : String) → text_or_empty (if is_empty s then none else some s) ≡ s
meta_read String.[] = refl
meta_read (String.◌∷◌ c s) = refl

-- An event whose two times are up to the year 9999 is the event that its row is read as.
pub to_event-event_to_row :
    (f : Formats) (e : Event)
    → IsFormats f
    → e.ts ≤ last_time
    → e.ingested_at ≤ last_time
    → to_event f (event_to_row f e) ≡ some e
unfolding to_event event_to_row
to_event-event_to_row f e v h k =
    ground (arith, v.time_read e.ts h, v.time_read e.ingested_at k, meta_read e.meta_json)
