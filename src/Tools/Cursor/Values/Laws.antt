-- ===== src/Tools/Cursor/Values/Laws.antt =====
-- The cursors of the list tools are read back as what they were made of.
use joplin_mcp_rust.Prelude.{
  ℕ, ◌≡◌, refl, Bool, true, false, String, List, Option, some, ok, err, ◌>>=◌, leb, if◌then◌else◌,
  unwrap_or,
}
use joplin_mcp_rust.Prelude.Int.{ℤ, pos, negsuc}
use joplin_mcp_rust.Json.{as_i64, as_str, i64_max}
use joplin_mcp_rust.Tools.Error.{validation}
use joplin_mcp_rust.Tools.Cursor.{Codec, decode_cursor}
use joplin_mcp_rust.Tools.Cursor.Laws.{NoDot, decode_cursor-encode_cursor}
use joplin_mcp_rust.Tools.Cursor.Values.{
  int, tag_cursor_values, updated_desc_cursor_values, changes_cursor_values, time_payload,
  SearchMode, full_text, ilike_fallback, SearchCursorValues, from_cursor_value, bad_rank_key,
  search_cursor_values, search_payload, encode_updated_desc_cursor, encode_search_cursor,
  reject_rank, cursor_value,
}

-- An integer that an `i64` holds.
abbrev pub InI64 : ℤ → Type 0
InI64 (pos n) = leb n i64_max ≡ true
InI64 (negsuc n) = leb n i64_max ≡ true

as_i64-int : (z : ℤ) → InI64 z → as_i64 (int z) ≡ some z
unfolding as_i64
as_i64-int (pos n) h = rw h refl
as_i64-int (negsuc n) h = refl

mode_is_read : (mode : SearchMode) → from_cursor_value (cursor_value mode) ≡ ok mode
unfolding from_cursor_value
mode_is_read full_text = refl
mode_is_read ilike_fallback = refl

rank_test :
    (bad : Bool) (v : SearchCursorValues)
    → (reject_rank bad >>= λ u. ok v)
      ≡ (if bad then err (validation "invalid search_notes cursor rank_key") else ok v)
rank_test true v = refl
rank_test false v = refl

-- The payload that a search cursor carries.
search_values_lem :
    (v : SearchCursorValues) (filters : String)
    → InI64 v.rank_key
    → InI64 v.updated_time
    → search_cursor_values (search_payload v filters) ≡ (
        if bad_rank_key v.mode v.rank_key
        then err (validation "invalid search_notes cursor rank_key")
        else ok v)
unfolding search_cursor_values as_str
search_values_lem v filters rank time =
    rw (mode_is_read v.mode, as_i64-int v.rank_key rank, as_i64-int v.updated_time time)
      (rank_test (bad_rank_key v.mode v.rank_key) v)

time_values_lem :
    (tool filters : String) (time : ℤ) (id : String)
    → InI64 time
    → (tag_cursor_values (time_payload tool filters time id) ≡ ok (time, id))
      × (updated_desc_cursor_values (time_payload tool filters time id) ≡ ok (time, id))
      × (changes_cursor_values (time_payload tool filters time id) ≡ ok (time, id))
unfolding tag_cursor_values updated_desc_cursor_values changes_cursor_values as_str
time_values_lem tool filters time id fits = rw (as_i64-int time fits) (refl, refl, refl)

-- The values of a note that a search gives.
abbrev pub found_at : ℤ → Option ℤ → String → SearchMode → SearchCursorValues
found_at rank_key updated_time joplin_id mode = record {
  mode = mode;
  rank_key = rank_key;
  updated_time = unwrap_or updated_time (pos 0);
  joplin_id = joplin_id;
}

module _ (c : Codec) (no_dot : (b : List ℕ) → NoDot (c.base64_encode b))
    (decodes : (b : List ℕ) → c.base64_decode (c.base64_encode b) ≡ some b) where
  -- A search cursor, read back with the same key for the same filters, gives the mode, rank, time and
  -- id of the note that it was made for, with a missing time as 0; a rank that no search gives, one
  -- below 0 or one that is not 0 in a fallback search, is refused. The integers are those of an `i64`,
  -- base64 gives no dots and decodes what it encoded, and the payload is written and read as it is.
  pub search_cursor-encode_search_cursor :
      (rank_key : ℤ) (updated_time : Option ℤ) (joplin_id : String) (mode : SearchMode)
      (filters : String) (key : List ℕ) {written cursor : List ℕ}
      → InI64 rank_key
      → InI64 (unwrap_or updated_time (pos 0))
      → c.to_vec (search_payload (found_at rank_key updated_time joplin_id mode) filters)
        ≡ some written
      → c.from_slice written
        ≡ some (search_payload (found_at rank_key updated_time joplin_id mode) filters)
      → encode_search_cursor c rank_key updated_time joplin_id mode filters key ≡ ok cursor
      → (decode_cursor c cursor key "search_notes" filters >>= search_cursor_values) ≡ (
          if bad_rank_key mode rank_key
          then err (validation "invalid search_notes cursor rank_key")
          else ok (found_at rank_key updated_time joplin_id mode))
  unfolding encode_search_cursor
  search_cursor-encode_search_cursor rank_key updated_time joplin_id mode filters key rank time
        writes reads h =
      rw
        (decode_cursor-encode_cursor c no_dot decodes
          (search_payload (found_at rank_key updated_time joplin_id mode) filters) key writes reads
          h)
        (search_values_lem (found_at rank_key updated_time joplin_id mode) filters rank time)

  -- The cursors of the lists that go by the time of the last change, read back with the same key for
  -- the same tool and filters, give the time and id of the note that they were made for. The time is
  -- one of an `i64`, base64 gives no dots and decodes what it encoded, and the payload is written and
  -- read as it is.
  time_cursor-encode :
      (tool : String) (time : ℤ) (id filters : String) (key : List ℕ) {written cursor : List ℕ}
      → InI64 time
      → c.to_vec (time_payload tool filters time id) ≡ some written
      → c.from_slice written ≡ some (time_payload tool filters time id)
      → encode_updated_desc_cursor c tool time id filters key ≡ ok cursor
      → (decode_cursor c cursor key tool filters >>= updated_desc_cursor_values) ≡ ok (time, id)
  unfolding encode_updated_desc_cursor
  time_cursor-encode tool time id filters key fits writes reads h =
      rw
        (decode_cursor-encode_cursor c no_dot decodes (time_payload tool filters time id) key writes
          reads h)
        ((time_values_lem tool filters time id fits).1)
