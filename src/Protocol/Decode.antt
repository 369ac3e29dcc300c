-- ===== src/Protocol/Decode.antt =====
-- `decode_frame` and the functions it calls. The recursive call stands in for a reader `self`, and
-- `decode_frame` closes the loop on fuel: one unit for each level of nesting.
mod Lengths
mod Scalars
unfoldable pub use Lengths.{
  parse_length, ensure_non_negative, ensure_collection_length, ensure_bulk_length, read_length,
  is_minus_one, below_minus_one, read_count, read_positive_count, read_payload,
}
unfoldable pub use Scalars.{
  decode_bulk, colon_at_3, is_ascii, verbatim_of, decode_verbatim, decode_bignum, is_blank,
  extend_piece, split_blanks, tokens, decode_inline_frame, decode_integer, decode_boolean,
  decode_null, decode_double,
}
use ralphdb.Prelude.{
  ℕ, zero, suc, Bool, true, false, ◌||◌, ◌&&◌, Option, none, some, List, [], ◌∷◌, ◌++◌, Bytes,
  codes, is_empty, ltb, ◌==◌, bytes_eq, length, String, if◌then◌else◌,
}
use ralphdb.Prelude.Int.{ℤ, pos, negsuc, ltb_ℤ, pos_part}
use ralphdb.Text.Utf8.{from_utf8}
use ralphdb.Text.Decimal.{parse_i64}
use ralphdb.Protocol.Frame.{
  Frame, Frames, Pairs, simple_string, error, integer, bulk_string, array, null_array, null,
  boolean, double, null_map, set, null_set, push, attribute, verbatim_string, big_number, nil, cons,
  end, pair, frames, invalid_data, Float64, max_bulk_size, max_collection_size,
}
use ralphdb.Protocol.Reader.{
  Reader, out_of_fuel, pure, raise, fail, ok_or, and_then, ◌>>=◌, read_exact, read_line_bytes,
  read_line, crlf, take, drop,
}

-- The loops over the elements and over the entries.
module _ (self : Reader Frame) where
  unfoldable pub decode_items : ℕ → Reader Frames
  decode_items zero = pure nil
  decode_items (suc n) = do x ← self; xs ← decode_items n; pure (cons x xs)

  unfoldable pub decode_entries : ℕ → Reader Pairs
  decode_entries zero = pure end
  decode_entries (suc n) = do k ← self; v ← self; ps ← decode_entries n; pure (pair k v ps)

  abbrev items_or : Frame → (Frames → Frame) → Option ℕ → Reader Frame
  items_or missing build none = pure missing
  items_or missing build (some n) = do xs ← decode_items n; pure (build xs)

  abbrev entries_or : Option ℕ → Reader Frame
  entries_or none = pure null_map
  entries_or (some n) = do ps ← decode_entries n; pure (Frame.map ps)

  unfoldable pub decode_array : Reader Frame
  unfolding read_count decode_items
  decode_array = do n ← read_count "invalid array length"; items_or null_array array n

  unfoldable pub decode_map : Reader Frame
  unfolding read_count decode_entries
  decode_map = do n ← read_count "invalid map length"; entries_or n

  unfoldable pub decode_set : Reader Frame
  unfolding read_count decode_items
  decode_set = do n ← read_count "invalid set length"; items_or null_set set n

  unfoldable pub decode_push : Reader Frame
  unfolding read_positive_count decode_items
  decode_push = do
    n ← read_positive_count "invalid push length"
    xs ← decode_items n
    pure (push xs)

  unfoldable pub decode_attribute : Reader Frame
  unfolding read_positive_count decode_entries
  decode_attribute = do
    n ← read_positive_count "invalid attribute length"
    ps ← decode_entries n
    pure (attribute ps)

-- `prefix[0]`.
abbrev pub first_of_prefix : Bytes → ℕ
first_of_prefix [] = 0
first_of_prefix (b ∷ _) = b

module _ (float : Float64) where
  -- The arms of the `match` on the first byte.
  unfoldable pub decode_by_prefix : Reader Frame → ℕ → Reader Frame
  unfolding decode_integer decode_bulk decode_array decode_boolean decode_double decode_null
      decode_map decode_set decode_push decode_attribute decode_verbatim decode_bignum
      decode_inline_frame
  decode_by_prefix self prefix =
      if prefix == b'+'
      then (do line ← read_line; pure (simple_string line))
      else if prefix == b'-'
      then (do line ← read_line; pure (error line))
      else if prefix == b':'
      then decode_integer
      else if prefix == b'$'
      then decode_bulk
      else if prefix == b'*'
      then decode_array self
      else if prefix == b'#'
      then decode_boolean
      else if prefix == b','
      then decode_double float
      else if prefix == b'_'
      then decode_null
      else if prefix == b'%'
      then decode_map self
      else if prefix == b'~'
      then decode_set self
      else if prefix == b'>'
      then decode_push self
      else if prefix == b'|'
      then decode_attribute self
      else if prefix == b'='
      then decode_verbatim
      else if prefix == b'('
      then decode_bignum
      else decode_inline_frame prefix

  unfoldable pub decode_frame : ℕ → Reader Frame
  unfolding decode_by_prefix read_exact
  decode_frame zero s = (out_of_fuel, s)
  decode_frame (suc f) s =
      and_then (read_exact 1 s) λ prefix. decode_by_prefix (decode_frame f) (first_of_prefix prefix)

  -- Each nested frame is shorter than the stream it is read from, so this fuel is enough.
  unfoldable pub decode : Reader Frame
  unfolding decode_frame
  decode s = decode_frame (suc (length s)) s
