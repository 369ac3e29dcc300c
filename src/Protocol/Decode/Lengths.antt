-- ===== src/Protocol/Decode/Lengths.antt =====
-- Lengths, counts and payloads: the guards in front of every allocation of the decoder.
use ralphdb.Prelude.{
  ℕ, Bool, false, Option, none, some, ◌++◌, Bytes, codes, ◌==◌, bytes_eq, length, String,
  if◌then◌else◌,
}
use ralphdb.Prelude.Int.{ℤ, pos, negsuc, ltb_ℤ, pos_part}
use ralphdb.Text.Decimal.{parse_i64}
use ralphdb.Protocol.Frame.{invalid_data, max_bulk_size, max_collection_size}
use ralphdb.Protocol.Reader.{Reader, pure, raise, fail, ok_or, ◌>>=◌, read_exact, read_line, crlf}

unfoldable pub parse_length : Bytes → Reader ℤ
unfolding parse_i64
parse_length line = ok_or (parse_i64 line) "invalid length value"

unfoldable pub ensure_non_negative : ℤ → ℕ → String → Reader ℕ
ensure_non_negative length max kind =
    if ltb_ℤ length (pos 0)
    then raise invalid_data (codes kind ++ codes " must be non-negative")
    else if ltb_ℤ (pos max) length
    then raise invalid_data (codes kind ++ codes " exceeds maximum allowed size")
    else pure (pos_part length)

unfoldable pub ensure_collection_length : ℤ → Reader ℕ
unfolding ensure_non_negative
ensure_collection_length length = ensure_non_negative length max_collection_size "collection length"

unfoldable pub ensure_bulk_length : ℤ → Reader ℕ
unfolding ensure_non_negative
ensure_bulk_length length = ensure_non_negative length max_bulk_size "bulk length"

-- A line that holds a length.
unfoldable pub read_length : Reader ℤ
unfolding read_line parse_length
read_length = do line ← read_line; parse_length line

-- `length == -1` and `length < -1`.
abbrev pub is_minus_one : ℤ → Bool
is_minus_one (pos n) = false
is_minus_one (negsuc n) = n == 0

abbrev pub below_minus_one : ℤ → Bool
below_minus_one z = ltb_ℤ z (negsuc 0)

-- The guards of a collection that may be null: `none` for -1, else the count.
unfoldable pub read_count : String → Reader (Option ℕ)
unfolding read_length ensure_collection_length
read_count message = do
  length ← read_length
  if is_minus_one length
      then pure none
      else if below_minus_one length
      then fail invalid_data message
      else do n ← ensure_collection_length length; pure (some n)

-- The guards of a collection that may not be null.
unfoldable pub read_positive_count : String → Reader ℕ
unfolding read_length ensure_collection_length
read_positive_count message = do
  length ← read_length
  if ltb_ℤ length (pos 0) then fail invalid_data message else ensure_collection_length length

-- The bytes of a payload and the CRLF behind it.
unfoldable pub read_payload : ℕ → String → Reader Bytes
unfolding read_exact
read_payload n message = do
  buffer ← read_exact n
  ending ← read_exact 2
  if bytes_eq ending crlf then pure buffer else fail invalid_data message
