-- ===== src/Protocol/Decode/Scalars.antt =====
-- The frames that hold no frames, and inline commands.
use ralphdb.Prelude.{
  ℕ, Bool, true, false, ◌||◌, ◌&&◌, none, some, List, [], ◌∷◌, Bytes, is_empty, ltb, ◌==◌, bytes_eq,
  length, if◌then◌else◌,
}
use ralphdb.Prelude.Int.{pos, ltb_ℤ}
use ralphdb.Text.Utf8.{from_utf8}
use ralphdb.Text.Decimal.{parse_i64}
use ralphdb.Protocol.Frame.{
  Frame, integer, bulk_string, array, null, boolean, double, verbatim_string, big_number, frames,
  invalid_data, Float64,
}
use ralphdb.Protocol.Reader.{
  Reader, pure, fail, ok_or, ◌>>=◌, read_line_bytes, read_line, take, drop,
}
use ralphdb.Protocol.Decode.Lengths.{
  ensure_bulk_length, read_length, is_minus_one, below_minus_one, read_payload,
}

unfoldable pub decode_bulk : Reader Frame
unfolding read_length ensure_bulk_length read_payload
decode_bulk = do
  length ← read_length
  if is_minus_one length
      then pure (bulk_string none)
      else if below_minus_one length
      then fail invalid_data "invalid bulk length"
      else do
        n ← ensure_bulk_length length
        buffer ← read_payload n "missing CRLF after bulk data"
        pure (bulk_string (some buffer))

-- `buffer[3] != b':'`, where the buffer has four bytes at least.
abbrev pub colon_at_3 : Bytes → Bool
colon_at_3 (_ ∷ _ ∷ _ ∷ c ∷ _) = c == b':'
colon_at_3 _ = false

abbrev pub is_ascii : Bytes → Bool
is_ascii [] = true
is_ascii (b ∷ bs) = ltb b 0x80 && is_ascii bs

unfoldable pub verbatim_of : Bytes → Reader Frame
unfolding from_utf8
verbatim_of buffer =
    if colon_at_3 buffer
    then (do
      format ← ok_or (from_utf8 (take 3 buffer)) "invalid verbatim format tag"
      if is_ascii format
          then pure (verbatim_string format (drop 4 buffer))
          else fail invalid_data "invalid verbatim format tag")
    else fail invalid_data "missing colon after verbatim format"

unfoldable pub decode_verbatim : Reader Frame
unfolding read_length ensure_bulk_length read_payload verbatim_of
decode_verbatim = do
  total ← read_length
  if ltb_ℤ total (pos 0) then fail invalid_data "verbatim length must be non-negative" else do
    n ← ensure_bulk_length total
    if ltb n 4
        then fail invalid_data "verbatim payload too short"
        else do buffer ← read_payload n "missing CRLF after verbatim payload"; verbatim_of buffer

unfoldable pub decode_bignum : Reader Frame
unfolding read_line
decode_bignum = do
  line ← read_line
  if is_empty line then fail invalid_data "empty bignum payload" else pure (big_number line)

-- `slice::split` at blanks: the pieces between them, empty ones too.
abbrev pub is_blank : ℕ → Bool
is_blank b = b == 32 || b == 9

abbrev pub extend_piece : ℕ → List Bytes → List Bytes
extend_piece b [] = (b ∷ []) ∷ []
extend_piece b (p ∷ ps) = (b ∷ p) ∷ ps

unfoldable pub split_blanks : Bytes → List Bytes
split_blanks [] = [] ∷ []
split_blanks (b ∷ bs) =
    let rest = split_blanks bs in if is_blank b then [] ∷ rest else extend_piece b rest

-- The pieces that are not empty, as bulk strings.
unfoldable pub tokens : List Bytes → List Frame
tokens [] = []
tokens ([] ∷ ps) = tokens ps
tokens ((b ∷ p) ∷ ps) = bulk_string (some (b ∷ p)) ∷ tokens ps

unfoldable pub decode_inline_frame : ℕ → Reader Frame
unfolding read_line_bytes split_blanks tokens
decode_inline_frame first_byte = do
  remaining ← read_line_bytes
  let line = first_byte ∷ remaining
  let found = tokens (split_blanks line)
  if is_empty found then fail invalid_data "empty inline command" else pure (array (frames found))

unfoldable pub decode_integer : Reader Frame
unfolding read_line parse_i64
decode_integer = do
  line ← read_line
  value ← ok_or (parse_i64 line) "invalid integer frame"
  pure (integer value)

unfoldable pub decode_boolean : Reader Frame
unfolding read_line
decode_boolean = do
  line ← read_line
  if bytes_eq line (b't' ∷ [])
      then pure (boolean true)
      else if bytes_eq line (b'f' ∷ [])
      then pure (boolean false)
      else fail invalid_data "invalid boolean"

unfoldable pub decode_null : Reader Frame
unfolding read_line
decode_null = do
  line ← read_line
  if is_empty line then pure null else fail invalid_data "invalid null frame"

unfoldable pub decode_double : Float64 → Reader Frame
unfolding read_line
decode_double float = do
  line ← read_line
  value ← ok_or (float.from_str line) "invalid double frame"
  pure (double value)
