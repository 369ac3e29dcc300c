-- ===== src/Protocol/Encode.antt =====
-- `encode_frame` and `encode_response`. The writer is a buffer in memory (`Vec<u8>`, or the
-- `BufWriter` of a connection) that takes all it is given: what a call writes, and the error it
-- returns, which may come after a part of the output.
use ralphdb.Prelude.{
  ℕ, Bool, true, false, Option, none, some, [], ◌∷◌, ◌++◌, Bytes, codes, length, ◌==◌, String,
  if◌then◌else◌,
}
use ralphdb.Text.Decimal.{decimal, print_i64}
use ralphdb.Protocol.Frame.{
  Frame, Frames, Pairs, simple_string, error, integer, bulk_string, array, null_array, null,
  boolean, double, null_map, set, null_set, push, attribute, verbatim_string, big_number, nil, cons,
  end, pair, count, count_pairs, ProtocolVersion, resp2, resp3, IoError, invalid_input, Float64,
}
use ralphdb.Protocol.Reader.{crlf}

pub record Written : Type 0 where
  pub out : Bytes
  pub failure : Option IoError

abbrev pub write_all : Bytes → Written
write_all bs = record { out = bs; failure = none }

abbrev pub refuse : String → Written
refuse message = record {
  out = [];
  failure = some (record { kind = invalid_input; message = codes message });
}

abbrev pub also : Bytes → Written → Written
also bs w = record { out = bs ++ w.out; failure = w.failure }

abbrev pub after_failure : Option IoError → Bytes → Written → Written
after_failure none bs w = also bs w
after_failure (some e) bs w = record { out = bs; failure = some e }

-- `?` between two calls: the second is made if the first succeeds.
infixr 60 ◌⨾◌
abbrev pub ◌⨾◌ : Written → Written → Written
v ⨾ w = after_failure v.failure v.out w

-- A line: a byte for the type, a text, CRLF.
abbrev pub line : ℕ → Bytes → Bytes
line prefix text = prefix ∷ (text ++ crlf)

-- A length line and the payload behind it.
abbrev pub payload_line : ℕ → Bytes → Bytes
payload_line prefix payload = line prefix (decimal (length payload)) ++ (payload ++ crlf)

abbrev pub flag : Bool → Bytes
flag true = b't' ∷ []
flag false = b'f' ∷ []

abbrev pub flag_number : Bool → Bytes
flag_number true = b'1' ∷ []
flag_number false = b'0' ∷ []

abbrev pub encode_verbatim : Bytes → Bytes → Written
encode_verbatim format payload =
    if length format == 3
    then write_all (payload_line b'=' (format ++ b':' ∷ payload))
    else refuse "verbatim format tag must be exactly 3 bytes"

module _ (float : Float64) where
  unfoldable mutual
    pub encode_frame : Frame → ProtocolVersion → Written
    encode_frame (simple_string value) _ = write_all (line b'+' value)
    encode_frame (error value) _ = write_all (line b'-' value)
    encode_frame (integer value) _ = write_all (line b':' (print_i64 value))
    encode_frame (bulk_string (some value)) _ = write_all (payload_line b'$' value)
    encode_frame (bulk_string none) _ = write_all (codes "$-1" ++ crlf)
    encode_frame null resp3 = write_all (codes "_" ++ crlf)
    encode_frame null resp2 = write_all (codes "$-1" ++ crlf)
    encode_frame (boolean value) resp3 = write_all (line b'#' (flag value))
    encode_frame (boolean value) resp2 = write_all (line b':' (flag_number value))
    encode_frame (double value) resp3 = write_all (line b',' (float.to_string value))
    encode_frame (double value) resp2 = write_all (payload_line b'$' (float.to_string value))
    encode_frame (array xs) v = also (line b'*' (decimal (count xs))) (encode_items xs v)
    encode_frame null_array _ = write_all (codes "*-1" ++ crlf)
    encode_frame (Frame.map ps) resp3 =
        also (line b'%' (decimal (count_pairs ps))) (encode_entries ps resp3)
    encode_frame (Frame.map ps) resp2 = refuse "map frames require RESP3"
    encode_frame null_map resp3 = write_all (codes "%-1" ++ crlf)
    encode_frame null_map resp2 = refuse "map frames require RESP3"
    encode_frame (set xs) resp3 = also (line b'~' (decimal (count xs))) (encode_items xs resp3)
    encode_frame (set xs) resp2 = refuse "set frames require RESP3"
    encode_frame null_set resp3 = write_all (codes "~-1" ++ crlf)
    encode_frame null_set resp2 = refuse "set frames require RESP3"
    encode_frame (push xs) resp3 = also (line b'>' (decimal (count xs))) (encode_items xs resp3)
    encode_frame (push xs) resp2 = refuse "push frames require RESP3"
    encode_frame (attribute ps) resp3 =
        also (line b'|' (decimal (count_pairs ps))) (encode_entries ps resp3)
    encode_frame (attribute ps) resp2 = refuse "attribute frames require RESP3"
    encode_frame (verbatim_string format payload) resp3 = encode_verbatim format payload
    encode_frame (verbatim_string format payload) resp2 = refuse "verbatim frames require RESP3"
    encode_frame (big_number value) resp3 = write_all (line b'(' value)
    encode_frame (big_number value) resp2 = refuse "bignum frames require RESP3"

    pub encode_items : Frames → ProtocolVersion → Written
    encode_items nil v = write_all []
    encode_items (cons x xs) v = encode_frame x v ⨾ encode_items xs v

    pub encode_entries : Pairs → ProtocolVersion → Written
    encode_entries end v = write_all []
    encode_entries (pair key value ps) v =
        encode_frame key v ⨾ (encode_frame value v ⨾ encode_entries ps v)

  -- The attributes go out before the frame, in RESP3 only.
  unfoldable pub encode_response : Frame → Option Pairs → ProtocolVersion → Written
  unfolding encode_frame
  encode_response frame (some attributes) resp3 =
      encode_frame (attribute attributes) resp3 ⨾ encode_frame frame resp3
  encode_response frame none resp3 = encode_frame frame resp3
  encode_response frame _ resp2 = encode_frame frame resp2
