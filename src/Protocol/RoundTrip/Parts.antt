-- ===== src/Protocol/RoundTrip/Parts.antt =====
-- Each part of a frame that the encoder writes is read back by the matching part of the decoder.
use ralphdb.Prelude.{
  ℕ, ◌≤◌, ◌≡◌, refl, ◌≢◌, Bool, true, false, some, [], ◌∷◌, ◌++◌, arith, Bytes, All, length,
  length-append, String,
}
use ralphdb.Prelude.Int.{ℤ, InI64}
use ralphdb.Text.Utf8.{IsAscii, from_utf8, ascii-is_utf8}
use ralphdb.Text.Decimal.{decimal, print_i64}
use ralphdb.Text.Decimal.Laws.{parse_i64-print_i64}
use ralphdb.Protocol.Frame.{
  Frame, Frames, Pairs, integer, bulk_string, array, null, boolean, double, set, push, attribute,
  verbatim_string, big_number, Float64, max_bulk_size, max_collection_size,
}
use ralphdb.Protocol.Reader.{Reader, Stream, feed, ok, crlf}
use ralphdb.Protocol.Decode.{
  read_count, read_positive_count, ensure_collection_length, ensure_bulk_length, decode_items,
  decode_entries, decode_array, decode_map, decode_set, decode_push, decode_attribute, decode_bulk,
  decode_verbatim, verbatim_of, decode_bignum, decode_integer, decode_boolean, decode_double,
  is_ascii, decode_null,
}
use ralphdb.Protocol.Encode.{flag}
use ralphdb.Protocol.Lines.{
  feed-append, IsLine, read_line-feed, read_length-feed, read_payload-feed, print_i64-IsLine,
}
use ralphdb.Protocol.Encodable.{VerbatimEncodable}

read_count-feed :
    (n : ℕ) (s : Stream) (message : String)
    → n ≤ max_collection_size
    → read_count message (feed (decimal n ++ crlf) s) ≡ (ok (some n), s)
unfolding read_count ensure_collection_length
read_count-feed n s message h = rw (read_length-feed n s (omega arith)) (ground arith)

read_positive_count-feed :
    (n : ℕ) (s : Stream) (message : String)
    → n ≤ max_collection_size
    → read_positive_count message (feed (decimal n ++ crlf) s) ≡ (ok n, s)
unfolding read_positive_count ensure_collection_length
read_positive_count-feed n s message h = rw (read_length-feed n s (omega arith)) (ground arith)

-- Collections, given that the elements are read back.
module _ (self : Reader Frame) (n : ℕ) (out : Bytes) (s : Stream)
    (fits : n ≤ max_collection_size) where
  module _ {xs : Frames} (items : decode_items self n (feed out s) ≡ (ok xs, s)) where
    pub decode_array-feed :
        decode_array self (feed ((decimal n ++ crlf) ++ out) s) ≡ (ok (array xs), s)
    unfolding decode_array
    decode_array-feed = rw (
      feed-append (decimal n ++ crlf) out s,
      read_count-feed n (feed out s) "invalid array length" fits,
      items,
    )

    pub decode_set-feed : decode_set self (feed ((decimal n ++ crlf) ++ out) s) ≡ (ok (set xs), s)
    unfolding decode_set
    decode_set-feed = rw (
      feed-append (decimal n ++ crlf) out s,
      read_count-feed n (feed out s) "invalid set length" fits,
      items,
    )

    pub decode_push-feed :
        decode_push self (feed ((decimal n ++ crlf) ++ out) s) ≡ (ok (push xs), s)
    unfolding decode_push
    decode_push-feed = rw (
      feed-append (decimal n ++ crlf) out s,
      read_positive_count-feed n (feed out s) "invalid push length" fits,
      items,
    )

  module _ {ps : Pairs} (entries : decode_entries self n (feed out s) ≡ (ok ps, s)) where
    pub decode_map-feed :
        decode_map self (feed ((decimal n ++ crlf) ++ out) s) ≡ (ok (Frame.map ps), s)
    unfolding decode_map
    decode_map-feed = rw (
      feed-append (decimal n ++ crlf) out s,
      read_count-feed n (feed out s) "invalid map length" fits,
      entries,
    )

    pub decode_attribute-feed :
        decode_attribute self (feed ((decimal n ++ crlf) ++ out) s) ≡ (ok (attribute ps), s)
    unfolding decode_attribute
    decode_attribute-feed = rw (
      feed-append (decimal n ++ crlf) out s,
      read_positive_count-feed n (feed out s) "invalid attribute length" fits,
      entries,
    )

pub decode_bulk-feed :
    (bytes : Bytes) (s : Stream)
    → length bytes ≤ max_bulk_size
    → decode_bulk (feed ((decimal (length bytes) ++ crlf) ++ (bytes ++ crlf)) s)
      ≡ (ok (bulk_string (some bytes)), s)
unfolding decode_bulk ensure_bulk_length
decode_bulk-feed bytes s h =
    rw
      (
        feed-append (decimal (length bytes) ++ crlf) (bytes ++ crlf) s,
        read_length-feed (length bytes) (feed (bytes ++ crlf) s) (omega arith),
      )
      (ground (arith, read_payload-feed bytes s "missing CRLF after bulk data"))

is_ascii_lem : (bs : Bytes) → All IsAscii bs → is_ascii bs ≡ true
is_ascii_lem [] h = refl
is_ascii_lem (b ∷ bs) h = ground (arith, is_ascii_lem bs h.1)

verbatim_of_lem :
    (format payload : Bytes) (s : Stream)
    → VerbatimEncodable format payload
    → verbatim_of (format ++ b':' ∷ payload) s ≡ (ok (verbatim_string format payload), s)
unfolding verbatim_of from_utf8
verbatim_of_lem (a ∷ b ∷ c ∷ []) payload s h =
    rw (ascii-is_utf8 (a ∷ b ∷ c ∷ []) h.1) (ground (arith, is_ascii_lem (a ∷ b ∷ c ∷ []) h.1))
verbatim_of_lem _ payload s h = absurd (omega arith)

pub decode_verbatim-feed :
    (format payload : Bytes) (s : Stream)
    → VerbatimEncodable format payload
    → decode_verbatim (
        feed
          ((decimal (length (format ++ b':' ∷ payload)) ++ crlf)
            ++ ((format ++ b':' ∷ payload) ++ crlf))
          s)
      ≡ (ok (verbatim_string format payload), s)
unfolding decode_verbatim ensure_bulk_length
decode_verbatim-feed format payload s h =
    let text = format ++ b':' ∷ payload in
    rw
      (
        feed-append (decimal (length text) ++ crlf) (text ++ crlf) s,
        read_length-feed (length text) (feed (text ++ crlf) s)
            (omega (arith, length-append format (b':' ∷ payload))),
      )
      (ground (
        arith,
        length-append format (b':' ∷ payload),
        read_payload-feed text s "missing CRLF after verbatim payload",
        verbatim_of_lem format payload s h,
      ))

pub decode_integer-feed :
    (z : ℤ) (s : Stream)
    → InI64 z
    → decode_integer (feed (print_i64 z ++ crlf) s) ≡ (ok (integer z), s)
unfolding decode_integer
decode_integer-feed z s h =
    rw (read_line-feed (print_i64 z) s (print_i64-IsLine z), parse_i64-print_i64 z h)

pub decode_bignum-feed :
    (text : Bytes) (s : Stream)
    → IsLine text
    → text ≢ []
    → decode_bignum (feed (text ++ crlf) s) ≡ (ok (big_number text), s)
unfolding decode_bignum
decode_bignum-feed [] s h h' = absurd (h' refl)
decode_bignum-feed (b ∷ text) s h h' = rw (read_line-feed (b ∷ text) s h)

pub decode_boolean-feed :
    (b : Bool) (s : Stream) → decode_boolean (feed (flag b ++ crlf) s) ≡ (ok (boolean b), s)
unfolding decode_boolean
decode_boolean-feed true s = refl
decode_boolean-feed false s = refl

pub decode_null-feed : (s : Stream) → decode_null (feed crlf s) ≡ (ok null, s)
unfolding decode_null
decode_null-feed s = refl

pub decode_double-feed :
    (float : Float64) (x : ℕ) (s : Stream)
    → IsLine (float.to_string x)
    → float.from_str (float.to_string x) ≡ some x
    → decode_double float (feed (float.to_string x ++ crlf) s) ≡ (ok (double x), s)
unfolding decode_double
decode_double-feed float x s h h' = rw (read_line-feed (float.to_string x) s h, h')
