-- ===== src/Protocol/Tests.antt =====
-- Frames on the wire: runs of the encoder and the decoder.
use ralphdb.Prelude.{◌≡◌, ◌≢◌, refl, ◌^◌, none, some, [], ◌∷◌, ◌++◌, arith, codes}
use ralphdb.Prelude.Int.{pos}
use ralphdb.Text.Decimal.{decimal, parse_unsigned, print_i64}
use ralphdb.Protocol.Frame.{
  Frame, simple_string, integer, bulk_string, array, null, nil, frames, Float64, resp2, resp3,
  IoError,
}
use ralphdb.Protocol.Reader.{byte, Stream, ok, err, feed, crlf}
use ralphdb.Protocol.Decode.{decode}
use ralphdb.Protocol.Encode.{encode_frame}
use ralphdb.Protocol.Encodable.{Encodable, view}
use ralphdb.Protocol.RoundTrip.{decode-encode_frame, encode_frame_prefix_free}
use ralphdb.Protocol.Progress.{decode-Holds}
use ralphdb.Protocol.Progress.Parts.{Decoded}
use ralphdb.Protocol.Consume.{Holds}
use ralphdb.Protocol.Refuse.{succeeds, carries, encode_frame-succeeds}
use ralphdb.Protocol.Split.{decode-encode_frame_split}
use ralphdb.Protocol.Lines.{IsLine}
use ralphdb.Protocol.Frame.{error}
use ralphdb.Text.Utf8.{ascii-is_utf8}
use ralphdb.Protocol.Truncate.{decode-append, decode_truncated}

-- Doubles that are whole numbers.
abbrev toy : Float64
toy = record { from_str = parse_unsigned (2 ^ 64); to_string = decimal }

abbrev reply : Frame
reply = array (frames (integer (pos 42) ∷ bulk_string (some (codes "a" ++ crlf)) ∷ null ∷ []))

reply-Encodable_resp3 : Encodable toy resp3 reply
reply-Encodable_resp3 = ground arith

reply-Encodable_resp2 : Encodable toy resp2 reply
reply-Encodable_resp2 = ground arith

-- In RESP2 the null comes back as a null bulk string.
decode-encode_frame_example :
    ((encode_frame toy reply resp2).failure ≡ none)
    × (decode toy (feed (encode_frame toy reply resp2).out (byte 42 ∷ []))
        ≡ (ok (view toy resp2 reply), byte 42 ∷ []))
decode-encode_frame_example =
    decode-encode_frame toy resp2 reply (byte 42 ∷ []) reply-Encodable_resp2

encode_frame_prefix_free_example : (reply ≡ reply) × (Path Stream [] [])
encode_frame_prefix_free_example =
    encode_frame_prefix_free toy reply reply [] [] reply-Encodable_resp3 reply-Encodable_resp3 refl

-- A bulk string that is said to have two bytes and is cut, and a frame behind which another comes.
decode-Holds_example : Holds Decoded 4 (decode toy (feed (codes "$2" ++ crlf) (byte 42 ∷ [])))
decode-Holds_example = decode-Holds toy (feed (codes "$2" ++ crlf) (byte 42 ∷ []))

ok_first : decode toy (feed (codes "+OK" ++ crlf) []) ≡ (ok (simple_string (codes "OK")), [])
unfolding decode
ok_first = refl

decode-append_example :
    decode toy (feed (codes "+OK" ++ crlf) [] ++ (byte 42 ∷ []))
    ≡ (ok (simple_string (codes "OK")), [] ++ (byte 42 ∷ []))
decode-append_example =
    decode-append toy (feed (codes "+OK" ++ crlf) []) (byte 42 ∷ []) (simple_string (codes "OK")) []
      ok_first

answer-out : (encode_frame toy (integer (pos 42)) resp3).out ≡ codes ":4" ++ (codes "2" ++ crlf)
unfolding encode_frame print_i64
answer-out = refl

two_ne_nil : codes "2" ++ crlf ≢ []
two_ne_nil h = cc

decode_truncated_example :
    (e : IoError) × (r : Stream) × (decode toy (feed (codes ":4") []) ≡ (err e, r))
decode_truncated_example =
    decode_truncated toy (integer (pos 42)) (codes ":4") (codes "2" ++ crlf) (ground arith)
      answer-out two_ne_nil

encode_frame-succeeds_example :
    succeeds (encode_frame toy (array (frames (Frame.set nil ∷ []))) resp2)
    ≡ carries resp2 (array (frames (Frame.set nil ∷ [])))
encode_frame-succeeds_example =
    encode_frame-succeeds toy (array (frames (Frame.set nil ∷ []))) resp2

name-IsLine : IsLine (codes "id=1 name=a")
name-IsLine = (ground arith, ascii-is_utf8 (codes "id=1 name=a") (ground arith))

decode-encode_frame_split_example :
    (decode toy (
        feed
          (encode_frame toy
            (simple_string (codes "id=1 name=a" ++ (crlf ++ codes "+OK")))
            resp2).out
          [])
      ≡ (ok (simple_string (codes "id=1 name=a")), feed (codes "+OK" ++ crlf) []))
    × (decode toy (
          feed
            (encode_frame toy (error (codes "id=1 name=a" ++ (crlf ++ codes "+OK"))) resp2).out
            [])
        ≡ (ok (error (codes "id=1 name=a")), feed (codes "+OK" ++ crlf) []))
decode-encode_frame_split_example =
    decode-encode_frame_split toy resp2 (codes "id=1 name=a") (codes "+OK") [] name-IsLine
