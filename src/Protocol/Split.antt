-- ===== src/Protocol/Split.antt =====
-- Texts with a line end in them: the encoder writes simple strings and errors as they are.
use ralphdb.Prelude.{◌≡◌, refl, sym, ap, ◌∙◌, ◌++◌, Bytes, append_assoc}
use ralphdb.Protocol.Frame.{simple_string, error, Float64, ProtocolVersion}
use ralphdb.Protocol.Reader.{Stream, ok, feed, crlf}
use ralphdb.Protocol.Decode.{decode}
use ralphdb.Protocol.Encode.{encode_frame}
use ralphdb.Protocol.Lines.{IsLine, feed-append, read_line-feed}

regroup :
    (t u : Bytes) (s : Stream)
    → feed ((t ++ (crlf ++ u)) ++ crlf) s ≡ feed (t ++ crlf) (feed (u ++ crlf) s)
regroup t u s =
    ap (λ bs. feed bs s) (append_assoc t (crlf ++ u) crlf ∙ sym (append_assoc t crlf (u ++ crlf)))
    ∙ feed-append (t ++ crlf) (u ++ crlf) s

-- Of a simple string or an error whose text has CR LF behind its first line, a reader gets the first
-- line only, and reads the rest of the text as further frames.
pub decode-encode_frame_split :
    (float : Float64) (v : ProtocolVersion) (t u : Bytes) (s : Stream)
    → IsLine t
    → (decode float (feed (encode_frame float (simple_string (t ++ (crlf ++ u))) v).out s)
        ≡ (ok (simple_string t), feed (u ++ crlf) s))
      × (decode float (feed (encode_frame float (error (t ++ (crlf ++ u))) v).out s)
          ≡ (ok (error t), feed (u ++ crlf) s))
unfolding decode encode_frame
decode-encode_frame_split float v t u s h = (
  rw (regroup t u s, read_line-feed t (feed (u ++ crlf) s) h) refl,
  rw (regroup t u s, read_line-feed t (feed (u ++ crlf) s) h) refl,
)
