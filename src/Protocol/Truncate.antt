-- ===== src/Protocol/Truncate.antt =====
-- Frames that arrive in pieces: more input changes no success, and a cut frame is no frame.
use ralphdb.Prelude.{
  suc, ◌≡◌, ◌≢◌, refl, sym, ap, ◌∙◌, [], ◌∷◌, ◌++◌, arith, Bytes, length, length-append,
}
use ralphdb.Protocol.Frame.{Frame, Float64, resp3, IoError}
use ralphdb.Protocol.Reader.{Stream, Outcome, ok, err, out_of_fuel, feed, byte}
use ralphdb.Protocol.Decode.{decode}
use ralphdb.Protocol.Encode.{encode_frame}
use ralphdb.Protocol.Encodable.{Encodable}
use ralphdb.Protocol.Progress.{decode-Holds}
use ralphdb.Protocol.RoundTrip.{decode-encode_frame_resp3}
use ralphdb.Protocol.Extend.Parts.{decode_frame-Extends}

feed-++ : (p q : Bytes) → feed p [] ++ feed q [] ≡ feed (p ++ q) []
feed-++ [] q = refl
feed-++ (b ∷ p) q = ap (λ t. byte b ∷ t) (feed-++ p q)

-- A frame that is decoded from the start of a stream is decoded whatever else arrives behind it,
-- and what arrives is left for the next frame.
pub decode-append :
    (float : Float64) (s t : Stream) (x : Frame) (r : Stream)
    → decode float s ≡ (ok x, r)
    → decode float (s ++ t) ≡ (ok x, r ++ t)
unfolding decode
decode-append float s t x r h =
    (decode_frame-Extends float (suc (length s)) (suc (length (s ++ t)))
        (omega (arith, length-append s t))).at
      s t x r h

nil_of_append : (r : Stream) (q : Bytes) → r ++ feed q [] ≡ [] → q ≡ []
nil_of_append [] [] h = refl
nil_of_append [] (b ∷ q) h = cc h
nil_of_append (e ∷ r) q h = cc h

-- A read that succeeds on a part of a frame has read the whole of it.
no_early_success :
    (float : Float64) (x y : Frame) (p q : Bytes) (r : Stream)
    → Encodable float resp3 x
    → (encode_frame float x resp3).out ≡ p ++ q
    → decode float (feed p []) ≡ (ok y, r)
    → q ≡ []
no_early_success float x y p q r h cut e =
    let early = decode-append float (feed p []) (feed q []) y r e in
    let whole = decode-encode_frame_resp3 float x [] h in
    let same : Path (Outcome Frame × Stream) (ok y, r ++ feed q []) (ok x, []) =
      sym early ∙ ap (decode float) (feed-++ p q ∙ ap (λ bs. feed bs []) (sym cut)) ∙ whole in
    nil_of_append r q (cc same)

failed :
    (float : Float64) (s : Stream) (o : Outcome Frame × Stream)
    → decode float s ≡ o
    → ((y : Frame) (r : Stream) → decode float s ≢ (ok y, r))
    → (e : IoError) × (r : Stream) × (decode float s ≡ (err e, r))
failed float s (ok y, r) h not_ok = absurd (not_ok y r h)
failed float s (err e, r) h not_ok = (e, r, h)
failed float s (out_of_fuel, r) h not_ok = absurd (rw h at (decode-Holds float s))

-- Of an encodable frame in RESP3, no proper beginning is decoded: the connection that ends there
-- gets an error.
pub decode_truncated :
    (float : Float64) (x : Frame) (p q : Bytes)
    → Encodable float resp3 x
    → (encode_frame float x resp3).out ≡ p ++ q
    → q ≢ []
    → (e : IoError) × (r : Stream) × (decode float (feed p []) ≡ (err e, r))
decode_truncated float x p q h cut rest =
    failed float (feed p []) (decode float (feed p [])) refl
      (λ y r e. rest (no_early_success float x y p q r h cut e))
