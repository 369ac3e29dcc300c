-- ===== src/Protocol/RoundTrip.antt =====
-- What the encoder writes, the decoder reads back.
pub mod Parts
pub mod Reads
pub mod Induction
use ralphdb.Prelude.{suc, ◌+◌, ◌≡◌, refl, none, [], ◌∷◌, arith, Bytes, length, ap, ◌∙◌, sym}
use ralphdb.Protocol.Frame.{
  Frame, Frames, Pairs, simple_string, array, set, push, attribute, nil, cons, end, pair, Float64,
  ProtocolVersion, resp3,
}
use ralphdb.Protocol.Reader.{Stream, Outcome, feed, ok}
use ralphdb.Protocol.Decode.{decode}
use ralphdb.Protocol.Encode.{encode_frame}
use ralphdb.Protocol.Encodable.{Encodable, view, view_items, view_entries}
use Reads.{Reads-at}
use Induction.{encode_frame-Reads}

length-feed : (bs : Bytes) (s : Stream) → length (feed bs s) ≡ length bs + length s
length-feed [] s = omega arith
length-feed (b ∷ bs) s = omega (arith, length-feed bs s)

mutual
  view-resp3 : (float : Float64) (x : Frame) → view float resp3 x ≡ x
  view-resp3 float (simple_string text) = refl
  view-resp3 float (array xs) = ap array (view_items-resp3 float xs)
  view-resp3 float (Frame.map ps) = ap Frame.map (view_entries-resp3 float ps)
  view-resp3 float (set xs) = ap set (view_items-resp3 float xs)
  view-resp3 float (push xs) = ap push (view_items-resp3 float xs)
  view-resp3 float (attribute ps) = ap attribute (view_entries-resp3 float ps)
  view-resp3 float _ = refl

  view_items-resp3 : (float : Float64) (xs : Frames) → view_items float resp3 xs ≡ xs
  view_items-resp3 float nil = refl
  view_items-resp3 float (cons x xs) = cc (view-resp3 float x, view_items-resp3 float xs)

  view_entries-resp3 : (float : Float64) (ps : Pairs) → view_entries float resp3 ps ≡ ps
  view_entries-resp3 float end = refl
  view_entries-resp3 float (pair k x ps) =
      cc (view-resp3 float k, view-resp3 float x, view_entries-resp3 float ps)

-- A frame that a version of the protocol can carry is encoded with no error, and decoding the
-- output, whatever follows it, gives the view of the frame in that version and leaves what follows.
pub decode-encode_frame :
    (float : Float64) (v : ProtocolVersion) (x : Frame) (s : Stream)
    → Encodable float v x
    → ((encode_frame float x v).failure ≡ none)
      × (decode float (feed (encode_frame float x v).out s) ≡ (ok (view float v x), s))
unfolding decode
decode-encode_frame float v x s h =
    let r = encode_frame-Reads float v x h in
    (
      r.whole,
      Reads-at r (suc (length (feed (encode_frame float x v).out s))) s
          (omega (arith, r.small, length-feed (encode_frame float x v).out s)),
    )

-- In RESP3 an encodable frame is decoded to itself.
pub decode-encode_frame_resp3 :
    (float : Float64) (x : Frame) (s : Stream)
    → Encodable float resp3 x
    → decode float (feed (encode_frame float x resp3).out s) ≡ (ok x, s)
decode-encode_frame_resp3 float x s h =
    (decode-encode_frame float resp3 x s h).1 ∙ ap (λ y. (ok y, s)) (view-resp3 float x)

-- The encoding is prefix-free: if two encodable frames are written in RESP3 and followed by streams
-- that make the whole alike, the frames are equal, and so are the streams.
pub encode_frame_prefix_free :
    (float : Float64) (x y : Frame) (s t : Stream)
    → Encodable float resp3 x
    → Encodable float resp3 y
    → feed (encode_frame float x resp3).out s ≡ feed (encode_frame float y resp3).out t
    → (x ≡ y) × (s ≡ t)
encode_frame_prefix_free float x y s t hx hy same =
    let p = decode-encode_frame_resp3 float x s hx in
    let q = decode-encode_frame_resp3 float y t hy in
    let both : Path (Outcome Frame × Stream) (ok x, s) (ok y, t) =
      sym p ∙ ap (decode float) same ∙ q in
    (cc both, cc both)
