-- ===== src/Protocol/RoundTrip/Reads.antt =====
-- What it means that the decoder reads what the encoder has written.
use ralphdb.Prelude.{ℕ, zero, suc, ◌<◌, ◌≤◌, ◌≡◌, none, ◌∷◌, ◌++◌, arith, Bytes, length}
use ralphdb.Protocol.Frame.{Frame, Frames, Pairs, Float64, ProtocolVersion, count, count_pairs}
use ralphdb.Protocol.Reader.{Reader, Stream, feed, ok}
use ralphdb.Protocol.Decode.{decode_items, decode_entries, decode_frame}
use ralphdb.Protocol.Encode.{
  Written, encode_frame, encode_items, encode_entries, ◌⨾◌, also, encode_verbatim, write_all,
  payload_line,
}
use ralphdb.Protocol.Encodable.{
  view, view_items, view_entries, collections, collections_items, collections_entries,
}

-- What was written is whole, and with fuel above `bound` the reader gets `a` and leaves the rest.
pub record Reads {A : Type 0} (w : Written) (bound : ℕ) (reader : ℕ → Reader A) (a : A)
    : Type 0 where
  pub whole : w.failure ≡ none
  pub small : bound ≤ length w.out
  pub read : (f : ℕ) (s : Stream) → bound < suc f → reader (suc f) (feed w.out s) ≡ (ok a, s)

pub Reads-at :
    {A : Type 0} {w : Written} {bound : ℕ} {reader : ℕ → Reader A} {a : A}
    → Reads w bound reader a
    → (f : ℕ) (s : Stream) → bound < f
    → reader f (feed w.out s) ≡ (ok a, s)
Reads-at r zero s lt = absurd (omega arith)
Reads-at r (suc f) s lt = r.read f s lt

pub encode_verbatim_lem :
    (format payload : Bytes)
    → length format ≡ 3
    → encode_verbatim format payload ≡ write_all (payload_line b'=' (format ++ b':' ∷ payload))
encode_verbatim_lem format payload h = rw h

pub after_whole : (v w : Written) → v.failure ≡ none → v ⨾ w ≡ also v.out w
after_whole v w h = rw h

module _ (float : Float64) where
  abbrev pub ReadsFrame : ProtocolVersion → Frame → Type 0
  ReadsFrame v x =
      Reads (encode_frame float x v) (collections x) (decode_frame float) (view float v x)

  abbrev pub ReadsItems : ProtocolVersion → Frames → Type 0
  ReadsItems v xs =
      Reads (encode_items float xs v) (collections_items xs)
        (λ f. decode_items (decode_frame float f) (count xs)) (view_items float v xs)

  abbrev pub ReadsEntries : ProtocolVersion → Pairs → Type 0
  ReadsEntries v ps =
      Reads (encode_entries float ps v) (collections_entries ps)
        (λ f. decode_entries (decode_frame float f) (count_pairs ps)) (view_entries float v ps)
