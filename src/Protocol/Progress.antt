-- ===== src/Protocol/Progress.antt =====
-- What every read of a frame does: it ends, it gets on, and the frame is within the limits.
pub mod Parts
pub mod Collections
use ralphdb.Prelude.{ℕ, zero, suc, ◌-◌, ◌<◌, ◌≤◌, [], ◌∷◌, arith, length, ◌==◌}
use ralphdb.Protocol.Frame.{Frame, Float64}
use ralphdb.Protocol.Reader.{byte, fault, Stream, Reader}
use ralphdb.Protocol.Decode.{decode_by_prefix, decode_frame, decode}
use ralphdb.Protocol.Consume.{
  Holds, Consumes, Holds-weaken, Consumes-if, Consumes-bind, Consumes-pure,
}
use ralphdb.Protocol.Consume.Lines.{read_line-Consumes}
use Parts.{
  Decoded, decode_bulk-Consumes, decode_verbatim-Consumes, decode_bignum-Consumes,
  decode_integer-Consumes, decode_boolean-Consumes, decode_null-Consumes, decode_double-Consumes,
  decode_inline_frame-Consumes,
}
use Collections.{
  decode_array-Consumes, decode_set-Consumes, decode_map-Consumes, decode_push-Consumes,
  decode_attribute-Consumes,
}

module _ (float : Float64) where
  decode_by_prefix-Consumes :
      (f b : ℕ) (self : Reader Frame)
      → Consumes f Decoded self
      → Consumes f Decoded (decode_by_prefix float self b)
  unfolding decode_by_prefix
  decode_by_prefix-Consumes f b self h =
      Consumes-if f (b == b'+') _ _
        (λ _. Consumes-bind f _ _ (read_line-Consumes f) λ line p. Consumes-pure f _ p)
        λ _.
          Consumes-if f (b == b'-') _ _
            (λ _. Consumes-bind f _ _ (read_line-Consumes f) λ line p. Consumes-pure f _ p)
            λ _.
              Consumes-if f (b == b':') _ _ (λ _. decode_integer-Consumes f)
                λ _.
                  Consumes-if f (b == b'$') _ _ (λ _. decode_bulk-Consumes f)
                    λ _.
                      Consumes-if f (b == b'*') _ _ (λ _. decode_array-Consumes f self h)
                        λ _.
                          Consumes-if f (b == b'#') _ _ (λ _. decode_boolean-Consumes f)
                            λ _.
                              Consumes-if f (b == b',') _ _ (λ _. decode_double-Consumes f float)
                                λ _.
                                  Consumes-if f (b == b'_') _ _ (λ _. decode_null-Consumes f)
                                    λ _.
                                      Consumes-if f (b == b'%') _ _
                                        (λ _. decode_map-Consumes f self h)
                                        λ _.
                                          Consumes-if f (b == b'~') _ _
                                            (λ _. decode_set-Consumes f self h)
                                            λ _.
                                              Consumes-if f (b == b'>') _ _
                                                (λ _. decode_push-Consumes f self h)
                                                λ _.
                                                  Consumes-if f (b == b'|') _ _
                                                    (λ _. decode_attribute-Consumes f self h)
                                                    λ _.
                                                      Consumes-if f (b == b'=') _ _
                                                        (λ _. decode_verbatim-Consumes f)
                                                        λ _.
                                                          Consumes-if f (b == b'(') _ _
                                                            (λ _. decode_bignum-Consumes f)
                                                            (λ _. decode_inline_frame-Consumes f b)

  -- The first byte is behind the read, and the rest stays within the fuel.
  decode_frame-Holds :
      (f n : ℕ) (s : Stream)
      → n < f
      → length s ≤ suc n
      → Consumes f Decoded (decode_frame float f)
      → Holds Decoded n (decode_frame float (suc f) s)
  unfolding decode_frame
  decode_frame-Holds f n [] lt le h = omega arith
  decode_frame-Holds f n (fault e ∷ s) lt le h = omega arith
  decode_frame-Holds f n (byte b ∷ s) lt le h =
      (decode_by_prefix-Consumes f b (decode_frame float f) h).at n s lt (omega arith)

  decode_frame_nil : (f : ℕ) → Holds Decoded 0 (decode_frame float (suc f) [])
  unfolding decode_frame
  decode_frame_nil f = omega arith

  decode_frame-Consumes : (f : ℕ) → Consumes f Decoded (decode_frame float f)
  decode_frame-Consumes zero = record { at = λ n s lt le. absurd (omega arith) }
  decode_frame-Consumes (suc f) =
      let ih = decode_frame-Consumes f in
      record {
        at = λ n s lt le. step n s lt le (λ lt' le'. decode_frame-Holds f (n - 1) s lt' le' ih);
      }
    where
      step :
          (n : ℕ) (s : Stream)
          → n < suc f
          → length s ≤ n
          → (n - 1 < f
              → length s ≤ suc (n - 1)
              → Holds Decoded (n - 1) (decode_frame float (suc f) s))
          → Holds Decoded n (decode_frame float (suc f) s)
      step n [] lt le h = Holds-weaken Decoded 0 n _ (omega arith) (decode_frame_nil f)
      step n (e ∷ s) lt le h =
          Holds-weaken Decoded (n - 1) n _ (omega arith) (h (omega arith) (omega arith))

  -- Decoding always ends, whatever the stream, and never for want of fuel. It takes at least one
  -- event off a stream that is not empty, on errors too, and a frame that it returns is within the
  -- limits: lines are UTF-8 with no line feed, integers are in the range of `i64`, bulk and
  -- verbatim strings and collections within their maximal sizes, and inline commands have at least
  -- one word.
  pub decode-Holds : (s : Stream) → Holds Decoded (length s - 1) (decode float s)
  unfolding decode
  decode-Holds [] = decode_frame_nil 0
  decode-Holds (e ∷ s) = Holds-weaken Decoded (length s) (length (e ∷ s) - 1) _ (omega arith) (
      decode_frame-Holds (suc (length s)) (length s) (e ∷ s) (omega arith) (omega arith)
        (decode_frame-Consumes (suc (length s))))
