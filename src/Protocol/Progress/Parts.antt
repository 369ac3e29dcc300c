-- ===== src/Protocol/Progress/Parts.antt =====
-- The limits that each part of the decoder enforces.
use ralphdb.Prelude.{
  ℕ, ◌≤◌, ◌≡◌, ◌≢◌, ◌⊎◌, inr, refl, true, false, Option, none, some, [], ◌∷◌, arith, Bytes, All,
  length, is_empty, ◌==◌, ltb, bytes_eq, String, List,
}
use ralphdb.Prelude.Int.{ℤ, pos, ltb_ℤ, InI64}
use ralphdb.Text.Utf8.{from_utf8, IsAscii}
use ralphdb.Text.Decimal.{parse_i64}
use ralphdb.Text.Decimal.Laws.{parse_i64-InI64}
use ralphdb.Protocol.Frame.{
  Frame, Frames, Pairs, simple_string, error, integer, bulk_string, array, null_array, null,
  boolean, double, null_map, set, null_set, push, attribute, verbatim_string, big_number, nil, cons,
  end, pair, frames, Float64, count, count_pairs, max_bulk_size, max_collection_size,
}
use ralphdb.Protocol.Reader.{crlf}
use ralphdb.Protocol.Decode.{
  ensure_non_negative, ensure_bulk_length, ensure_collection_length, read_length, parse_length,
  read_count, read_positive_count, read_payload, is_minus_one, below_minus_one, decode_bulk,
  is_ascii, verbatim_of, decode_verbatim, decode_bignum, decode_integer, decode_boolean,
  decode_null, decode_double, decode_inline_frame, tokens, split_blanks,
}
use ralphdb.Protocol.Lines.{IsLine}
use ralphdb.Protocol.Encodable.{BulkFits, VerbatimEncodable}
use ralphdb.Protocol.Consume.{
  Consumes, Consumes-pure, Consumes-raise, Consumes-if, Consumes-bind, Consumes-ok_or, HasLength,
  read_exact-Consumes,
}
use ralphdb.Protocol.Consume.Lines.{read_line-Consumes, read_line_bytes-Consumes}

-- The words of an inline command: bulk strings that are not empty.
abbrev pub InlineWords : Frames → Type 0
InlineWords nil = Unit
InlineWords (cons (bulk_string (some word)) xs) = (word ≢ []) × InlineWords xs
InlineWords (cons _ xs) = ⊥

-- What the decoder guarantees of a frame. An inline command has no limit on its words.
abbrev mutual
  pub Decoded : Frame → Type 0
  Decoded (simple_string text) = IsLine text
  Decoded (error text) = IsLine text
  Decoded (integer z) = InI64 z
  Decoded (bulk_string bytes) = BulkFits bytes
  Decoded (array xs) =
      ((count xs ≤ max_collection_size) × DecodedItems xs) ⊎ ((1 ≤ count xs) × InlineWords xs)
  Decoded null_array = Unit
  Decoded null = Unit
  Decoded (boolean b) = Unit
  Decoded (double x) = Unit
  Decoded (Frame.map ps) = (count_pairs ps ≤ max_collection_size) × DecodedEntries ps
  Decoded null_map = Unit
  Decoded (set xs) = (count xs ≤ max_collection_size) × DecodedItems xs
  Decoded null_set = Unit
  Decoded (push xs) = (count xs ≤ max_collection_size) × DecodedItems xs
  Decoded (attribute ps) = (count_pairs ps ≤ max_collection_size) × DecodedEntries ps
  Decoded (verbatim_string format payload) = VerbatimEncodable format payload
  Decoded (big_number text) = IsLine text × (text ≢ [])

  pub DecodedItems : Frames → Type 0
  DecodedItems nil = Unit
  DecodedItems (cons x xs) = Decoded x × DecodedItems xs

  pub DecodedEntries : Pairs → Type 0
  DecodedEntries end = Unit
  DecodedEntries (pair key value ps) = Decoded key × Decoded value × DecodedEntries ps

module _ (f : ℕ) where
  pub read_length-Consumes : Consumes f InI64 read_length
  unfolding read_length parse_length
  read_length-Consumes =
      Consumes-bind f _ _ (read_line-Consumes f)
        λ line _. Consumes-ok_or f (parse_i64 line) _ (λ z h. parse_i64-InI64 line z h)

  ensure_non_negative-Consumes :
      (z : ℤ) (max : ℕ) (kind : String) → Consumes f (λ n. n ≤ max) (ensure_non_negative z max kind)
  unfolding ensure_non_negative
  ensure_non_negative-Consumes z max kind =
      Consumes-if f (ltb_ℤ z (pos 0)) _ _ (λ _. Consumes-raise f _ _)
        (λ _.
          Consumes-if f (ltb_ℤ (pos max) z) _ _ (λ _. Consumes-raise f _ _)
            (λ h. Consumes-pure f _ (ground arith)))

  abbrev CountFits : Option ℕ → Type 0
  CountFits none = Unit
  CountFits (some n) = n ≤ max_collection_size

  pub read_count-Consumes : (message : String) → Consumes f CountFits (read_count message)
  unfolding read_count ensure_collection_length
  read_count-Consumes message = Consumes-bind f _ _ read_length-Consumes λ z _.
      Consumes-if f (is_minus_one z) _ _ (λ _. Consumes-pure f none tt)
        (λ _.
          Consumes-if f (below_minus_one z) _ _ (λ _. Consumes-raise f _ _)
            (λ _.
              Consumes-bind f _ _
                (ensure_non_negative-Consumes z max_collection_size "collection length")
                λ n h. Consumes-pure f (some n) h))

  pub read_positive_count-Consumes :
      (message : String) → Consumes f (λ n. n ≤ max_collection_size) (read_positive_count message)
  unfolding read_positive_count ensure_collection_length
  read_positive_count-Consumes message = Consumes-bind f _ _ read_length-Consumes λ z _.
      Consumes-if f (ltb_ℤ z (pos 0)) _ _ (λ _. Consumes-raise f _ _)
        (λ _. ensure_non_negative-Consumes z max_collection_size "collection length")

  pub read_payload-Consumes :
      (n : ℕ) (message : String) → Consumes f (HasLength n) (read_payload n message)
  unfolding read_payload
  read_payload-Consumes n message = Consumes-bind f _ _ (read_exact-Consumes f n) λ buffer h.
      Consumes-bind f _ _ (read_exact-Consumes f 2) λ ending _.
        Consumes-if f (bytes_eq ending crlf) _ _ (λ _. Consumes-pure f buffer h)
          (λ _. Consumes-raise f _ _)

  pub decode_bulk-Consumes : Consumes f Decoded decode_bulk
  unfolding decode_bulk ensure_bulk_length
  decode_bulk-Consumes = Consumes-bind f _ _ read_length-Consumes λ z _.
      Consumes-if f (is_minus_one z) _ _ (λ _. Consumes-pure f _ tt)
        (λ _.
          Consumes-if f (below_minus_one z) _ _ (λ _. Consumes-raise f _ _)
            (λ _.
              Consumes-bind f _ _ (ensure_non_negative-Consumes z max_bulk_size "bulk length")
                λ n fits.
                  Consumes-bind f _ _ (read_payload-Consumes n "missing CRLF after bulk data")
                    λ buffer h. Consumes-pure f _ (omega (arith, h))))

is_ascii-All : (bs : Bytes) → is_ascii bs ≡ true → All IsAscii bs
is_ascii-All [] h = tt
is_ascii-All (b ∷ bs) h = ground (arith, is_ascii-All bs)

from_utf8-eq : (bs text : Bytes) → from_utf8 bs ≡ some text → text ≡ bs
unfolding from_utf8
from_utf8-eq bs text h = ground arith

-- A verbatim buffer of four bytes or more, within the limit, with a colon behind three ASCII bytes.
module _ (f : ℕ) where
  verbatim_of-Consumes :
      (buffer : Bytes)
      → 4 ≤ length buffer
      → length buffer ≤ max_bulk_size
      → Consumes f Decoded (verbatim_of buffer)
  unfolding verbatim_of
  verbatim_of-Consumes (a ∷ b ∷ c ∷ d ∷ rest) lo hi =
      Consumes-if f (d == b':') _ _
        (λ _.
          Consumes-bind f _ _
            (Consumes-ok_or {P = λ t. t ≡ a ∷ b ∷ c ∷ []} f (from_utf8 (a ∷ b ∷ c ∷ []))
              "invalid verbatim format tag" (from_utf8-eq (a ∷ b ∷ c ∷ [])))
            λ format e.
              Consumes-if f (is_ascii format) _ _
                (λ h.
                  Consumes-pure f _
                    (rw e (refl, is_ascii-All (a ∷ b ∷ c ∷ []) (rw e at h), omega arith)))
                (λ _. Consumes-raise f _ _))
        (λ _. Consumes-raise f _ _)
  verbatim_of-Consumes _ lo hi = absurd (omega arith)

  pub decode_verbatim-Consumes : Consumes f Decoded decode_verbatim
  unfolding decode_verbatim ensure_bulk_length
  decode_verbatim-Consumes = Consumes-bind f _ _ (read_length-Consumes f) λ z _.
      Consumes-if f (ltb_ℤ z (pos 0)) _ _ (λ _. Consumes-raise f _ _)
        (λ _.
          Consumes-bind f _ _ (ensure_non_negative-Consumes f z max_bulk_size "bulk length")
            λ n fits.
              Consumes-if f (ltb n 4) _ _ (λ _. Consumes-raise f _ _)
                (λ long.
                  Consumes-bind f _ _
                    (read_payload-Consumes f n "missing CRLF after verbatim payload")
                    λ buffer h. verbatim_of-Consumes buffer (ground arith) (omega (arith, h))))

  pub decode_bignum-Consumes : Consumes f Decoded decode_bignum
  unfolding decode_bignum
  decode_bignum-Consumes = Consumes-bind f _ _ (read_line-Consumes f) λ line h.
      Consumes-if f (is_empty line) _ _ (λ _. Consumes-raise f _ _)
        (λ e. Consumes-pure f _ (h, ground arith))

  pub decode_integer-Consumes : Consumes f Decoded decode_integer
  unfolding decode_integer
  decode_integer-Consumes = Consumes-bind f _ _ (read_line-Consumes f) λ line _.
      Consumes-bind f _ _ (Consumes-ok_or f (parse_i64 line) _ (λ z h. parse_i64-InI64 line z h))
        λ z h. Consumes-pure f _ h

  pub decode_boolean-Consumes : Consumes f Decoded decode_boolean
  unfolding decode_boolean
  decode_boolean-Consumes = Consumes-bind f _ _ (read_line-Consumes f) λ line _.
      Consumes-if f (bytes_eq line (b't' ∷ [])) _ _ (λ _. Consumes-pure f _ tt)
        (λ _.
          Consumes-if f (bytes_eq line (b'f' ∷ [])) _ _ (λ _. Consumes-pure f _ tt)
            (λ _. Consumes-raise f _ _))

  pub decode_null-Consumes : Consumes f Decoded decode_null
  unfolding decode_null
  decode_null-Consumes = Consumes-bind f _ _ (read_line-Consumes f) λ line _.
      Consumes-if f (is_empty line) _ _ (λ _. Consumes-pure f _ tt) (λ _. Consumes-raise f _ _)

  pub decode_double-Consumes : (float : Float64) → Consumes f Decoded (decode_double float)
  unfolding decode_double
  decode_double-Consumes float = Consumes-bind f _ _ (read_line-Consumes f) λ line _.
      Consumes-bind f _ _
        (Consumes-ok_or {P = λ _. Unit {0}} f (float.from_str line) "invalid double frame"
          (λ _ _. tt))
        λ x _. Consumes-pure f _ tt

tokens-InlineWords : (ps : List Bytes) → InlineWords (frames (tokens ps))
unfolding tokens
tokens-InlineWords [] = tt
tokens-InlineWords ([] ∷ ps) = tokens-InlineWords ps
tokens-InlineWords ((b ∷ p) ∷ ps) = (cc, tokens-InlineWords ps)

count-frames : (xs : List Frame) → is_empty xs ≡ false → 1 ≤ count (frames xs)
count-frames [] h = cc
count-frames (x ∷ xs) h = omega arith

module _ (f : ℕ) where
  pub decode_inline_frame-Consumes : (b : ℕ) → Consumes f Decoded (decode_inline_frame b)
  unfolding decode_inline_frame
  decode_inline_frame-Consumes b = Consumes-bind f _ _ (read_line_bytes-Consumes f) λ rest _.
      let found = tokens (split_blanks (b ∷ rest)) in
      Consumes-if f (is_empty found) _ _ (λ _. Consumes-raise f _ _)
        (λ e.
          Consumes-pure f _
            (inr (count-frames found e, tokens-InlineWords (split_blanks (b ∷ rest)))))
