-- ===== src/Protocol/Extend/Parts.antt =====
-- The parts of the decoder, over two readers of frames of which the second extends the first.
use ralphdb.Prelude.{
  ℕ, zero, suc, ◌≤◌, none, some, [], ◌∷◌, arith, Bytes, is_empty, bytes_eq, ltb, ◌==◌, String,
}
use ralphdb.Prelude.Int.{ℤ, pos, ltb_ℤ}
use ralphdb.Text.Utf8.{from_utf8}
use ralphdb.Text.Decimal.{parse_i64}
use ralphdb.Protocol.Frame.{Frame, Float64, max_bulk_size, max_collection_size}
use ralphdb.Protocol.Reader.{Reader, crlf, take, read_line, pure, ◌>>=◌}
use ralphdb.Protocol.Decode.{
  ensure_non_negative, ensure_bulk_length, ensure_collection_length, read_length, parse_length,
  read_count, read_positive_count, read_payload, is_minus_one, below_minus_one, decode_bulk,
  decode_items, decode_entries, is_ascii, colon_at_3, verbatim_of, decode_verbatim, decode_bignum,
  decode_integer, decode_boolean, decode_null, decode_double, decode_inline_frame, tokens,
  split_blanks, decode_array, decode_map, decode_set, decode_push, decode_attribute,
  decode_by_prefix, decode_frame, first_of_prefix,
}
use ralphdb.Protocol.Extend.{
  Extends, Extends-pure, Extends-raise, Extends-if, Extends-ok_or, Extends-bind, read_exact-Extends,
  read_line-Extends, read_line_bytes-Extends,
}

abbrev Steady : {A : Type 0} → Reader A → Type 0
Steady m = Extends m m

read_length-Steady : Steady read_length
unfolding read_length parse_length
read_length-Steady = Extends-bind _ _ _ _ read_line-Extends λ line. Extends-ok_or (parse_i64 line) _

ensure_non_negative-Steady :
    (z : ℤ) (max : ℕ) (kind : String) → Steady (ensure_non_negative z max kind)
unfolding ensure_non_negative
ensure_non_negative-Steady z max kind =
    Extends-if (ltb_ℤ z (pos 0)) _ _ _ _ (Extends-raise _ _)
      (Extends-if (ltb_ℤ (pos max) z) _ _ _ _ (Extends-raise _ _) (Extends-pure _))

read_count-Steady : (message : String) → Steady (read_count message)
unfolding read_count ensure_collection_length
read_count-Steady message = Extends-bind _ _ _ _ read_length-Steady λ z.
    Extends-if (is_minus_one z) _ _ _ _ (Extends-pure _) (
      Extends-if (below_minus_one z) _ _ _ _ (Extends-raise _ _) (
        Extends-bind _ _ _ _ (ensure_non_negative-Steady z max_collection_size "collection length")
          λ n. Extends-pure _))

read_positive_count-Steady : (message : String) → Steady (read_positive_count message)
unfolding read_positive_count ensure_collection_length
read_positive_count-Steady message = Extends-bind _ _ _ _ read_length-Steady λ z.
    Extends-if (ltb_ℤ z (pos 0)) _ _ _ _ (Extends-raise _ _)
      (ensure_non_negative-Steady z max_collection_size "collection length")

read_payload-Steady : (n : ℕ) (message : String) → Steady (read_payload n message)
unfolding read_payload
read_payload-Steady n message = Extends-bind _ _ _ _ (read_exact-Extends n) λ buffer.
    Extends-bind _ _ _ _ (read_exact-Extends 2)
      λ ending. Extends-if (bytes_eq ending crlf) _ _ _ _ (Extends-pure _) (Extends-raise _ _)

decode_bulk-Steady : Steady decode_bulk
unfolding decode_bulk ensure_bulk_length
decode_bulk-Steady = Extends-bind _ _ _ _ read_length-Steady λ z.
    Extends-if (is_minus_one z) _ _ _ _ (Extends-pure _) (
      Extends-if (below_minus_one z) _ _ _ _ (Extends-raise _ _) (
        Extends-bind _ _ _ _ (ensure_non_negative-Steady z max_bulk_size "bulk length") λ n.
          Extends-bind _ _ _ _ (read_payload-Steady n "missing CRLF after bulk data")
            λ buffer. Extends-pure _))

verbatim_of-Steady : (buffer : Bytes) → Steady (verbatim_of buffer)
unfolding verbatim_of
verbatim_of-Steady buffer =
    Extends-if (colon_at_3 buffer) _ _ _ _
      (Extends-bind _ _ _ _
        (Extends-ok_or (from_utf8 (take 3 buffer)) "invalid verbatim format tag")
        λ format. Extends-if (is_ascii format) _ _ _ _ (Extends-pure _) (Extends-raise _ _))
      (Extends-raise _ _)

decode_verbatim-Steady : Steady decode_verbatim
unfolding decode_verbatim ensure_bulk_length
decode_verbatim-Steady = Extends-bind _ _ _ _ read_length-Steady λ z.
    Extends-if (ltb_ℤ z (pos 0)) _ _ _ _ (Extends-raise _ _) (
      Extends-bind _ _ _ _ (ensure_non_negative-Steady z max_bulk_size "bulk length") λ n.
        Extends-if (ltb n 4) _ _ _ _ (Extends-raise _ _) (
          Extends-bind _ _ _ _ (read_payload-Steady n "missing CRLF after verbatim payload")
            verbatim_of-Steady))

decode_bignum-Steady : Steady decode_bignum
unfolding decode_bignum
decode_bignum-Steady =
    Extends-bind _ _ _ _ read_line-Extends
      λ line. Extends-if (is_empty line) _ _ _ _ (Extends-raise _ _) (Extends-pure _)

decode_integer-Steady : Steady decode_integer
unfolding decode_integer
decode_integer-Steady = Extends-bind _ _ _ _ read_line-Extends λ line.
    Extends-bind _ _ _ _ (Extends-ok_or (parse_i64 line) "invalid integer frame")
      λ z. Extends-pure _

decode_boolean-Steady : Steady decode_boolean
unfolding decode_boolean
decode_boolean-Steady = Extends-bind _ _ _ _ read_line-Extends λ line.
    Extends-if (bytes_eq line (b't' ∷ [])) _ _ _ _ (Extends-pure _)
      (Extends-if (bytes_eq line (b'f' ∷ [])) _ _ _ _ (Extends-pure _) (Extends-raise _ _))

decode_null-Steady : Steady decode_null
unfolding decode_null
decode_null-Steady =
    Extends-bind _ _ _ _ read_line-Extends
      λ line. Extends-if (is_empty line) _ _ _ _ (Extends-pure _) (Extends-raise _ _)

decode_inline_frame-Steady : (b : ℕ) → Steady (decode_inline_frame b)
unfolding decode_inline_frame
decode_inline_frame-Steady b = Extends-bind _ _ _ _ read_line_bytes-Extends λ rest.
    Extends-if (is_empty (tokens (split_blanks (b ∷ rest)))) _ _ _ _ (Extends-raise _ _)
      (Extends-pure _)

decode_double-Steady : (float : Float64) → Steady (decode_double float)
unfolding decode_double
decode_double-Steady float = Extends-bind _ _ _ _ read_line-Extends λ line.
    Extends-bind _ _ _ _ (Extends-ok_or (float.from_str line) "invalid double frame")
      λ x. Extends-pure _

line-Steady : (build : Bytes → Frame) → Steady (do line ← read_line; pure (build line))
line-Steady build = Extends-bind _ _ _ _ read_line-Extends λ line. Extends-pure _

module _ (self self' : Reader Frame) (h : Extends self self') where
  decode_items-Extends : (n : ℕ) → Extends (decode_items self n) (decode_items self' n)
  unfolding decode_items
  decode_items-Extends zero = Extends-pure _
  decode_items-Extends (suc n) =
      Extends-bind _ _ _ _ h λ x. Extends-bind _ _ _ _ (decode_items-Extends n) λ xs. Extends-pure _

  decode_entries-Extends : (n : ℕ) → Extends (decode_entries self n) (decode_entries self' n)
  unfolding decode_entries
  decode_entries-Extends zero = Extends-pure _
  decode_entries-Extends (suc n) = Extends-bind _ _ _ _ h λ k.
      Extends-bind _ _ _ _ h
        λ v. Extends-bind _ _ _ _ (decode_entries-Extends n) λ ps. Extends-pure _

  decode_array-Extends : Extends (decode_array self) (decode_array self')
  unfolding decode_array
  decode_array-Extends = Extends-bind _ _ _ _ (read_count-Steady "invalid array length") (elim [
    | none ↦ Extends-pure _
    | some n ↦ Extends-bind _ _ _ _ (decode_items-Extends n) λ xs. Extends-pure _
  ])

  decode_set-Extends : Extends (decode_set self) (decode_set self')
  unfolding decode_set
  decode_set-Extends = Extends-bind _ _ _ _ (read_count-Steady "invalid set length") (elim [
    | none ↦ Extends-pure _
    | some n ↦ Extends-bind _ _ _ _ (decode_items-Extends n) λ xs. Extends-pure _
  ])

  decode_map-Extends : Extends (decode_map self) (decode_map self')
  unfolding decode_map
  decode_map-Extends = Extends-bind _ _ _ _ (read_count-Steady "invalid map length") (elim [
    | none ↦ Extends-pure _
    | some n ↦ Extends-bind _ _ _ _ (decode_entries-Extends n) λ ps. Extends-pure _
  ])

  decode_push-Extends : Extends (decode_push self) (decode_push self')
  unfolding decode_push
  decode_push-Extends =
      Extends-bind _ _ _ _ (read_positive_count-Steady "invalid push length")
        λ n. Extends-bind _ _ _ _ (decode_items-Extends n) λ xs. Extends-pure _

  decode_attribute-Extends : Extends (decode_attribute self) (decode_attribute self')
  unfolding decode_attribute
  decode_attribute-Extends =
      Extends-bind _ _ _ _ (read_positive_count-Steady "invalid attribute length")
        λ n. Extends-bind _ _ _ _ (decode_entries-Extends n) λ ps. Extends-pure _

  pub decode_by_prefix-Extends :
      (float : Float64) (b : ℕ)
      → Extends (decode_by_prefix float self b) (decode_by_prefix float self' b)
  unfolding decode_by_prefix
  decode_by_prefix-Extends float b =
      Extends-if (b == b'+') _ _ _ _ (line-Steady Frame.simple_string) (
        Extends-if (b == b'-') _ _ _ _ (line-Steady Frame.error) (
          Extends-if (b == b':') _ _ _ _ decode_integer-Steady (
            Extends-if (b == b'$') _ _ _ _ decode_bulk-Steady (
              Extends-if (b == b'*') _ _ _ _ decode_array-Extends (
                Extends-if (b == b'#') _ _ _ _ decode_boolean-Steady (
                  Extends-if (b == b',') _ _ _ _ (decode_double-Steady float) (
                    Extends-if (b == b'_') _ _ _ _ decode_null-Steady (
                      Extends-if (b == b'%') _ _ _ _ decode_map-Extends (
                        Extends-if (b == b'~') _ _ _ _ decode_set-Extends (
                          Extends-if (b == b'>') _ _ _ _ decode_push-Extends (
                            Extends-if (b == b'|') _ _ _ _ decode_attribute-Extends (
                              Extends-if (b == b'=') _ _ _ _ decode_verbatim-Steady (
                                Extends-if (b == b'(') _ _ _ _ decode_bignum-Steady
                                  (decode_inline_frame-Steady b))))))))))))))

-- More fuel changes nothing either.
pub decode_frame-Extends :
    (float : Float64) (f g : ℕ) → f ≤ g → Extends (decode_frame float f) (decode_frame float g)
unfolding decode_frame
decode_frame-Extends float zero g le = record { at = λ s t a r h. cc }
decode_frame-Extends float (suc f) zero le = absurd (omega arith)
decode_frame-Extends float (suc f) (suc g) le =
    Extends-bind _ _ _ _ (read_exact-Extends 1) λ prefix.
      decode_by_prefix-Extends (decode_frame float f) (decode_frame float g)
        (decode_frame-Extends float f g (omega arith)) float (first_of_prefix prefix)
