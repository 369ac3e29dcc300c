-- ===== src/Protocol/Lines.antt =====
-- The reads at the start of a stream that an encoder wrote: lines, lengths and payloads.
use ralphdb.Prelude.{
  ℕ, ◌-◌, ◌^◌, ◌<◌, ◌≡◌, refl, ◌≢◌, true, false, some, [], ◌∷◌, ◌++◌, arith, Bytes, All, length,
  length-append, ap, is_empty, String,
}
use ralphdb.Prelude.Int.{ℤ, pos}
use ralphdb.Text.Utf8.{IsAscii, is_utf8, from_utf8, ascii-is_utf8}
use ralphdb.Text.Decimal.{decimal, print_i64, parse_i64}
use ralphdb.Text.Decimal.Laws.{IsDigit, All-decimal, All-print_i64, parse_i64-print_i64}
use ralphdb.Protocol.Reader.{
  byte, Stream, feed, ok, read_until_lf, read_exact, strip_line_ending, read_line_bytes, read_line,
  crlf, drop, take,
}
use ralphdb.Protocol.Decode.{parse_length, read_length, read_payload}

pub feed-append : (xs ys : Bytes) (s : Stream) → feed (xs ++ ys) s ≡ feed xs (feed ys s)
feed-append [] ys s = refl
feed-append (x ∷ xs) ys s = ap (λ t. byte x ∷ t) (feed-append xs ys s)

abbrev pub NotLf : ℕ → Type 0
NotLf b = b ≢ 10

-- A text that can stand in a line: UTF-8 with no line feed.
abbrev pub IsLine : Bytes → Type 0
IsLine text = All NotLf text × (is_utf8 text ≡ true)

read_until_lf-feed :
    (text : Bytes) (s : Stream)
    → All NotLf text
    → read_until_lf (feed (text ++ crlf) s) ≡ (ok (text ++ crlf), s)
unfolding read_until_lf
read_until_lf-feed [] s h = refl
read_until_lf-feed (b ∷ text) s h = ground (arith, read_until_lf-feed text s h.1)

drop-append : (xs ys : Bytes) → drop (length xs) (xs ++ ys) ≡ ys
drop-append [] ys = refl
drop-append (x ∷ xs) ys = drop-append xs ys

take-append : (xs ys : Bytes) → take (length xs) (xs ++ ys) ≡ xs
take-append [] ys = refl
take-append (x ∷ xs) ys = ap (λ t. x ∷ t) (take-append xs ys)

length-line : (text : Bytes) → length (text ++ crlf) - 2 ≡ length text
length-line text = omega (arith, length-append text crlf)

strip_line_ending-crlf :
    (text : Bytes) (s : Stream) → strip_line_ending (text ++ crlf) s ≡ (ok text, s)
unfolding strip_line_ending
strip_line_ending-crlf text s =
    rw (length-line text, drop-append text crlf, take-append text crlf)
      (ground (arith, length-append text crlf))

is_empty-line : (text : Bytes) → is_empty (text ++ crlf) ≡ false
is_empty-line [] = refl
is_empty-line (b ∷ text) = refl

pub read_line_bytes-feed :
    (text : Bytes) (s : Stream)
    → All NotLf text
    → read_line_bytes (feed (text ++ crlf) s) ≡ (ok text, s)
unfolding read_line_bytes
read_line_bytes-feed text s h =
    rw (read_until_lf-feed text s h, is_empty-line text, strip_line_ending-crlf text s)

pub read_line-feed :
    (text : Bytes) (s : Stream) → IsLine text → read_line (feed (text ++ crlf) s) ≡ (ok text, s)
unfolding read_line from_utf8
read_line-feed text s h = rw (read_line_bytes-feed text s h.0, h.1)

digit_NotLf : (c : ℕ) → IsDigit c → NotLf c
digit_NotLf c h = omega arith

digit_IsAscii : (c : ℕ) → IsDigit c → IsAscii c
digit_IsAscii c h = omega arith

pub decimal-IsLine : (n : ℕ) → IsLine (decimal n)
decimal-IsLine n =
    (All-decimal digit_NotLf n, ascii-is_utf8 (decimal n) (All-decimal digit_IsAscii n))

pub print_i64-IsLine : (z : ℤ) → IsLine (print_i64 z)
print_i64-IsLine z = (
  All-print_i64 digit_NotLf (omega arith) z,
  ascii-is_utf8 (print_i64 z) (All-print_i64 digit_IsAscii (omega arith) z),
)

parse_i64-decimal : (n : ℕ) → n < 2 ^ 63 → parse_i64 (decimal n) ≡ some (pos n)
unfolding print_i64
parse_i64-decimal n h = parse_i64-print_i64 (pos n) h

-- A length that was written is read back.
pub read_length-feed :
    (n : ℕ) (s : Stream) → n < 2 ^ 63 → read_length (feed (decimal n ++ crlf) s) ≡ (ok (pos n), s)
unfolding read_length parse_length
read_length-feed n s h = rw (read_line-feed (decimal n) s (decimal-IsLine n), parse_i64-decimal n h)

pub read_exact-feed : (bs : Bytes) (s : Stream) → read_exact (length bs) (feed bs s) ≡ (ok bs, s)
unfolding read_exact
read_exact-feed [] s = refl
read_exact-feed (b ∷ bs) s = rw (read_exact-feed bs s)

-- A payload that was written with its CRLF is read back.
pub read_payload-feed :
    (bs : Bytes) (s : Stream) (message : String)
    → read_payload (length bs) message (feed (bs ++ crlf) s) ≡ (ok bs, s)
unfolding read_payload
read_payload-feed bs s message = rw (feed-append bs crlf s, read_exact-feed bs (feed crlf s))
