-- ===== src/Protocol/Reader.antt =====
-- The `BufRead` that frames are read from: a stream of events, each a byte that arrives or a
-- fault that a read returns (a timeout, say), and the end of the stream behind them. A read gives
-- its outcome and the stream that is left.
use ralphdb.Prelude.{
  ℕ, zero, suc, ◌-◌, Bool, ◌&&◌, Option, none, some, List, [], ◌∷◌, String, Bytes, codes, length,
  is_empty, bytes_eq, leb, ◌==◌, if◌then◌else◌,
}
use ralphdb.Text.Utf8.{from_utf8}
use ralphdb.Protocol.Frame.{IoError, ErrorKind, unexpected_eof, invalid_data}

pub data Event : Type 0 where
  byte : ℕ → Event
  fault : ErrorKind → Event

abbrev pub Stream : Type 0
Stream = List Event

-- Bytes that arrive with no fault between them, and what comes behind them.
abbrev pub feed : Bytes → Stream → Stream
feed [] s = s
feed (b ∷ bs) s = byte b ∷ feed bs s

-- `out_of_fuel` has no counterpart in the program.
pub data Outcome {ℓ} (A : Type ℓ) : Type ℓ where
  ok : A → Outcome A
  err : IoError → Outcome A
  out_of_fuel : Outcome A

abbrev pub Reader {ℓ} : Type ℓ → Type ℓ
Reader A = Stream → Outcome A × Stream

abbrev pub pure {ℓ} : {A : Type ℓ} → A → Reader A
pure a s = (ok a, s)

abbrev pub raise {ℓ} : {A : Type ℓ} → ErrorKind → Bytes → Reader A
raise k message s = (err (record { kind = k; message = message }), s)

abbrev pub fail {ℓ} : {A : Type ℓ} → ErrorKind → String → Reader A
fail k message = raise k (codes message)

module _ {ℓ κ} {A : Type ℓ} {B : Type κ} where
  -- What `?` does with an outcome.
  abbrev pub and_then : Outcome A × Stream → (A → Reader B) → Outcome B × Stream
  and_then (ok a, s) f = f a s
  and_then (err e, s) f = (err e, s)
  and_then (out_of_fuel, s) f = (out_of_fuel, s)

  infixl 5 ◌>>=◌
  abbrev pub ◌>>=◌ : Reader A → (A → Reader B) → Reader B
  ◌>>=◌ m f s = and_then (m s) f

abbrev pub ok_or {ℓ} : {A : Type ℓ} → Option A → String → Reader A
ok_or none message = fail invalid_data message
ok_or (some a) message = pure a

abbrev pub prepend : ℕ → Outcome Bytes × Stream → Outcome Bytes × Stream
prepend b (ok bs, s) = (ok (b ∷ bs), s)
prepend b (err e, s) = (err e, s)
prepend b (out_of_fuel, s) = (out_of_fuel, s)

-- `read_until(b'\n')`: up to and with a line feed, or up to the end of the stream.
unfoldable pub read_until_lf : Reader Bytes
read_until_lf [] = (ok [], [])
read_until_lf (fault k ∷ s) = (err (record { kind = k; message = [] }), s)
read_until_lf (byte b ∷ s) = if b == 10 then (ok (b ∷ []), s) else prepend b (read_until_lf s)

-- `read_exact` into a buffer of `n` bytes; what was read before an error is lost.
unfoldable pub read_exact : ℕ → Reader Bytes
read_exact zero s = (ok [], s)
read_exact (suc n) [] =
    (err (record { kind = unexpected_eof; message = codes "failed to fill whole buffer" }), [])
read_exact (suc n) (fault k ∷ s) = (err (record { kind = k; message = [] }), s)
read_exact (suc n) (byte b ∷ s) = prepend b (read_exact n s)

abbrev pub crlf : Bytes
crlf = 13 ∷ 10 ∷ []

abbrev pub drop {ℓ} : {A : Type ℓ} → ℕ → List A → List A
drop zero xs = xs
drop (suc n) [] = []
drop (suc n) (x ∷ xs) = drop n xs

abbrev pub take {ℓ} : {A : Type ℓ} → ℕ → List A → List A
take zero xs = []
take (suc n) [] = []
take (suc n) (x ∷ xs) = x ∷ take n xs

abbrev pub ends_with : Bytes → Bytes → Bool
ends_with bs tail =
    leb (length tail) (length bs) && bytes_eq (drop (length bs - length tail) bs) tail

-- The line without its line ending.
unfoldable pub strip_line_ending : Bytes → Reader Bytes
strip_line_ending buffer =
    if ends_with buffer crlf
    then pure (take (length buffer - 2) buffer)
    else if ends_with buffer (10 ∷ [])
    then pure (take (length buffer - 1) buffer)
    else fail invalid_data "missing CRLF in frame"

unfoldable pub read_line_bytes : Reader Bytes
unfolding read_until_lf strip_line_ending
read_line_bytes = do
  buffer ← read_until_lf
  if is_empty buffer then fail unexpected_eof "" else strip_line_ending buffer

unfoldable pub read_line : Reader Bytes
unfolding read_line_bytes from_utf8
read_line = do bytes ← read_line_bytes; ok_or (from_utf8 bytes) "invalid UTF-8 in frame"
