-- ===== src/Protocol/Consume/Lines.antt =====
-- What is read as a line is UTF-8 with no line feed.
use ralphdb.Prelude.{
  ℕ, zero, suc, ◌-◌, ◌<◌, ◌≡◌, false, some, [], ◌∷◌, arith, Bytes, All, length, is_empty, ◌==◌,
  Bool-cases, inl, inr,
}
use ralphdb.Text.Utf8.{from_utf8}
use ralphdb.Protocol.Reader.{
  byte, fault, Stream, read_until_lf, strip_line_ending, read_line_bytes, read_line, take,
  ends_with, crlf,
}
use ralphdb.Protocol.Lines.{NotLf, IsLine}
use ralphdb.Protocol.Consume.{
  Holds, Consumes, Holds-weaken, Holds-prepend, Consumes-pure, Consumes-raise, Consumes-if,
  Consumes-bind, Consumes-ok_or,
}

-- Only the last byte may be a line feed.
abbrev LfLast : Bytes → Type 0
LfLast [] = Unit
LfLast (b ∷ []) = Unit
LfLast (b ∷ c ∷ bs) = NotLf b × LfLast (c ∷ bs)

LfLast-cons : (b : ℕ) → NotLf b → (bs : Bytes) → LfLast bs → LfLast (b ∷ bs)
LfLast-cons b h [] _ = tt
LfLast-cons b h (c ∷ bs) p = (h, p)

take-LfLast : (bs : Bytes) (k : ℕ) → LfLast bs → k < length bs → All NotLf (take k bs)
take-LfLast bs zero p h = tt
take-LfLast [] (suc k) p h = tt
take-LfLast (b ∷ []) (suc k) p h = absurd (omega arith)
take-LfLast (b ∷ c ∷ bs) (suc k) (q, p) h = (q, take-LfLast (c ∷ bs) k p (omega arith))

read_until_lf-Holds : (s : Stream) → Holds LfLast (length s) (read_until_lf s)
unfolding read_until_lf
read_until_lf-Holds [] = (tt, omega arith)
read_until_lf-Holds (fault e ∷ s) = omega arith
read_until_lf-Holds (byte b ∷ s) = elim (Bool-cases (b == 10)) [
  | inl lf ↦ rw lf (tt, omega arith)
  | inr other ↦ rw other (
      Holds-prepend LfLast LfLast (length s) (suc (length s)) b (read_until_lf s) (omega arith)
        (LfLast-cons b (ground arith)) (read_until_lf-Holds s))
]

read_until_lf-Consumes : (f : ℕ) → Consumes f LfLast read_until_lf
read_until_lf-Consumes f = record {
  at = λ n s _ le. Holds-weaken LfLast (length s) n (read_until_lf s) le (read_until_lf-Holds s);
}

strip_line_ending-Consumes :
    (f : ℕ) (buffer : Bytes)
    → is_empty buffer ≡ false
    → LfLast buffer
    → Consumes f (All NotLf) (strip_line_ending buffer)
unfolding strip_line_ending
strip_line_ending-Consumes f [] h p = cc
strip_line_ending-Consumes f (b ∷ bs) h p =
    Consumes-if f (ends_with (b ∷ bs) crlf) _ _
      (λ _. Consumes-pure f _ (take-LfLast (b ∷ bs) (length (b ∷ bs) - 2) p (omega arith)))
      (λ _.
        Consumes-if f (ends_with (b ∷ bs) (10 ∷ [])) _ _
          (λ _. Consumes-pure f _ (take-LfLast (b ∷ bs) (length (b ∷ bs) - 1) p (omega arith)))
          (λ _. Consumes-raise f _ _))

pub read_line_bytes-Consumes : (f : ℕ) → Consumes f (All NotLf) read_line_bytes
unfolding read_line_bytes
read_line_bytes-Consumes f = Consumes-bind f _ _ (read_until_lf-Consumes f) λ buffer p.
    Consumes-if f (is_empty buffer) _ _ (λ _. Consumes-raise f _ _)
      (λ h. strip_line_ending-Consumes f buffer h p)

from_utf8-IsLine : (bs text : Bytes) → All NotLf bs → from_utf8 bs ≡ some text → IsLine text
unfolding from_utf8
from_utf8-IsLine bs text p h = ground arith

pub read_line-Consumes : (f : ℕ) → Consumes f IsLine read_line
unfolding read_line
read_line-Consumes f =
    Consumes-bind f _ _ (read_line_bytes-Consumes f)
      λ bytes p. Consumes-ok_or f (from_utf8 bytes) _ (λ text h. from_utf8-IsLine bytes text p h)
