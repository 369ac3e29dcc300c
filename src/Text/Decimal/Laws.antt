-- ===== src/Text/Decimal/Laws.antt =====
-- Printed numbers are ASCII digits and are read back exactly; parsed numbers are in range.
use ralphdb.Prelude.{
  ℕ, zero, suc, ◌+◌, ◌-◌, ◌*◌, ◌/◌, ◌%◌, ◌≤◌, ◌<◌, ◌≡◌, refl, ◌≢◌, Option, none, some, [], ◌∷◌,
  ◌++◌, arith, Bytes, All, All-append, Bool, true, List, ◌∙◌,
}
use ralphdb.Prelude.Int.{ℤ, pos, negsuc, InI64, in_i64, in_i64-InI64}
use ralphdb.Text.Decimal.{
  digits, decimal, print_i64, digits_value, parse_digits, parse_i64, parse_unsigned, keep_if,
  map_option, negate,
}

abbrev pub IsDigit : ℕ → Type 0
IsDigit c = (b'0' ≤ c) × (c ≤ b'9')

digits-IsDigit : (f n : ℕ) → All IsDigit (digits f n)
unfolding digits
digits-IsDigit zero n = tt
digits-IsDigit (suc f) n =
    let front = digits-IsDigit f (n / 10) in
    ground (arith, All-append IsDigit (digits f (n / 10)) ((b'0' + n % 10) ∷ []) front)

pub decimal-IsDigit : (n : ℕ) → All IsDigit (decimal n)
unfolding decimal
decimal-IsDigit n = digits-IsDigit (suc n) n

digits_value-append :
    (acc : ℕ) (cs : Bytes) (c v : ℕ)
    → digits_value acc cs ≡ some v
    → IsDigit c
    → digits_value acc (cs ++ c ∷ []) ≡ some (v * 10 + (c - b'0'))
unfolding digits_value
digits_value-append acc [] c v h d = ground arith
digits_value-append acc (x ∷ cs) c v h d =
    ground (arith, digits_value-append (acc * 10 + (x - b'0')) cs c v)

digits_value-digits : (f n : ℕ) → n < f → digits_value 0 (digits f n) ≡ some n
unfolding digits digits_value
digits_value-digits zero n h = absurd (omega arith)
digits_value-digits (suc f) n h = ground (
  arith,
  digits_value-append 0 (digits f (n / 10)) (b'0' + n % 10) (n / 10),
  digits_value-digits f (n / 10),
)

pub digits_value-decimal : (n : ℕ) → digits_value 0 (decimal n) ≡ some n
unfolding decimal
digits_value-decimal n = digits_value-digits (suc n) n (omega arith)

append-ne-nil {ℓ} : {A : Type ℓ} (xs : List A) (y : A) → xs ++ y ∷ [] ≢ []
append-ne-nil [] y = cc
append-ne-nil (x ∷ xs) y = cc

decimal-ne-nil : (n : ℕ) → decimal n ≢ []
unfolding decimal digits
decimal-ne-nil n = ground (arith, append-ne-nil (digits n (n / 10)) (b'0' + n % 10))

parse_digits_lem : (bs : Bytes) → bs ≢ [] → parse_digits bs ≡ digits_value 0 bs
unfolding parse_digits
parse_digits_lem [] h = absurd (h refl)
parse_digits_lem (b ∷ bs) h = refl

pub parse_digits-decimal : (n : ℕ) → parse_digits (decimal n) ≡ some n
parse_digits-decimal n = parse_digits_lem (decimal n) (decimal-ne-nil n) ∙ digits_value-decimal n

parse_i64_unsigned :
    (bs : Bytes)
    → All IsDigit bs
    → bs ≢ []
    → parse_i64 bs ≡ keep_if in_i64 (map_option pos (parse_digits bs))
unfolding parse_i64
parse_i64_unsigned [] d h = absurd (h refl)
parse_i64_unsigned (b ∷ bs) d h = ground arith

-- Every `i64` is read back from its print.
pub parse_i64-print_i64 : (z : ℤ) → InI64 z → parse_i64 (print_i64 z) ≡ some z
unfolding print_i64 parse_i64
parse_i64-print_i64 (pos n) h =
    parse_i64_unsigned (decimal n) (decimal-IsDigit n) (decimal-ne-nil n)
    ∙ rw parse_digits-decimal (ground arith)
parse_i64-print_i64 (negsuc n) h = rw parse_digits-decimal (ground arith)

keep_if-eq-some {ℓ} :
    {A : Type ℓ} (test : A → Bool) (o : Option A) {a : A} → keep_if test o ≡ some a → test a ≡ true
keep_if-eq-some test none h = cc
keep_if-eq-some test (some b) h = ground arith

-- A parsed `i64` is in range.
pub parse_i64-InI64 : (bs : Bytes) (z : ℤ) → parse_i64 bs ≡ some z → InI64 z
unfolding parse_i64
parse_i64-InI64 [] z h = cc
parse_i64-InI64 (c ∷ cs) z h = in_i64-InI64 z (
    ground (
      arith,
      keep_if-eq-some in_i64 (map_option negate (parse_digits cs)) {a = z},
      keep_if-eq-some in_i64 (map_option pos (parse_digits cs)) {a = z},
      keep_if-eq-some in_i64 (map_option pos (parse_digits (c ∷ cs))) {a = z},
    ))

-- What is read of an unsigned type lies below its limit.
pub parse_unsigned-lt :
    (limit : ℕ) (bs : Bytes) (n : ℕ) → parse_unsigned limit bs ≡ some n → n < limit
unfolding parse_unsigned
parse_unsigned-lt limit [] n h = cc
parse_unsigned-lt limit (c ∷ cs) n h = ground arith

-- Digits are no line feed, and are ASCII.
module _ {P : ℕ → Type 0} (P_digit : (c : ℕ) → IsDigit c → P c) where
  All-digits : (bs : Bytes) → All IsDigit bs → All P bs
  All-digits [] h = tt
  All-digits (b ∷ bs) (d, h) = (P_digit b d, All-digits bs h)

pub All-decimal : {P : ℕ → Type 0} → ((c : ℕ) → IsDigit c → P c) → (n : ℕ) → All P (decimal n)
All-decimal P_digit n = All-digits P_digit (decimal n) (decimal-IsDigit n)

pub All-print_i64 :
    {P : ℕ → Type 0} → ((c : ℕ) → IsDigit c → P c) → P b'-' → (z : ℤ) → All P (print_i64 z)
unfolding print_i64
All-print_i64 P_digit minus (pos n) = All-decimal P_digit n
All-print_i64 P_digit minus (negsuc n) = (minus, All-decimal P_digit (suc n))
