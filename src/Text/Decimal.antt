-- ===== src/Text/Decimal.antt =====
-- Decimal numbers as the standard library prints and parses them: `to_string` and `from_str` of
-- `i64`, `u8`, `u16` and `usize`.
pub mod Laws
use ralphdb.Prelude.{
  ℕ, suc, zero, ◌+◌, ◌-◌, ◌*◌, ◌/◌, ◌%◌, ◌^◌, ◌≡◌, refl, Bool, ◌&&◌, Option, none, some, [], ◌∷◌,
  ◌++◌, Bytes, codes, ltb, leb, ◌==◌, if◌then◌else◌,
}
use ralphdb.Prelude.Int.{ℤ, pos, negsuc, in_i64}

-- The digits of `n`; the fuel is above the number of digits, as each round divides by ten.
unfoldable pub digits : ℕ → ℕ → Bytes
digits zero n = []
digits (suc f) n =
    let front = digits f (n / 10) in
    let last = (b'0' + n % 10) ∷ [] in if ltb n 10 then last else front ++ last

unfoldable pub decimal : ℕ → Bytes
unfolding digits
decimal n = digits (suc n) n

-- `i64::to_string`, also what `{}` prints.
unfoldable pub print_i64 : ℤ → Bytes
unfolding decimal
print_i64 (pos n) = decimal n
print_i64 (negsuc n) = b'-' ∷ decimal (suc n)

abbrev pub is_digit : ℕ → Bool
is_digit c = leb b'0' c && leb c b'9'

-- The number that digits spell behind `acc`, exactly.
unfoldable pub digits_value : ℕ → Bytes → Option ℕ
digits_value acc [] = some acc
digits_value acc (c ∷ cs) = if is_digit c then digits_value (acc * 10 + (c - b'0')) cs else none

-- One digit at least.
unfoldable pub parse_digits : Bytes → Option ℕ
unfolding digits_value
parse_digits [] = none
parse_digits (c ∷ cs) = digits_value 0 (c ∷ cs)

abbrev pub keep_if {ℓ} : {A : Type ℓ} → (A → Bool) → Option A → Option A
keep_if test none = none
keep_if test (some a) = if test a then some a else none

abbrev pub negate : ℕ → ℤ
negate zero = pos 0
negate (suc n) = negsuc n

abbrev pub map_option {ℓ κ} : {A : Type ℓ} {B : Type κ} → (A → B) → Option A → Option B
map_option f none = none
map_option f (some a) = some (f a)

-- `i64::from_str`: an optional sign, digits, and a value in range.
unfoldable pub parse_i64 : Bytes → Option ℤ
unfolding parse_digits
parse_i64 [] = none
parse_i64 (c ∷ cs) =
    if c == b'-'
    then keep_if in_i64 (map_option negate (parse_digits cs))
    else if c == b'+'
    then keep_if in_i64 (map_option pos (parse_digits cs))
    else keep_if in_i64 (map_option pos (parse_digits (c ∷ cs)))

-- `from_str` of an unsigned type whose values lie below `limit`: no minus sign.
unfoldable pub parse_unsigned : ℕ → Bytes → Option ℕ
unfolding parse_digits
parse_unsigned limit [] = none
parse_unsigned limit (c ∷ cs) =
    if c == b'+'
    then keep_if (λ n. ltb n limit) (parse_digits cs)
    else keep_if (λ n. ltb n limit) (parse_digits (c ∷ cs))

print_min : print_i64 (negsuc (2 ^ 63 - 1)) ≡ codes "-9223372036854775808"
unfolding print_i64
print_min = refl

parse_min : parse_i64 (codes "-9223372036854775808") ≡ some (negsuc (2 ^ 63 - 1))
unfolding parse_i64
parse_min = refl

parse_too_big : parse_i64 (codes "9223372036854775808") ≡ none
unfolding parse_i64
parse_too_big = refl

parse_signs : (parse_i64 (codes "+7") ≡ some (pos 7)) × (parse_i64 (codes "-") ≡ none)
unfolding parse_i64
parse_signs = (refl, refl)

parse_u16 :
    (parse_unsigned (2 ^ 16) (codes "06379") ≡ some 6379)
    × (parse_unsigned (2 ^ 16) (codes "65536") ≡ none)
unfolding parse_unsigned
parse_u16 = (refl, refl)
