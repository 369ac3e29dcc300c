-- ===== src/Text/Trim.antt =====
-- `str::trim`: white space of Unicode, on the bytes of a text.
use ralphdb.Prelude.{
  ℕ, zero, suc, ◌≡◌, refl, Bool, ◌&&◌, ◌||◌, Option, none, some, [], ◌∷◌, Bytes, codes, length, leb,
  ◌==◌, if◌then◌else◌,
}
use mathlib.Core.List.{reverse}

abbrev ascii_space : ℕ → Bool
ascii_space b = (leb 9 b && leb b 13) || b == 32

-- U+0085 and U+00A0.
abbrev space2 : ℕ → ℕ → Bool
space2 a b = a == 0xc2 && (b == 0x85 || b == 0xa0)

-- U+1680, U+2000 to U+200A, U+2028, U+2029, U+202F, U+205F and U+3000.
abbrev space3 : ℕ → ℕ → ℕ → Bool
space3 a b c =
    (a == 0xe1 && b == 0x9a && c == 0x80)
    || (a == 0xe2
        && b == 0x80
        && ((leb 0x80 c && leb c 0x8a) || c == 0xa8 || c == 0xa9 || c == 0xaf))
    || (a == 0xe2 && b == 0x81 && c == 0x9f)
    || (a == 0xe3 && b == 0x80 && c == 0x80)

-- The text behind one white space at its start, if there is one.
drop_space : Bytes → Option Bytes
drop_space (a ∷ b ∷ c ∷ bs) =
    if ascii_space a
    then some (b ∷ c ∷ bs)
    else if space2 a b
    then some (c ∷ bs)
    else if space3 a b c
    then some bs
    else none
drop_space (a ∷ b ∷ []) =
    if ascii_space a then some (b ∷ []) else if space2 a b then some [] else none
drop_space (a ∷ []) = if ascii_space a then some [] else none
drop_space [] = none

-- The same on a reversed text, whose last character comes first.
drop_space_back : Bytes → Option Bytes
drop_space_back (c ∷ b ∷ a ∷ bs) =
    if ascii_space c
    then some (b ∷ a ∷ bs)
    else if space2 b c
    then some (a ∷ bs)
    else if space3 a b c
    then some bs
    else none
drop_space_back (b ∷ a ∷ []) =
    if ascii_space b then some (a ∷ []) else if space2 a b then some [] else none
drop_space_back (a ∷ []) = if ascii_space a then some [] else none
drop_space_back [] = none

-- Each round drops a byte at least, so the length is fuel enough.
drop_spaces : (Bytes → Option Bytes) → ℕ → Bytes → Bytes
drop_spaces step zero bs = bs
drop_spaces step (suc f) bs = elim (step bs) [ none ↦ bs | some rest ↦ drop_spaces step f rest ]

trim_start : Bytes → Bytes
unfolding drop_spaces drop_space
trim_start bs = drop_spaces drop_space (length bs) bs

trim_end : Bytes → Bytes
unfolding drop_spaces drop_space_back
trim_end bs = reverse (drop_spaces drop_space_back (length bs) (reverse bs))

unfoldable pub trim : Bytes → Bytes
unfolding trim_start trim_end
trim bs = trim_end (trim_start bs)

trim_both : trim (codes "  127.0.0.1 ") ≡ codes "127.0.0.1"
unfolding trim
trim_both = refl
