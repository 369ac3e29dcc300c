-- ===== src/Text/Ascii.antt =====
-- `to_ascii_uppercase` and `to_ascii_lowercase` on the bytes of a text.
use ralphdb.Prelude.{
  ℕ, ◌+◌, ◌-◌, ◌≡◌, refl, Bool, ◌&&◌, [], ◌∷◌, map, arith, Bytes, codes, leb, if◌then◌else◌,
}

is_upper : ℕ → Bool
is_upper b = leb b'A' b && leb b b'Z'

is_lower : ℕ → Bool
is_lower b = leb b'a' b && leb b b'z'

unfoldable pub upper_byte : ℕ → ℕ
unfolding is_lower
upper_byte b = if is_lower b then b - 32 else b

unfoldable pub lower_byte : ℕ → ℕ
unfolding is_upper
lower_byte b = if is_upper b then b + 32 else b

unfoldable pub to_ascii_uppercase : Bytes → Bytes
unfolding upper_byte
to_ascii_uppercase bs = map upper_byte bs

unfoldable pub to_ascii_lowercase : Bytes → Bytes
unfolding lower_byte
to_ascii_lowercase bs = map lower_byte bs

-- Upper case changes nothing more in an upper-case text.
pub to_ascii_uppercase_idem :
    (bs : Bytes) → to_ascii_uppercase (to_ascii_uppercase bs) ≡ to_ascii_uppercase bs
unfolding to_ascii_uppercase
to_ascii_uppercase_idem [] = refl
to_ascii_uppercase_idem (b ∷ bs) = ground (arith, to_ascii_uppercase_idem bs)

upper_mixed : to_ascii_uppercase (codes "Get-1z") ≡ codes "GET-1Z"
unfolding to_ascii_uppercase
upper_mixed = refl

lower_mixed : to_ascii_lowercase (codes "SerVer") ≡ codes "server"
unfolding to_ascii_lowercase
lower_mixed = refl
