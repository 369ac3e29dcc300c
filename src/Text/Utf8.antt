-- ===== src/Text/Utf8.antt =====
-- `str::from_utf8`, `String::from_utf8` and `String::from_utf8_lossy`, as one pass of a state
-- machine over the bytes: the state says which continuation bytes must follow.
use ralphdb.Prelude.{
  ℕ, ◌≡◌, refl, Bool, true, false, ◌&&◌, Option, none, some, [], ◌∷◌, ◌++◌, arith, Bytes, All, ltb,
  leb, if◌then◌else◌, ◌<◌,
}

-- `start` is between characters; `tail1` to `tail3` want that many continuation bytes; the others
-- have a first byte behind them that narrows the next one (E0, ED, F0 and F4).
pub data Utf8State : Type 0 where
  start tail1 tail2 tail3 after_e0 after_ed after_f0 after_f4 : Utf8State

abbrev between : ℕ → ℕ → ℕ → Bool
between lo hi b = leb lo b && leb b hi

pub first_byte : ℕ → Option Utf8State
first_byte b =
    if ltb b 0x80
    then some start
    else if between 0xc2 0xdf b
    then some tail1
    else if leb b 0xdf
    then none
    else if between 0xe0 0xe0 b
    then some after_e0
    else if between 0xed 0xed b
    then some after_ed
    else if between 0xe1 0xef b
    then some tail2
    else if between 0xf0 0xf0 b
    then some after_f0
    else if between 0xf1 0xf3 b
    then some tail3
    else if between 0xf4 0xf4 b
    then some after_f4
    else none

abbrev continue_if : Bool → Utf8State → Option Utf8State
continue_if b s = if b then some s else none

unfoldable pub utf8_step : Utf8State → ℕ → Option Utf8State
unfolding first_byte
utf8_step start b = first_byte b
utf8_step tail1 b = continue_if (between 0x80 0xbf b) start
utf8_step tail2 b = continue_if (between 0x80 0xbf b) tail1
utf8_step tail3 b = continue_if (between 0x80 0xbf b) tail2
utf8_step after_e0 b = continue_if (between 0xa0 0xbf b) tail1
utf8_step after_ed b = continue_if (between 0x80 0x9f b) tail1
utf8_step after_f0 b = continue_if (between 0x90 0xbf b) tail2
utf8_step after_f4 b = continue_if (between 0x80 0x8f b) tail2

-- The bytes end a run of whole characters.
unfoldable pub utf8_from : Option Utf8State → Bytes → Bool
unfolding utf8_step
utf8_from none _ = false
utf8_from (some start) [] = true
utf8_from (some _) [] = false
utf8_from (some s) (b ∷ bs) = utf8_from (utf8_step s b) bs

abbrev pub is_utf8 : Bytes → Bool
is_utf8 bs = utf8_from (some start) bs

-- The text is its bytes, if these are UTF-8.
unfoldable pub from_utf8 : Bytes → Option Bytes
unfolding utf8_from
from_utf8 bs = if is_utf8 bs then some bs else none

-- U+FFFD, which stands for each maximal piece that is no character.
abbrev replacement : Bytes
replacement = 0xef ∷ 0xbf ∷ 0xbd ∷ []

abbrev emit_start : Utf8State → Bytes → Bytes
emit_start start pending = pending
emit_start _ pending = []

abbrev keep_pending : Utf8State → Bytes → Bytes
keep_pending start pending = []
keep_pending _ pending = pending

-- What one byte does: the text given out, the new state, and the bytes of the character begun.
pub record Chunk : Type 0 where
  pub out : Bytes
  pub state : Utf8State
  pub pending : Bytes

abbrev advance : Utf8State → Bytes → Chunk
advance s pending = record {
  out = emit_start s pending;
  state = s;
  pending = keep_pending s pending;
}

abbrev restart : Bytes → Option Utf8State → ℕ → Chunk
restart before none b = record { out = before ++ replacement; state = start; pending = [] }
restart before (some s) b = record {
  out = before ++ emit_start s (b ∷ []);
  state = s;
  pending = keep_pending s (b ∷ []);
}

abbrev lossy_refused : Utf8State → ℕ → Chunk
lossy_refused start b = restart [] none b
lossy_refused _ b = restart replacement (utf8_step start b) b

lossy_byte : Utf8State → Bytes → ℕ → Chunk
unfolding utf8_step
lossy_byte s pending b = elim (utf8_step s b) [
  | some s' ↦ advance s' (pending ++ b ∷ [])
  | none ↦ lossy_refused s b
]

lossy_from : Utf8State → Bytes → Bytes → Bytes
unfolding lossy_byte
lossy_from start pending [] = []
lossy_from _ pending [] = replacement
lossy_from s pending (b ∷ bs) =
    let c : Chunk = lossy_byte s pending b in c.out ++ lossy_from c.state c.pending bs

unfoldable pub from_utf8_lossy : Bytes → Bytes
unfolding lossy_from
from_utf8_lossy bs = lossy_from start [] bs

-- Bytes below 0x80 are ASCII text, which is UTF-8.
abbrev pub IsAscii : ℕ → Type 0
IsAscii b = b < 0x80

pub ascii-is_utf8 : (bs : Bytes) → All IsAscii bs → is_utf8 bs ≡ true
unfolding utf8_from
ascii-is_utf8 [] h = refl
ascii-is_utf8 (b ∷ bs) h = ground (arith, ascii-is_utf8 bs h.1)

two_bytes : is_utf8 (0xc3 ∷ 0xa9 ∷ []) ≡ true
unfolding utf8_from
two_bytes = refl

surrogate : is_utf8 (0xed ∷ 0xa0 ∷ 0x80 ∷ []) ≡ false
unfolding utf8_from
surrogate = refl

lossy_cut :
    from_utf8_lossy (b'a' ∷ 0xe2 ∷ 0x82 ∷ b'b' ∷ 0xff ∷ [])
    ≡ b'a' ∷ (replacement ++ b'b' ∷ replacement)
unfolding from_utf8_lossy
lossy_cut = refl
