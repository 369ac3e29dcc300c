-- ===== src/Command/Pattern.antt =====
-- `matches_pattern`: a wildcard match by one loop over two indices, with one point to go back to.
pub mod Total
pub mod Matches
pub mod Search
pub mod Decides
use ralphdb.Prelude.{
  ℕ, zero, suc, ◌+◌, ◌*◌, ◌≡◌, refl, Bool, true, false, ◌&&◌, Option, none, some, [], ◌∷◌, Bytes,
  codes, length, is_empty, ltb, ◌==◌, if◌then◌else◌,
}

-- `bytes[i]`, where the code has tested the bound.
abbrev pub get_or : Bytes → ℕ → ℕ
get_or [] i = 0
get_or (b ∷ bs) zero = b
get_or (b ∷ bs) (suc i) = get_or bs i

-- The variables of the loop.
pub record Matcher : Type 0 where
  pub pattern_index : ℕ
  pub key_index : ℕ
  pub star_index : Option ℕ
  pub star_match_index : ℕ

pub data Round : Type 0 where
  continue : Matcher → Round
  finish : ℕ → Round
  mismatch : Round

-- Back to the last star, which takes one byte more.
abbrev pub back_to : Option ℕ → Matcher → Round
back_to none m = mismatch
back_to (some star) m = continue (record m {
  pattern_index = star + 1;
  star_match_index = m.star_match_index + 1;
  key_index = m.star_match_index + 1;
})

-- A round of the first `while`; when the key is used up, the pattern index goes to the second.
unfoldable pub match_round : Bytes → Bytes → Matcher → Round
match_round pattern key m =
    if ltb m.key_index (length key)
    then (if ltb m.pattern_index (length pattern)
          && get_or pattern m.pattern_index == get_or key m.key_index
        then continue
            (record m { pattern_index = m.pattern_index + 1; key_index = m.key_index + 1 })
        else if ltb m.pattern_index (length pattern) && get_or pattern m.pattern_index == b'*'
        then continue (record m {
          star_index = some m.pattern_index;
          pattern_index = m.pattern_index + 1;
          star_match_index = m.key_index;
        })
        else back_to m.star_index m)
    else finish m.pattern_index

pub data Verdict : Type 0 where
  decided : Bool → Verdict
  out_of_fuel : Verdict

-- The second `while`, on the rest of the pattern: nothing but stars.
unfoldable pub only_stars : ℕ → Bytes → Bool
only_stars zero [] = true
only_stars zero (b ∷ bs) = b == b'*' && only_stars zero bs
only_stars (suc i) [] = false
only_stars (suc i) (b ∷ bs) = only_stars i bs

unfoldable pub match_loop : ℕ → Bytes → Bytes → Matcher → Verdict
unfolding match_round only_stars
match_loop zero pattern key m = out_of_fuel
match_loop (suc fuel) pattern key m = elim (match_round pattern key m) [
  | continue m' ↦ match_loop fuel pattern key m'
  | finish i ↦ decided (only_stars i pattern)
  | mismatch ↦ decided false
]

-- A number above the rounds that the loop can make.
abbrev pub match_fuel : Bytes → Bytes → ℕ
match_fuel pattern key =
    suc (length key * suc (length pattern + length key) + (length pattern + length key))

unfoldable pub matches_pattern : Bytes → Bytes → Verdict
unfolding match_loop
matches_pattern pattern key =
    if is_empty pattern
    then decided false
    else match_loop (match_fuel pattern key) pattern key
        (record { pattern_index = 0; key_index = 0; star_index = none; star_match_index = 0 })

multiple_wildcards :
    (matches_pattern (codes "s*r.*ion") (codes "server.version") ≡ decided true)
    × (matches_pattern (codes "s*r.*ion") (codes "server.port") ≡ decided false)
unfolding matches_pattern
multiple_wildcards = (refl, refl)
