-- ===== src/Command/Pattern/Total.antt =====
-- The loop of `matches_pattern` ends within its fuel.
use ralphdb.Prelude.{
  ℕ, zero, suc, ◌+◌, ◌-◌, ◌*◌, ◌≤◌, ◌<◌, ◌≡◌, refl, Bool, true, false, Option, none, some, arith,
  [], ◌∷◌, Bytes, length, ◌==◌, ltb, if◌then◌else◌, ◌&&◌,
}
use ralphdb.Command.Pattern.{
  Matcher, Round, continue, finish, mismatch, match_round, decided, match_loop, match_fuel,
  matches_pattern, get_or, back_to, only_stars,
}

abbrev pub StarBound : Option ℕ → ℕ → Type 0
StarBound none p = Unit
StarBound (some star) p = star < p

-- The indices stay within the texts, and the match of the last star is behind the key's index.
pub record IsGood (pattern key : Bytes) (m : Matcher) : Type 0 where
  pub in_pattern : m.pattern_index ≤ length pattern
  pub in_key : m.key_index ≤ length key
  pub behind : m.star_match_index ≤ m.key_index
  pub star_in : StarBound m.star_index (length pattern)

-- What is left to do: it falls with every round.
abbrev left : Bytes → Bytes → Matcher → ℕ
left pattern key m =
    (length key - m.star_match_index) * suc (length pattern + length key)
    + ((length pattern - m.pattern_index) + (length key - m.key_index))

abbrev pub Falls : Bytes → Bytes → Matcher → Round → Type 0
Falls pattern key m (continue m') =
    IsGood pattern key m' × (left pattern key m' < left pattern key m)
Falls pattern key m _ = Unit

less_by_rest : (a b w x y : ℕ) → a ≤ b → x < y → a * w + x < b * w + y
less_by_rest a b w x y h k = grind arith

less_by_block : (a b w x y : ℕ) → suc a ≤ b → x < w → a * w + x < b * w + y
less_by_block a b w x y h k = grind arith

module _ (pattern key : Bytes) (m : Matcher) (good : IsGood pattern key m) where
  back_to-Falls :
      (star : Option ℕ)
      → StarBound star (length pattern)
      → m.key_index < length key
      → Falls pattern key m (back_to star m)
  back_to-Falls none h lt = tt
  back_to-Falls (some star) h lt = (
    record {
      in_pattern = omega arith;
      in_key = omega (arith, good.behind);
      behind = omega arith;
      star_in = good.star_in;
    },
    less_by_block (length key - (m.star_match_index + 1)) (length key - m.star_match_index)
        (suc (length pattern + length key)) _ _ (omega (arith, good.behind))
        (omega (arith, good.behind)),
  )

  Falls-if :
      (b : Bool) (x y : Round)
      → (b ≡ true → Falls pattern key m x)
      → (b ≡ false → Falls pattern key m y)
      → Falls pattern key m (if b then x else y)
  Falls-if true x y h h' = h refl
  Falls-if false x y h h' = h' refl

  literal-Falls :
      m.pattern_index < length pattern
      → m.key_index < length key
      → Falls pattern key m
          (continue (record m { pattern_index = m.pattern_index + 1; key_index = m.key_index + 1 }))
  literal-Falls p k = (
    record {
      in_pattern = omega arith;
      in_key = omega arith;
      behind = omega (arith, good.behind);
      star_in = good.star_in;
    },
    less_by_rest _ _ (suc (length pattern + length key)) _ _ (omega arith) (omega arith),
  )

  star-Falls :
      m.pattern_index < length pattern
      → m.key_index < length key
      → Falls pattern key m (
          continue (record m {
            star_index = some m.pattern_index;
            pattern_index = m.pattern_index + 1;
            star_match_index = m.key_index;
          }))
  star-Falls p k = (
    record { in_pattern = omega arith; in_key = omega arith; behind = omega arith; star_in = p },
    less_by_rest _ _ (suc (length pattern + length key)) _ _ (omega (arith, good.behind))
        (omega arith),
  )

  pub match_round-Falls : Falls pattern key m (match_round pattern key m)
  unfolding match_round
  match_round-Falls =
      let p = m.pattern_index in
      let here = get_or pattern p in
      Falls-if (ltb m.key_index (length key)) _ _
        (λ k.
          Falls-if (ltb p (length pattern) && here == get_or key m.key_index) _ _
            (λ l. literal-Falls (ground arith) (ground arith))
            (λ _.
              Falls-if (ltb p (length pattern) && here == b'*') _ _
                (λ s. star-Falls (ground arith) (ground arith))
                (λ _. back_to-Falls m.star_index good.star_in (ground arith))))
        (λ _. tt)

pub begin-IsGood :
    (pattern key : Bytes)
    → IsGood pattern key
        (record { pattern_index = 0; key_index = 0; star_index = none; star_match_index = 0 })
begin-IsGood pattern key = record {
  in_pattern = omega arith;
  in_key = omega arith;
  behind = omega arith;
  star_in = tt;
}

match_loop_total :
    (fuel : ℕ) (pattern key : Bytes) (m : Matcher)
    → IsGood pattern key m
    → left pattern key m < fuel
    → (b : Bool) × (match_loop fuel pattern key m ≡ decided b)
unfolding match_loop
match_loop_total zero pattern key m good lt = absurd (omega arith)
match_loop_total (suc fuel) pattern key m good lt =
    after (match_round pattern key m) refl (match_round-Falls pattern key m good)
      (λ m' g l. match_loop_total fuel pattern key m' g l)
  where
    after :
        (r : Round)
        → match_round pattern key m ≡ r
        → Falls pattern key m r
        → ((m' : Matcher)
            → IsGood pattern key m'
            → left pattern key m' < fuel
            → (b : Bool) × (match_loop fuel pattern key m' ≡ decided b))
        → (b : Bool) × (match_loop (suc fuel) pattern key m ≡ decided b)
    after (continue m') e (g, l) rec =
        let (b, p) = rec m' g (omega arith) in (b, rw (e, match_loop) p)
    after (finish i) e h rec = (only_stars i pattern, rw (e, match_loop))
    after mismatch e h rec = (false, rw (e, match_loop))

-- The loop always comes to a decision: the fuel that `matches_pattern` is given suffices for every
-- pattern and every key.
pub matches_pattern_total :
    (pattern key : Bytes) → (b : Bool) × (matches_pattern pattern key ≡ decided b)
unfolding matches_pattern
matches_pattern_total [] key = (false, refl)
matches_pattern_total (c ∷ pattern) key =
    match_loop_total (match_fuel (c ∷ pattern) key) (c ∷ pattern) key _
      (begin-IsGood (c ∷ pattern) key)
      (let whole : length key - 0 ≡ length key = omega arith in rw whole (omega arith))
