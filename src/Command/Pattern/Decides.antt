-- ===== src/Command/Pattern/Decides.antt =====
-- The loop of `matches_pattern` decides whether the key matches, where the key has no star.
use ralphdb.Prelude.{
  ℕ, zero, suc, ◌+◌, ◌≤◌, ◌<◌, ◌≡◌, ◌≢◌, ◌↔◌, ◌⊎◌, inl, inr, refl, sym, subst, Bool, true, false,
  Option, none, some, arith, [], ◌∷◌, Bytes, All, length, ◌==◌, ltb, if◌then◌else◌, ◌&&◌,
}
use ralphdb.Protocol.Reader.{drop}
use ralphdb.Command.Pattern.{
  Matcher, Round, continue, finish, mismatch, match_round, decided, match_loop, matches_pattern,
  match_fuel, get_or, back_to, only_stars,
}
use ralphdb.Command.Pattern.Total.{
  IsGood, begin-IsGood, Falls, match_round-Falls, matches_pattern_total,
}
use ralphdb.Command.Pattern.Matches.{Matches, nothing, empty_run, head_cases, no_pattern, end_inv}
use ralphdb.Command.Pattern.Search.{
  Sound, literal-Sound, star-Sound, again-Sound, Sound-fails, Sound-ends,
}

abbrev pub NotStar : ℕ → Type 0
NotStar b = b ≢ b'*'

drop-get_or : (i : ℕ) (bs : Bytes) → i < length bs → drop i bs ≡ get_or bs i ∷ drop (i + 1) bs
drop-get_or i [] h = absurd (omega arith)
drop-get_or zero (b ∷ bs) h = refl
drop-get_or (suc i) (b ∷ bs) h =
    let e : suc i + 1 ≡ suc (i + 1) = omega arith in rw e (drop-get_or i bs (omega arith))

drop-cases : (i : ℕ) (bs : Bytes) → (i < length bs) ⊎ (drop i bs ≡ [])
drop-cases zero [] = inr refl
drop-cases (suc i) [] = inr refl
drop-cases zero (b ∷ bs) = inl (omega arith)
drop-cases (suc i) (b ∷ bs) = elim (drop-cases i bs) [ inl h ↦ inl (omega arith) | inr e ↦ inr e ]

get_or-NotStar : (i : ℕ) (bs : Bytes) → All NotStar bs → i < length bs → NotStar (get_or bs i)
get_or-NotStar i [] h lt = absurd (omega arith)
get_or-NotStar zero (b ∷ bs) h lt = h.0
get_or-NotStar (suc i) (b ∷ bs) h lt = get_or-NotStar i bs h.1 (omega arith)

only_stars_iff :
    (i : ℕ) (bs : Bytes) → i ≤ length bs → (only_stars i bs ≡ true) ↔ Matches (drop i bs) []
unfolding only_stars
only_stars_iff zero [] h = (λ _. nothing, λ _. refl)
only_stars_iff zero (b ∷ bs) h =
    let rest = only_stars_iff zero bs (omega arith) in
    (
      λ e. empty_run (ground arith) (rest.0 (ground arith)),
      λ m. let (star, m') = end_inv m in let more = rest.1 m' in ground arith,
    )
only_stars_iff (suc i) [] h = absurd (omega arith)
only_stars_iff (suc i) (b ∷ bs) h = only_stars_iff i bs (omega arith)

module _ (pattern key : Bytes) where
  abbrev saved_texts : Option ℕ → ℕ → Option (Bytes × Bytes)
  saved_texts none i = none
  saved_texts (some star) i = some (drop (star + 1) pattern, drop i key)

  abbrev At : Matcher → Type 0
  At m =
      Sound (Matches pattern key) (drop m.pattern_index pattern) (drop m.key_index key)
        (saved_texts m.star_index m.star_match_index)

  -- A round keeps it, and a round that ends the loop has the answer.
  abbrev Answers : Round → Type 0
  Answers (continue m) = At m
  Answers (finish i) = (only_stars i pattern ≡ true) ↔ Matches pattern key
  Answers mismatch = ¬ Matches pattern key

  module _ (no_star : All NotStar key) (m : Matcher) (good : IsGood pattern key m) (at : At m) where
    Answers-if :
        (b : Bool) (x y : Round)
        → (b ≡ true → Answers x)
        → (b ≡ false → Answers y)
        → Answers (if b then x else y)
    Answers-if true x y h h' = h refl
    Answers-if false x y h h' = h' refl

    literal-Answers :
        m.pattern_index < length pattern
        → m.key_index < length key
        → get_or pattern m.pattern_index ≡ get_or key m.key_index
        → Answers (
            continue
              (record m { pattern_index = m.pattern_index + 1; key_index = m.key_index + 1 }))
    literal-Answers p k e = literal-Sound _ (get_or-NotStar m.key_index key no_star k) moved
      where
        moved :
            Sound
              (Matches pattern key)
              (get_or key m.key_index ∷ drop (m.pattern_index + 1) pattern)
              (get_or key m.key_index ∷ drop (m.key_index + 1) key)
              (saved_texts m.star_index m.star_match_index)
        moved =
            rw
              (
                sym (drop-get_or m.key_index key k),
                sym e,
                sym (drop-get_or m.pattern_index pattern p),
              )
              at

    star-Answers :
        m.pattern_index < length pattern
        → get_or pattern m.pattern_index ≡ b'*'
        → Answers (
            continue (record m {
              star_index = some m.pattern_index;
              pattern_index = m.pattern_index + 1;
              star_match_index = m.key_index;
            }))
    star-Answers p e = star-Sound e (
        subst
          (λ t.
            Sound (Matches pattern key) t (drop m.key_index key)
              (saved_texts m.star_index m.star_match_index))
          (drop-get_or m.pattern_index pattern p) at)

    -- Where neither of the first two conditions holds, what is left does not match.
    no_match :
        m.key_index < length key
        → (ltb m.pattern_index (length pattern)
            && get_or pattern m.pattern_index == get_or key m.key_index)
          ≡ false
        → (ltb m.pattern_index (length pattern) && get_or pattern m.pattern_index == b'*') ≡ false
        → ¬ Matches (drop m.pattern_index pattern) (drop m.key_index key)
    no_match k l s t =
        let rest = get_or key m.key_index ∷ drop (m.key_index + 1) key in
        let t' = subst (Matches (drop m.pattern_index pattern)) (drop-get_or m.key_index key k) t in
        elim (drop-cases m.pattern_index pattern) [
          | inl p ↦
              elim (head_cases
                (subst (λ u. Matches u rest) (drop-get_or m.pattern_index pattern p) t')) [
                  | inl e ↦ ground arith
                  | inr e ↦ ground arith
                ]
          | inr e ↦ no_pattern (subst (λ u. Matches u rest) e t')
        ]

    back_to-Answers :
        (star : Option ℕ)
        → m.star_index ≡ star
        → m.key_index < length key
        → ¬ Matches (drop m.pattern_index pattern) (drop m.key_index key)
        → Sound
            (Matches pattern key)
            (drop m.pattern_index pattern)
            (drop m.key_index key)
            (saved_texts star m.star_match_index)
        → Answers (back_to star m)
    back_to-Answers none e k n h = Sound-fails n h
    back_to-Answers (some star) e k n h = rw e (
        again-Sound n (
          subst
            (λ t.
              Sound (Matches pattern key) (drop m.pattern_index pattern) (drop m.key_index key)
                (some (drop (star + 1) pattern, t)))
            (drop-get_or m.star_match_index key (omega (arith, good.behind))) h))

    finish-Answers : length key ≤ m.key_index → Answers (finish m.pattern_index)
    finish-Answers h =
        let stars = only_stars_iff m.pattern_index pattern good.in_pattern in
        elim (drop-cases m.key_index key) [
          | inl k ↦ absurd (omega arith)
          | inr e ↦
              let ends = Sound-ends (
                subst
                  (λ t.
                    Sound (Matches pattern key) (drop m.pattern_index pattern) t
                      (saved_texts m.star_index m.star_match_index))
                  e at) in
              (λ t. ends.1 (stars.0 t), λ w. stars.1 (ends.0 w))
        ]

    match_round-Answers : Answers (match_round pattern key m)
    unfolding match_round
    match_round-Answers =
        Answers-if (ltb m.key_index (length key)) _ _
          (λ k.
            Answers-if _ _ _ (λ l. literal-Answers (ground arith) (ground arith) (ground arith))
              (λ l.
                Answers-if _ _ _ (λ s. star-Answers (ground arith) (ground arith))
                  (λ s.
                    back_to-Answers m.star_index refl (ground arith) (no_match (ground arith) l s)
                      at)))
          (λ k. finish-Answers (ground arith))

match_loop-decides :
    (fuel : ℕ) (pattern key : Bytes) (m : Matcher) (b : Bool)
    → All NotStar key
    → IsGood pattern key m
    → At pattern key m
    → match_loop fuel pattern key m ≡ decided b
    → (b ≡ true) ↔ Matches pattern key
unfolding match_loop
match_loop-decides zero pattern key m b h good at e = absurd (ground arith)
match_loop-decides (suc fuel) pattern key m b h good at e =
    after (match_round pattern key m) refl (match_round-Falls pattern key m good)
      (match_round-Answers pattern key h m good at)
      (λ m' g a e'. match_loop-decides fuel pattern key m' b h g a e')
  where
    after :
        (r : Round)
        → match_round pattern key m ≡ r
        → Falls pattern key m r
        → Answers pattern key r
        → ((m' : Matcher)
            → IsGood pattern key m'
            → At pattern key m'
            → match_loop fuel pattern key m' ≡ decided b
            → (b ≡ true) ↔ Matches pattern key)
        → (b ≡ true) ↔ Matches pattern key
    after (continue m') q (g, l) a rec = rec m' g a (rw (q, match_loop) at e)
    after (finish i) q f a rec =
        let e' : decided (only_stars i pattern) ≡ decided b = rw (q, match_loop) at e in
        let e'' : only_stars i pattern ≡ b = cc in
        subst (λ x. (x ≡ true) ↔ Matches pattern key) e'' a
    after mismatch q f a rec =
        let e' : decided false ≡ decided b = rw (q, match_loop) at e in
        let e'' : false ≡ b = cc in (λ t. absurd (ground arith), λ w. absurd (a w))

-- The matcher always answers, and on a key with no star the answer is whether the pattern has a
-- byte and the key is what it describes: a star stands for any run of bytes, every other byte for
-- itself.
pub matches_pattern_iff :
    (pattern key : Bytes)
    → All NotStar key
    → (b : Bool) × (matches_pattern pattern key ≡ decided b)
      × ((b ≡ true) ↔ ((pattern ≢ []) × Matches pattern key))
unfolding matches_pattern
matches_pattern_iff [] key h = (false, refl, (λ t. absurd (ground arith), λ w. absurd (w.0 refl)))
matches_pattern_iff (c ∷ pattern) key h =
    let (b, e) = matches_pattern_total (c ∷ pattern) key in
    let answer =
      match_loop-decides (match_fuel (c ∷ pattern) key) (c ∷ pattern) key _ b h
        (begin-IsGood (c ∷ pattern) key)
        (record { enough = λ m. m; ahead = λ w. empty_run refl w; kept = λ w. w }) e in
    (b, e, (λ t. (λ q. absurd (ground arith), answer.0 t), λ w. answer.1 w.1))
