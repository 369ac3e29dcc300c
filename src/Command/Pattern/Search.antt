-- ===== src/Command/Pattern/Search.antt =====
-- What the loop of `matches_pattern` knows of the texts it has left, the last star's included.
use ralphdb.Prelude.{ℕ, ◌≡◌, ◌≢◌, ◌↔◌, refl, subst, Option, none, some, ◌∷◌, [], Bytes}
use ralphdb.Command.Pattern.Matches.{
  Matches, itself, literal_inv, end_inv, empty_run, longer_run, shorter_run, joined_runs, run_past,
}

-- The texts behind the last star: the pattern's, and the key's from the end of the star's run.
abbrev Kept : Type 0 → Bytes → Bytes → Option (Bytes × Bytes) → Type 0
Kept whole p s none = whole → Matches p s
Kept whole p s (some (behind, rest)) =
    (whole ↔ Matches (b'*' ∷ behind) rest) × (Matches behind rest → Matches p s)

-- `whole` says that the key matches the pattern; `p` and `s` are what is left of the two.
pub record Sound (whole : Type 0) (p s : Bytes) (back : Option (Bytes × Bytes)) : Type 0 where
  pub enough : Matches p s → whole
  pub ahead : whole → Matches (b'*' ∷ p) s
  pub kept : Kept whole p s back

module _ {whole : Type 0} where
  pub literal-Sound :
      {d : ℕ} {p s : Bytes} (back : Option (Bytes × Bytes))
      → d ≢ b'*'
      → Sound whole (d ∷ p) (d ∷ s) back
      → Sound whole p s back
  literal-Sound {d} {p} {s} back h k = record {
    enough = λ m. k.enough (itself h m);
    ahead = λ w. run_past h (k.ahead w);
    kept = behind_literal back k.kept;
  }
    where
      behind_literal :
          (back : Option (Bytes × Bytes)) → Kept whole (d ∷ p) (d ∷ s) back → Kept whole p s back
      behind_literal none f = λ w. (literal_inv h (f w)).1
      behind_literal (some (_, _)) (i, f) = (i, λ m. (literal_inv h (f m)).1)

  -- The key matches exactly when a star before `p` matches what is left: the state at a star.
  at_star-Sound : {p s : Bytes} → whole ↔ Matches (b'*' ∷ p) s → Sound whole p s (some (p, s))
  at_star-Sound i = record { enough = λ m. i.1 (empty_run refl m); ahead = i.0; kept = (i, λ m. m) }

  pub star-Sound :
      {star : ℕ} {p s : Bytes} {back : Option (Bytes × Bytes)}
      → star ≡ b'*'
      → Sound whole (star ∷ p) s back
      → Sound whole p s (some (p, s))
  star-Sound {star} {p} {s} e k =
      at_star-Sound
        (λ w. subst (λ c. Matches (c ∷ p) s) e (joined_runs e (k.ahead w)), λ m. k.enough (rw e m))

  pub again-Sound :
      {c : ℕ} {p s behind rest : Bytes}
      → ¬ Matches p s
      → Sound whole p s (some (behind, c ∷ rest))
      → Sound whole behind rest (some (behind, rest))
  again-Sound n k = at_star-Sound (
    λ w. shorter_run refl (λ m. n (k.kept.1 m)) (k.kept.0.0 w),
    λ m. k.kept.0.1 (longer_run refl m),
  )

  pub Sound-fails : {p s : Bytes} → ¬ Matches p s → Sound whole p s none → ¬ whole
  Sound-fails n k w = n (k.kept w)

  pub Sound-ends :
      {p : Bytes} {back : Option (Bytes × Bytes)} → Sound whole p [] back → whole ↔ Matches p []
  Sound-ends k = (λ w. (end_inv (k.ahead w)).1, k.enough)
