-- ===== src/Command/Pattern/Matches.antt =====
-- What it means that a key matches a pattern, with no indices and no order of search in it.
use ralphdb.Prelude.{
  ℕ, ◌≡◌, ◌≢◌, ◌⊎◌, inl, inr, refl, ap, [], ◌∷◌, ◌++◌, append_assoc, Bytes, arith,
}

-- A star stands for a run of bytes, which may be empty, and every other byte for itself.
pub data Matches : Bytes → Bytes → Type 0 where
  nothing : Matches [] []
  itself : {c : ℕ} {p s : Bytes} → c ≢ b'*' → Matches p s → Matches (c ∷ p) (c ∷ s)
  any_run :
      {star : ℕ} {p s : Bytes}
      → star ≡ b'*'
      → (run rest : Bytes) → s ≡ run ++ rest
      → Matches p rest
      → Matches (star ∷ p) s

pub literal_inv :
    {d c : ℕ} {p s : Bytes} → d ≢ b'*' → Matches (d ∷ p) (c ∷ s) → (d ≡ c) × Matches p s
literal_inv h (itself _ m) = (refl, m)
literal_inv h (any_run e _ _ _ _) = absurd (h e)

pub head_cases : {d c : ℕ} {p s : Bytes} → Matches (d ∷ p) (c ∷ s) → (d ≡ c) ⊎ (d ≡ b'*')
head_cases (itself _ m) = inl refl
head_cases (any_run e _ _ _ _) = inr e

pub no_pattern : {c : ℕ} {s : Bytes} → ¬ Matches [] (c ∷ s)
no_pattern m = elim m [ ]

-- Against the empty key: the head is a star, whose run is empty.
pub end_inv : {d : ℕ} {p : Bytes} → Matches (d ∷ p) [] → (d ≡ b'*') × Matches p []
end_inv (any_run e [] rest q m) = (e, rw q m)
end_inv (any_run e (x ∷ run) rest q m) = absurd (ground arith)

pub empty_run : {star : ℕ} {p s : Bytes} → star ≡ b'*' → Matches p s → Matches (star ∷ p) s
empty_run {star} {p} {s} e m = any_run e [] s refl m

pub longer_run :
    {star c : ℕ} {p s : Bytes} → star ≡ b'*' → Matches (star ∷ p) s → Matches (star ∷ p) (c ∷ s)
longer_run e (itself k m) = absurd (k e)
longer_run {star} {c} e (any_run _ run rest q m) = any_run e (c ∷ run) rest (ap (λ t. c ∷ t) q) m

-- Where the pattern behind a star does not match here, the star's run has this byte.
pub shorter_run :
    {star c : ℕ} {p s : Bytes}
    → star ≡ b'*'
    → ¬ Matches p (c ∷ s)
    → Matches (star ∷ p) (c ∷ s)
    → Matches (star ∷ p) s
shorter_run e n (itself k m) = absurd (k e)
shorter_run e n (any_run _ [] rest q m) = absurd (n (rw q m))
shorter_run e n (any_run _ (x ∷ run) rest q m) = any_run e run rest (ground arith) m

-- The runs of two stars in a row are one.
pub joined_runs :
    {star : ℕ} {p s : Bytes} → star ≡ b'*' → Matches (b'*' ∷ star ∷ p) s → Matches (star ∷ p) s
joined_runs e (itself k m) = absurd (k refl)
joined_runs e (any_run _ run rest q (itself k m)) = absurd (k e)
joined_runs e (any_run _ run rest q (any_run _ run' rest' q' m)) =
    any_run e (run ++ run') rest' (rw (q, q', append_assoc run run' rest') refl) m

-- A run that ends before a literal can be extended by it: to go on from a literal's first match
-- loses nothing.
pub run_past :
    {d c : ℕ} {p s : Bytes} → d ≢ b'*' → Matches (b'*' ∷ d ∷ p) (c ∷ s) → Matches (b'*' ∷ p) s
run_past h (itself k m) = absurd (k refl)
run_past h (any_run _ run rest q (any_run e _ _ _ _)) = absurd (h e)
run_past h (any_run _ [] rest q (itself {s = t} _ m)) = any_run refl [] t (ground arith) m
run_past {d} h (any_run _ (x ∷ run) rest q (itself {s = t} _ m)) =
    any_run refl (run ++ d ∷ []) t (rw (append_assoc run (d ∷ []) t) (ground arith)) m
