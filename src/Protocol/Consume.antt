-- ===== src/Protocol/Consume.antt =====
-- A postcondition on reads: they do not run out of fuel, they leave no more of the stream than
-- there was, and what they return satisfies a predicate.
pub mod Lines
use ralphdb.Prelude.{
  ℕ, zero, suc, ◌<◌, ◌≤◌, ◌≡◌, refl, Bool, true, false, Option, none, some, [], ◌∷◌, arith, Bytes,
  length, if◌then◌else◌, String,
}
use ralphdb.Protocol.Frame.{ErrorKind}
use ralphdb.Protocol.Reader.{
  byte, fault, Stream, Outcome, Reader, ok, err, out_of_fuel, and_then, ◌>>=◌, ok_or, raise, fail,
  pure, prepend, read_exact,
}

abbrev pub Holds {ℓ} : {A : Type ℓ} → (A → Type 0) → ℕ → Outcome A × Stream → Type 0
Holds P n (ok a, s) = P a × (length s ≤ n)
Holds P n (err e, s) = length s ≤ n
Holds P n (out_of_fuel, s) = ⊥

-- On streams of fewer than `f` events.
pub record Consumes {A : Type 0} (f : ℕ) (P : A → Type 0) (m : Reader A) : Type 0 where
  pub at : (n : ℕ) (s : Stream) → n < f → length s ≤ n → Holds P n (m s)

pub Holds-weaken :
    {A : Type 0} (P : A → Type 0) (n m : ℕ) (o : Outcome A × Stream)
    → n ≤ m
    → Holds P n o
    → Holds P m o
Holds-weaken P n m (ok a, s) le (p, h) = (p, omega arith)
Holds-weaken P n m (err e, s) le h = omega arith
Holds-weaken P n m (out_of_fuel, s) le h = absurd h

pub Holds-and_then :
    {A B : Type 0} (P : A → Type 0) (Q : B → Type 0) (n : ℕ) (o : Outcome A × Stream)
    (k : A → Reader B)
    → Holds P n o
    → ((a : A) (s : Stream) → P a → length s ≤ n → Holds Q n (k a s))
    → Holds Q n (and_then o k)
Holds-and_then P Q n (ok a, s) k (p, le) h = h a s p le
Holds-and_then P Q n (err e, s) k le h = le
Holds-and_then P Q n (out_of_fuel, s) k h _ = absurd h

module _ {A : Type 0} {P : A → Type 0} (f : ℕ) where
  pub Consumes-pure : (a : A) → P a → Consumes f P (pure a)
  Consumes-pure a p = record { at = λ n s _ le. (p, le) }

  pub Consumes-raise : (k : ErrorKind) (message : Bytes) → Consumes f P (raise k message)
  Consumes-raise k message = record { at = λ n s _ le. le }

  pub Consumes-fail : (k : ErrorKind) (message : String) → Consumes f P (fail k message)
  Consumes-fail k message = record { at = λ n s _ le. le }

  pub Consumes-if :
      (b : Bool) (m m' : Reader A)
      → (b ≡ true → Consumes f P m)
      → (b ≡ false → Consumes f P m')
      → Consumes f P (if b then m else m')
  Consumes-if true m m' h h' = h refl
  Consumes-if false m m' h h' = h' refl

  pub Consumes-ok_or :
      (o : Option A) (message : String)
      → ((a : A) → o ≡ some a → P a)
      → Consumes f P (ok_or o message)
  Consumes-ok_or none message h = Consumes-fail _ message
  Consumes-ok_or (some a) message h = Consumes-pure a (h a refl)

pub Consumes-bind :
    {A B : Type 0} {P : A → Type 0} {Q : B → Type 0} (f : ℕ) (m : Reader A) (k : A → Reader B)
    → Consumes f P m
    → ((a : A) → P a → Consumes f Q (k a))
    → Consumes f Q (m >>= k)
Consumes-bind {P = P} {Q = Q} f m k hm hk = record {
  at = λ n s lt le.
      Holds-and_then P Q n (m s) k (hm.at n s lt le) (λ a s' p le'. (hk a p).at n s' lt le');
}

pub Holds-prepend :
    (P Q : Bytes → Type 0) (n m b : ℕ) (o : Outcome Bytes × Stream)
    → n ≤ m
    → ((bs : Bytes) → P bs → Q (b ∷ bs))
    → Holds P n o
    → Holds Q m (prepend b o)
Holds-prepend P Q n m b (ok bs, s) le k (p, h) = (k bs p, omega arith)
Holds-prepend P Q n m b (err e, s) le k h = omega arith
Holds-prepend P Q n m b (out_of_fuel, s) le k h = absurd h

abbrev pub HasLength : ℕ → Bytes → Type 0
HasLength k bs = length bs ≡ k

read_exact-Holds : (k : ℕ) (s : Stream) → Holds (HasLength k) (length s) (read_exact k s)
unfolding read_exact
read_exact-Holds zero s = (refl, omega arith)
read_exact-Holds (suc k) [] = omega arith
read_exact-Holds (suc k) (fault e ∷ s) = omega arith
read_exact-Holds (suc k) (byte b ∷ s) =
    Holds-prepend (HasLength k) (HasLength (suc k)) (length s) (suc (length s)) b (read_exact k s)
      (omega arith) (λ bs p. omega arith) (read_exact-Holds k s)

pub read_exact-Consumes : (f k : ℕ) → Consumes f (HasLength k) (read_exact k)
read_exact-Consumes f k = record {
  at = λ n s _ le.
      Holds-weaken (HasLength k) (length s) n (read_exact k s) le (read_exact-Holds k s);
}
