-- ===== src/Protocol/Extend.antt =====
-- A read that succeeds does so on any longer stream, and leaves the rest of that.
pub mod Parts
use ralphdb.Prelude.{
  ℕ, zero, suc, ◌-◌, ◌≡◌, ◌⊎◌, inl, inr, ◌≢◌, refl, subst, Bool, true, false, Option, none, some,
  [], ◌∷◌, ◌++◌, arith, Bytes, All, length, is_empty, ◌==◌, bytes_eq, if◌then◌else◌, Bool-cases,
  String, eq_of_bytes_eq,
}
use ralphdb.Protocol.Frame.{ErrorKind, unexpected_eof}
use ralphdb.Protocol.Reader.{
  byte, fault, Stream, Outcome, Reader, ok, err, out_of_fuel, and_then, ◌>>=◌, ok_or, raise, pure,
  prepend, read_exact, read_until_lf, strip_line_ending, read_line_bytes, read_line, drop,
  ends_with, crlf,
}
use ralphdb.Text.Utf8.{from_utf8}
use ralphdb.Protocol.Lines.{NotLf}

-- `m'` does on a longer stream what `m` does where it succeeds.
pub record Extends {A : Type 0} (m m' : Reader A) : Type 0 where
  pub at : (s t : Stream) (a : A) (r : Stream) → m s ≡ (ok a, r) → m' (s ++ t) ≡ (ok a, r ++ t)

and_then-eq-ok :
    {A B : Type 0} (o : Outcome A × Stream) (f : A → Reader B) (b : B) (r : Stream)
    → and_then o f ≡ (ok b, r)
    → (a : A) × (s : Stream) × (o ≡ (ok a, s)) × (f a s ≡ (ok b, r))
and_then-eq-ok (ok a, s) f b r h = (a, s, refl, h)
and_then-eq-ok (err e, s) f b r h = cc
and_then-eq-ok (out_of_fuel, s) f b r h = cc

module _ {A : Type 0} where
  pub Extends-pure : (a : A) → Extends (pure a) (pure a)
  Extends-pure a = record { at = λ s t b r h. cc h }

  pub Extends-raise :
      (k : ErrorKind) (message : Bytes) → Extends {A = A} (raise k message) (raise k message)
  Extends-raise k message = record { at = λ s t b r h. cc }

  pub Extends-if :
      (b : Bool) (m n m' n' : Reader A)
      → Extends m m'
      → Extends n n'
      → Extends (if b then m else n) (if b then m' else n')
  Extends-if true m n m' n' h k = h
  Extends-if false m n m' n' h k = k

  pub Extends-ok_or :
      (o : Option A) (message : String) → Extends (ok_or o message) (ok_or o message)
  Extends-ok_or none message = Extends-raise _ _
  Extends-ok_or (some a) message = Extends-pure a

pub Extends-bind :
    {A B : Type 0} (m m' : Reader A) (f f' : A → Reader B)
    → Extends m m'
    → ((a : A) → Extends (f a) (f' a))
    → Extends (m >>= f) (m' >>= f')
Extends-bind m m' f f' hm hf = record {
  at = λ s t b r h.
      let (a, s', p, q) = and_then-eq-ok (m s) f b r h in
      rw (hm.at s t a s' p) ((hf a).at s' t b r q);
}

prepend-eq-ok :
    (b : ℕ) (o : Outcome Bytes × Stream) (bs : Bytes) (r : Stream)
    → prepend b o ≡ (ok bs, r)
    → (cs : Bytes) × (o ≡ (ok cs, r)) × (bs ≡ b ∷ cs)
prepend-eq-ok b (ok cs, s) bs r h = (cs, cc h, cc h)
prepend-eq-ok b (err e, s) bs r h = cc
prepend-eq-ok b (out_of_fuel, s) bs r h = cc

read_exact-extends :
    (n : ℕ) (s t : Stream) (bs : Bytes) (r : Stream)
    → read_exact n s ≡ (ok bs, r)
    → read_exact n (s ++ t) ≡ (ok bs, r ++ t)
unfolding read_exact
read_exact-extends zero s t bs r h = cc h
read_exact-extends (suc n) [] t bs r h = cc
read_exact-extends (suc n) (fault k ∷ s) t bs r h = cc
read_exact-extends (suc n) (byte b ∷ s) t bs r h =
    let (cs, p, q) = prepend-eq-ok b (read_exact n s) bs r h in
    rw (read_exact-extends n s t cs r p, q)

pub read_exact-Extends : (n : ℕ) → Extends (read_exact n) (read_exact n)
read_exact-Extends n = record { at = read_exact-extends n }

-- A line that was not ended by a line feed holds none.
read_until_lf-extends :
    (s t : Stream) (bs : Bytes) (r : Stream)
    → read_until_lf s ≡ (ok bs, r)
    → (read_until_lf (s ++ t) ≡ (ok bs, r ++ t)) ⊎ All NotLf bs
unfolding read_until_lf
read_until_lf-extends [] t bs r h = inr (let e : [] ≡ bs = cc h in subst (All NotLf) e tt)
read_until_lf-extends (fault k ∷ s) t bs r h = cc
read_until_lf-extends (byte b ∷ s) t bs r h = elim (Bool-cases (b == 10)) [
  | inl lf ↦ inl (rw lf (cc (rw lf at h)))
  | inr other ↦
      let (cs, p, q) = prepend-eq-ok b (read_until_lf s) bs r (rw other at h) in
      elim (read_until_lf-extends s t cs r p) [
        | inl e ↦ inl (rw (other, e, q))
        | inr none_lf ↦ inr (rw q (ground arith, none_lf))
      ]
]

drop-All : (k : ℕ) (bs : Bytes) → All NotLf bs → All NotLf (drop k bs)
drop-All zero bs h = h
drop-All (suc k) [] h = tt
drop-All (suc k) (b ∷ bs) h = drop-All k bs h.1

not_ends_with : (bs : Bytes) → All NotLf bs → ends_with bs (10 ∷ []) ≡ false
not_ends_with bs h =
    let dropped = drop-All (length bs - 1) bs h in
    let same = eq_of_bytes_eq (drop (length bs - 1) bs) (10 ∷ []) in
    elim (Bool-cases (bytes_eq (drop (length bs - 1) bs) (10 ∷ []))) [
      | inl e ↦ absurd ((subst (All NotLf) (same e) dropped).0 refl)
      | inr e ↦ rw e (ground arith)
    ]

not_ends_with-crlf : (bs : Bytes) → All NotLf bs → ends_with bs crlf ≡ false
not_ends_with-crlf bs h =
    let dropped = drop-All (length bs - 2) bs h in
    let same = eq_of_bytes_eq (drop (length bs - 2) bs) crlf in
    elim (Bool-cases (bytes_eq (drop (length bs - 2) bs) crlf)) [
      | inl e ↦ absurd ((subst (All NotLf) (same e) dropped).1.0 refl)
      | inr e ↦ rw e (ground arith)
    ]

strip_not_ok :
    (bs : Bytes) (s : Stream) (text : Bytes) (r : Stream)
    → All NotLf bs
    → strip_line_ending bs s ≢ (ok text, r)
unfolding strip_line_ending
strip_not_ok bs s text r h e = cc (rw (not_ends_with bs h, not_ends_with-crlf bs h) at e)

strip_line_ending-Extends : (bs : Bytes) → Extends (strip_line_ending bs) (strip_line_ending bs)
unfolding strip_line_ending
strip_line_ending-Extends bs =
    Extends-if (ends_with bs crlf) _ _ _ _ (Extends-pure _)
      (Extends-if (ends_with bs (10 ∷ [])) _ _ _ _ (Extends-pure _) (Extends-raise _ _))

-- What `read_line_bytes` does with the buffer.
abbrev line_of : Bytes → Reader Bytes
line_of buffer = if is_empty buffer then raise unexpected_eof [] else strip_line_ending buffer

line_of-Extends : (buffer : Bytes) → Extends (line_of buffer) (line_of buffer)
line_of-Extends buffer =
    Extends-if (is_empty buffer) _ _ _ _ (Extends-raise _ _) (strip_line_ending-Extends buffer)

line_of_not_ok :
    (bs : Bytes) (s : Stream) (text : Bytes) (r : Stream)
    → All NotLf bs
    → line_of bs s ≢ (ok text, r)
line_of_not_ok [] s text r h e = cc e
line_of_not_ok (b ∷ bs) s text r h e = strip_not_ok (b ∷ bs) s text r h e

read_line_bytes-extends :
    (s t : Stream) (a : Bytes) (r : Stream)
    → read_line_bytes s ≡ (ok a, r)
    → read_line_bytes (s ++ t) ≡ (ok a, r ++ t)
unfolding read_line_bytes
read_line_bytes-extends s t a r h =
    let (bs, s', p, q) = and_then-eq-ok (read_until_lf s) line_of a r h in
    elim (read_until_lf-extends s t bs s' p) [
      | inl e ↦ rw e ((line_of-Extends bs).at s' t a r q)
      | inr none_lf ↦ absurd (line_of_not_ok bs s' a r none_lf q)
    ]

pub read_line_bytes-Extends : Extends read_line_bytes read_line_bytes
read_line_bytes-Extends = record { at = read_line_bytes-extends }

pub read_line-Extends : Extends read_line read_line
unfolding read_line
read_line-Extends =
    Extends-bind read_line_bytes read_line_bytes _ _ read_line_bytes-Extends
      λ bytes. Extends-ok_or (from_utf8 bytes) _
