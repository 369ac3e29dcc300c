-- ===== src/Storage/Counters.antt =====
-- `incr_by`: arithmetic on the decimal text that is visible, and nothing on errors.
use ralphdb.Prelude.{
  ℕ, suc, ◌≤◌, ◌≡◌, refl, Option, none, some, arith, Bytes, codes, bytes_eq, bytes_eq_iff,
  bytes_eq_refl, if◌then◌else◌, zero, sym, ◌∙◌, Option-cases, inl, inr, Bool-cases,
}
use ralphdb.Prelude.Int.{ℤ, pos, negsuc, InI64, ◌+ℤ◌, in_i64-InI64}
use ralphdb.Text.Utf8.{from_utf8}
use ralphdb.Text.Decimal.{parse_i64, print_i64}
use ralphdb.Text.Decimal.Laws.{parse_i64-print_i64}
use ralphdb.Protocol.Lines.{print_i64-IsLine}
use ralphdb.Storage.Reads.{get-view}
use ralphdb.Storage.Map.{DashMap}
use ralphdb.Storage.Ops.{
  Entry, World, Result, ok, err, new_entry, get, incr_by, incr, decr, checked_add_i64, parse_value,
  invalid_integer, integer_out_of_range,
}
use ralphdb.Storage.View.{passed, live, view}

-- What the counter of a text becomes.
abbrev pub sum_result : Option ℤ → Result ℤ
sum_result none = err integer_out_of_range
sum_result (some updated) = ok updated

abbrev pub counter_result : Option ℤ → ℤ → Result ℤ
counter_result none delta = err invalid_integer
counter_result (some current) delta = sum_result (checked_add_i64 current delta)

-- A key that is not visible counts from "0".
abbrev pub counter_text : Option Entry → Bytes
counter_text none = codes "0"
counter_text (some entry) = entry.value

abbrev pub deadline_of : Option Entry → Option ℕ
deadline_of none = none
deadline_of (some entry) = entry.expires_at

-- An entry after a successful change of its counter.
abbrev pub counted : ℤ → Option ℕ → Entry
counted updated deadline = record { value = print_i64 updated; expires_at = deadline }

abbrev pub stored_by : Result ℤ → Option ℕ → Option Entry → Option Entry
stored_by (ok updated) deadline before = some (counted updated deadline)
stored_by (err e) deadline before = before

zero_parses : parse_value (from_utf8 (codes "0")) ≡ some (pos 0)
unfolding from_utf8 parse_i64
zero_parses = refl

add_zero_fits : (z : ℤ) → InI64 z → checked_add_i64 (pos 0) z ≡ some z
unfolding checked_add_i64
add_zero_fits (pos n) h = ground arith
add_zero_fits (negsuc n) h = ground arith

module _ (dash : DashMap Entry) (clock : ℕ → ℕ) (w : World dash.Map) (key : Bytes) (delta : ℤ) where
  -- The entry that is visible at the clock reading of the call.
  abbrev pub seen : Option Entry
  seen = view dash w (clock w.readings) key

  -- `incr_by` returns the sum of the visible integer and the delta, a key that is not visible
  -- counting from zero; it is an error if the text is no `i64` or the sum is none.
  pub incr_by-result :
      (incr_by dash clock key delta w).0
      ≡ counter_result (parse_value (from_utf8 (counter_text seen))) delta
  unfolding incr_by
  incr_by-result = elim (Option-cases (dash.find w.inner key)) [
    | inl missing ↦ ground arith
    | inr (entry, found) ↦ ground arith
  ]

  -- After `incr_by` with a delta in the range of `i64`, from the clock reading of the call on, the
  -- key holds the decimal text of the result, with the deadline that it visibly had; other keys, and
  -- on an error all keys, look as before.
  pub view-incr_by :
      (t : ℕ) (j : Bytes)
      → InI64 delta
      → clock w.readings ≤ t
      → view dash (incr_by dash clock key delta w).1 t j
        ≡ live t (
            if bytes_eq key j
            then stored_by
                (incr_by dash clock key delta w).0
                (deadline_of seen)
                (dash.find w.inner j)
            else dash.find w.inner j)
  unfolding incr_by
  view-incr_by t j fits le = elim (Option-cases (dash.find w.inner key)) [
    | inl missing ↦
        let zero = new_entry (codes "0") in
        ground (
          arith,
          zero_parses,
          add_zero_fits delta fits,
          dash.find-insert w.inner key j zero,
          dash.find-insert (dash.insert w.inner key zero) key j (counted delta none),
        )
    | inr (entry, found) ↦
        let zero = new_entry (codes "0") in
        elim (Bool-cases (passed (clock w.readings) entry.expires_at)) [
          | inl late ↦ ground (
            arith,
            zero_parses,
            add_zero_fits delta fits,
            bytes_eq_iff key j,
            dash.find-insert w.inner key j zero,
            dash.find-insert (dash.insert w.inner key zero) key j (counted delta none),
          )
          | inr early ↦ elim (Option-cases (parse_value (from_utf8 entry.value))) [
            | inl bad ↦ ground (arith, bytes_eq_iff key j)
            | inr (current, good) ↦ elim (Option-cases (checked_add_i64 current delta)) [
              | inl over ↦ ground (arith, bytes_eq_iff key j)
              | inr (updated, sum) ↦ ground (
                arith,
                bytes_eq_iff key j,
                dash.find-insert w.inner key j (counted updated entry.expires_at),
              )
            ]
          ]
        ]
  ]

from_utf8-print_i64 : (z : ℤ) → from_utf8 (print_i64 z) ≡ some (print_i64 z)
unfolding from_utf8
from_utf8-print_i64 z = rw (print_i64-IsLine z).1

reads_back : (z : ℤ) → InI64 z → parse_value (from_utf8 (print_i64 z)) ≡ some z
reads_back z h = rw (from_utf8-print_i64 z) (parse_i64-print_i64 z h)

pub checked_add_i64-InI64 : (a b c : ℤ) → checked_add_i64 a b ≡ some c → InI64 c × (c ≡ a +ℤ b)
unfolding checked_add_i64
checked_add_i64-InI64 a b c h =
    let e : a +ℤ b ≡ c = ground arith in (in_i64-InI64 c (rw (← e) (ground arith)), sym e)

-- One up and one down.
sub_add_one : (z u : ℤ) → InI64 z → u ≡ z +ℤ pos 1 → checked_add_i64 u (negsuc 0) ≡ some z
unfolding checked_add_i64
sub_add_one (pos n) u h e = rw e (ground arith)
sub_add_one (negsuc zero) u h e = rw e (ground arith)
sub_add_one (negsuc (suc n)) u h e = rw e (ground arith)

sum_result-eq-ok : (o : Option ℤ) (u : ℤ) → sum_result o ≡ ok u → o ≡ some u
sum_result-eq-ok none u h = cc
sum_result-eq-ok (some v) u h = ground arith

live-counted :
    (t : ℕ) (o : Option Entry) (u : ℤ)
    → live t (some (counted u (deadline_of (live t o)))) ≡ some (counted u (deadline_of (live t o)))
live-counted t none u = refl
live-counted t (some entry) u = ground arith

module _ (dash : DashMap Entry) (clock : ℕ → ℕ) (t : ℕ) (frozen : (n : ℕ) → clock n ≡ t) where
  module _ (w : World dash.Map) (key : Bytes) where
    view-incr :
        (delta u : ℤ)
        → InI64 delta
        → (incr_by dash clock key delta w).0 ≡ ok u
        → view dash (incr_by dash clock key delta w).1 t key
          ≡ some (counted u (deadline_of (view dash w t key)))
    view-incr delta u fits h =
        view-incr_by dash clock w key delta t key fits (omega (arith, frozen w.readings))
        ∙ rw (bytes_eq_refl key, h, frozen w.readings) (live-counted t (dash.find w.inner key) u)

    -- While the clock stands still, a `get` after an `incr` that succeeds returns the decimal text
    -- of what `incr` returned.
    pub get-incr :
        (u : ℤ)
        → (incr dash clock key w).0 ≡ ok u
        → (get dash clock key (incr dash clock key w).1).0 ≡ some (print_i64 u)
    unfolding incr
    get-incr u h =
        let w' = (incr_by dash clock key (pos 1) w).1 in
        get-view dash clock w' key ∙ rw (frozen w'.readings, view-incr (pos 1) u (omega arith) h)

    -- While the clock stands still, a `decr` after an `incr` that succeeds returns the integer that
    -- was visible before, zero for a key that was not.
    pub decr-incr :
        (z u : ℤ)
        → parse_value (from_utf8 (counter_text (view dash w t key))) ≡ some z
        → InI64 z
        → (incr dash clock key w).0 ≡ ok u
        → (decr dash clock key (incr dash clock key w).1).0 ≡ ok z
    unfolding incr decr
    decr-incr z u parsed fits h =
        let w' = (incr_by dash clock key (pos 1) w).1 in
        let sum : checked_add_i64 z (pos 1) ≡ some u =
          sum_result-eq-ok (checked_add_i64 z (pos 1)) u (
            rw (frozen w.readings, parsed) at
              (sym (incr_by-result dash clock w key (pos 1)) ∙ h)) in
        let (u_fits, u_eq) = checked_add_i64-InI64 z (pos 1) u sum in
        incr_by-result dash clock w' key (negsuc 0)
        ∙ rw (
          frozen w'.readings,
          view-incr (pos 1) u (omega arith) h,
          reads_back u u_fits,
          sub_add_one z u fits u_eq,
        )
