-- ===== src/Storage/Ranges.antt =====
-- No reply of the store wraps around: the seconds of TTL and the counters are within their ranges.
use ralphdb.Prelude.{
  ℕ, ◌-◌, ◌/◌, ◌<◌, ◌≤◌, ◌≡◌, ◌^◌, refl, Bool, true, leb, Option, none, some, [], ◌∷◌, arith, All,
  ltb, Option-cases, inl, inr, Bytes,
}
use ralphdb.Prelude.Int.{ℤ, pos, negsuc, InI64}
use ralphdb.Storage.Map.{DashMap}
use ralphdb.Storage.Ops
use ralphdb.Storage.Ops.{
  Entry, World, Result, ok, err, new_storage, instant_limit, as_i64, nanos_per_sec, checked_add_i64,
}
use ralphdb.Storage.Counters.{incr_by-result, counter_result, checked_add_i64-InI64}
use ralphdb.Storage.Bounds.{
  Fits, set-Fits, get-Fits, del_loop-Fits, expire-Fits, ttl-Fits, incr_by-Fits, mget-Fits,
  mset-Fits,
}
use ralphdb.Storage.Spec.{
  Call, set, get, del, exists, expire, ttl, incr, decr, mget, mset, Reply, seconds, counter,
  History, run_call, run_replies,
}

-- A reply of TTL is -2, -1 or a number of seconds within an `i64`, and a counter fits in an `i64`.
abbrev pub SecondsFit : ℤ → Type 0
SecondsFit (pos n) = n < 2 ^ 63
SecondsFit (negsuc n) = n ≤ 1

abbrev pub ReplyFits : Reply → Type 0
ReplyFits (seconds z) = SecondsFit z
ReplyFits (counter (ok z)) = InI64 z
ReplyFits _ = Unit

abbrev seconds_fit : ℤ → Bool
seconds_fit (pos n) = ltb n (2 ^ 63)
seconds_fit (negsuc n) = leb n 1

seconds_fit-SecondsFit : (z : ℤ) → seconds_fit z ≡ true → SecondsFit z
seconds_fit-SecondsFit (pos n) h = ground arith
seconds_fit-SecondsFit (negsuc n) h = ground arith

as_i64-seconds_fit :
    (deadline t : ℕ)
    → ltb deadline instant_limit ≡ true
    → seconds_fit (as_i64 ((deadline - t) / nanos_per_sec)) ≡ true
as_i64-seconds_fit deadline t h =
    let small : (deadline - t) / nanos_per_sec < 2 ^ 63 = ground arith in
    let test : ltb ((deadline - t) / nanos_per_sec) (2 ^ 63) ≡ true = ground arith in
    rw (test, test) refl

counter_result-ReplyFits :
    (current : Option ℤ) (delta : ℤ) → ReplyFits (counter (counter_result current delta))
counter_result-ReplyFits none delta = tt
counter_result-ReplyFits (some z) delta = elim (Option-cases (checked_add_i64 z delta)) [
  | inl none_fits ↦ rw none_fits tt
  | inr (u, sum) ↦ rw sum (checked_add_i64-InI64 z delta u sum).0
]

module _ (dash : DashMap Entry) (t : ℕ) where
  run_call-Fits :
      (call : Call) (w : World dash.Map)
      → Fits dash (λ _. t) w
      → Fits dash (λ _. t) (run_call dash t call w).1
  unfolding run_call Ops.del Ops.exists Ops.incr Ops.decr
  run_call-Fits (set key val) w h = set-Fits dash (λ _. t) key val w h
  run_call-Fits (get key) w h = get-Fits dash (λ _. t) key w h
  run_call-Fits (del keys) w h = del_loop-Fits dash (λ _. t) keys 0 w h
  run_call-Fits (exists key) w h = get-Fits dash (λ _. t) key w h
  run_call-Fits (expire key duration) w h = expire-Fits dash (λ _. t) key duration w h
  run_call-Fits (ttl key) w h = ttl-Fits dash (λ _. t) key w h
  run_call-Fits (incr key) w h = incr_by-Fits dash (λ _. t) key (pos 1) w h
  run_call-Fits (decr key) w h = incr_by-Fits dash (λ _. t) key (negsuc 0) w h
  run_call-Fits (mget keys) w h = mget-Fits dash (λ _. t) keys w h
  run_call-Fits (mset pairs) w h = mset-Fits dash (λ _. t) pairs w h

  ttl-SecondsFit :
      (key : Bytes) (w : World dash.Map)
      → Fits dash (λ _. t) w
      → SecondsFit (Ops.ttl dash (λ _. t) key w).0
  unfolding Ops.ttl
  ttl-SecondsFit key w h = seconds_fit-SecondsFit _ (elim (Option-cases (dash.find w.inner key)) [
    | inl missing ↦ ground arith
    | inr (entry, found) ↦ elim (Option-cases entry.expires_at) [
      | inl forever ↦ ground arith
      | inr (deadline, e) ↦
          let test : ltb deadline instant_limit ≡ true = ground (arith, h key) in
          ground (arith, as_i64-seconds_fit deadline t test)
    ]
  ])

  run_call-ReplyFits :
      (call : Call) (w : World dash.Map)
      → Fits dash (λ _. t) w
      → ReplyFits (run_call dash t call w).0
  unfolding run_call Ops.incr Ops.decr
  run_call-ReplyFits (set key val) w h = tt
  run_call-ReplyFits (get key) w h = tt
  run_call-ReplyFits (del keys) w h = tt
  run_call-ReplyFits (exists key) w h = tt
  run_call-ReplyFits (expire key duration) w h = tt
  run_call-ReplyFits (ttl key) w h = ttl-SecondsFit key w h
  run_call-ReplyFits (incr key) w h =
      rw (incr_by-result dash (λ _. t) w key (pos 1)) (counter_result-ReplyFits _ (pos 1))
  run_call-ReplyFits (decr key) w h =
      rw (incr_by-result dash (λ _. t) w key (negsuc 0)) (counter_result-ReplyFits _ (negsuc 0))
  run_call-ReplyFits (mget keys) w h = tt
  run_call-ReplyFits (mset pairs) w h = tt

new_storage-Fits : (dash : DashMap Entry) (clock : ℕ → ℕ) → Fits dash clock (new_storage dash)
new_storage-Fits dash clock j = ground (arith, dash.find-empty j)

run_replies-Fits :
    (dash : DashMap Entry) (history : History) (w : World dash.Map)
    → Fits dash (λ n. n) w
    → All ReplyFits (run_replies dash history w)
unfolding run_replies
run_replies-Fits dash [] w h = tt
run_replies-Fits dash ((t, call) ∷ calls) w h = (
  run_call-ReplyFits dash t call w h,
  run_replies-Fits dash calls (run_call dash t call w).1 (run_call-Fits dash t call w h),
)

-- Whatever calls are made of a store that was empty, at whatever times, every reply of TTL is -2, -1
-- or a number of seconds below 2 ^ 63, so that its cast to `i64` never wraps around, and every reply
-- of INCR and DECR is an `i64`.
pub run_replies-InRange :
    (dash : DashMap Entry) (history : History)
    → All ReplyFits (run_replies dash history (new_storage dash))
run_replies-InRange dash history =
    run_replies-Fits dash history (new_storage dash) (new_storage-Fits dash (λ n. n))
