-- ===== src/Storage/Tests.antt =====
-- The store on small examples, over an association list.
use ralphdb.Prelude.{
  ℕ, ◌+◌, ◌≡◌, refl, true, none, some, [], ◌∷◌, arith, Bytes, codes, bytes_eq, leb, ltb, ◌&&◌,
  if◌then◌else◌, inr,
}
use ralphdb.Prelude.Int.{pos}
use ralphdb.Text.Utf8.{from_utf8}
use ralphdb.Text.Decimal.{parse_i64, print_i64}
use ralphdb.Storage.Map.{DashMap, assoc_map}
use ralphdb.Storage.Ops.{
  Entry, World, new_entry, set, get, ttl, del, expire, incr_by, incr, decr, instant_limit, is_some,
  nanos_per_sec, ok, parse_value, checked_add_i64,
}
use ralphdb.Storage.Ops.{new_storage}
use ralphdb.Storage.Spec.{Call, History, Ascending, run_replies, spec_replies, empty_store}
use ralphdb.Storage.Refine.{run_replies-eq-spec_replies}
use ralphdb.Storage.View.{value_of, live, view}
use ralphdb.Storage.Reads.{get-view, ttl_of, ttl-view}
use ralphdb.Storage.Writes.{
  get-set_self, count_visible, del-count, expire-view, expire-deadline, expire-frame,
}
use ralphdb.Storage.Counters.{
  counter_result, counter_text, deadline_of, stored_by, seen, incr_by-result, view-incr_by,
  get-incr, decr-incr,
}

abbrev pub dash : DashMap Entry
dash = assoc_map Entry

-- A clock that starts at 100 and goes on by one at each reading, and one that stands at 5.
abbrev pub ticking : ℕ → ℕ
ticking n = 100 + n

abbrev still : ℕ → ℕ
still _ = 5

abbrev pub key_a : Bytes
key_a = codes "a"

abbrev key_b : Bytes
key_b = codes "b"

-- "a" holds "7" until 101; "b" holds "x" for ever.
abbrev pub store : World dash.Map
store = record {
  inner =
      dash.insert
        (dash.insert dash.empty key_a (record { value = codes "7"; expires_at = some 101 })) key_b
        (new_entry (codes "x"));
  readings = 1;
}

get-view_example :
    (get dash ticking key_a store).0 ≡ value_of (view dash store (ticking store.readings) key_a)
get-view_example = get-view dash ticking store key_a

ttl-view_example :
    (ttl dash still key_a store).0
    ≡ ttl_of dash still store key_a (still 2) (view dash store (still store.readings) key_a)
ttl-view_example = ttl-view dash still store key_a

still_frozen : (n : ℕ) → still n ≡ 5
still_frozen n = refl

get-set_self_example :
    (get dash ticking key_a (set dash ticking key_a (codes "1") store).1).0 ≡ some (codes "1")
get-set_self_example = get-set_self dash ticking store key_a (codes "1")

del-count_example :
    (del dash still (key_a ∷ key_a ∷ key_b ∷ []) store).0
    ≡ count_visible (λ j. is_some (view dash store 5 j)) (key_a ∷ key_a ∷ key_b ∷ [])
del-count_example = del-count dash still 5 still_frozen (key_a ∷ key_a ∷ key_b ∷ []) store

expire-view_example : (expire dash ticking key_b nanos_per_sec store).0 ≡ (
    ltb (ticking store.readings + nanos_per_sec) instant_limit
    && is_some (view dash store (ticking 2) key_b))
expire-view_example = expire-view dash ticking store key_b nanos_per_sec

expire_succeeds : (expire dash ticking key_b 9 store).0 ≡ true
unfolding expire assoc_map
expire_succeeds = refl

expire-deadline_example : value_of (view dash (expire dash ticking key_b 9 store).1 110 key_b) ≡ (
    if leb (ticking store.readings + 9) 110
    then none
    else value_of (view dash store (ticking 2) key_b))
expire-deadline_example = expire-deadline dash ticking store key_b 9 110 expire_succeeds

expire-frame_example :
    view dash (expire dash still key_b 9 store).1 50 key_a ≡ view dash store 50 key_a
expire-frame_example = expire-frame dash still store key_b 9 50 key_a (omega arith) (inr refl)

incr_by-result_example :
    (incr_by dash still key_a (pos 3) store).0
    ≡ counter_result
        (parse_value (from_utf8 (counter_text (seen dash still store key_a (pos 3)))))
        (pos 3)
incr_by-result_example = incr_by-result dash still store key_a (pos 3)

view-incr_by_example :
    view dash (incr_by dash still key_a (pos 3) store).1 6 key_a
    ≡ live 6 (
        if bytes_eq key_a key_a
        then stored_by
            (incr_by dash still key_a (pos 3) store).0
            (deadline_of (seen dash still store key_a (pos 3)))
            (dash.find store.inner key_a)
        else dash.find store.inner key_a)
view-incr_by_example =
    view-incr_by dash still store key_a (pos 3) 6 key_a (omega arith) (omega arith)

incr_succeeds : (incr dash still key_a store).0 ≡ ok (pos 8)
unfolding incr assoc_map from_utf8 parse_i64 checked_add_i64
incr_succeeds = refl

get-incr_example :
    (get dash still key_a (incr dash still key_a store).1).0 ≡ some (print_i64 (pos 8))
get-incr_example = get-incr dash still 5 still_frozen store key_a (pos 8) incr_succeeds

seven_seen : parse_value (from_utf8 (counter_text (view dash store 5 key_a))) ≡ some (pos 7)
unfolding assoc_map from_utf8 parse_i64
seven_seen = refl

decr-incr_example : (decr dash still key_a (incr dash still key_a store).1).0 ≡ ok (pos 7)
decr-incr_example =
    decr-incr dash still 5 still_frozen store key_a (pos 7) (pos 8) seven_seen (omega arith)
      incr_succeeds

-- A counter with a deadline, which is read before and after it.
abbrev history : History
history =
    (0, Call.set key_a (codes "7"))
    ∷ (0, Call.expire key_a 5)
    ∷ (4, Call.incr key_a)
    ∷ (5, Call.incr key_a)
    ∷ (6, Call.mget (key_a ∷ key_b ∷ []))
    ∷ (6, Call.del (key_a ∷ key_a ∷ []))
    ∷ []

history-Ascending : Ascending 0 history
history-Ascending = omega arith

run_replies-eq-spec_replies_example :
    run_replies dash history (new_storage dash) ≡ spec_replies history empty_store
run_replies-eq-spec_replies_example = run_replies-eq-spec_replies dash history history-Ascending
