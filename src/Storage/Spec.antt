-- ===== src/Storage/Spec.antt =====
-- What the store promises: a function from keys to entries, read at a time, with no removal of late
-- entries, no loops and no clock readings of its own.
use ralphdb.Prelude.{
  ℕ, ◌+◌, ◌-◌, ◌/◌, ◌≤◌, Bool, true, false, Option, none, some, List, [], ◌∷◌, Bytes, bytes_eq, ltb,
  if◌then◌else◌, ◌&&◌, map,
}
use ralphdb.Prelude.Int.{ℤ, pos, negsuc}
use ralphdb.Text.Utf8.{from_utf8}
use ralphdb.Storage.Map.{DashMap}
use ralphdb.Storage.Ops
use ralphdb.Storage.Ops.{
  Entry, World, Action, Result, new_entry, pure, ◌>>=◌, ◌>>◌, instant_limit, is_some, parse_value,
  nanos_per_sec, as_i64,
}
use ralphdb.Storage.View.{live, value_of}
use ralphdb.Storage.Writes.{last_value, listed, count_visible}
use ralphdb.Storage.Counters.{counter_result, counter_text, deadline_of, stored_by}

-- The calls that the commands make, and what they return.
pub data Call : Type 0 where
  set : Bytes → Bytes → Call
  get : Bytes → Call
  del : List Bytes → Call
  exists : Bytes → Call
  expire : Bytes → ℕ → Call
  ttl : Bytes → Call
  incr : Bytes → Call
  decr : Bytes → Call
  mget : List Bytes → Call
  mset : List (Bytes × Bytes) → Call

pub data Reply : Type 0 where
  done : Reply
  value : Option Bytes → Reply
  values : List (Option Bytes) → Reply
  count : ℕ → Reply
  flag : Bool → Reply
  seconds : ℤ → Reply
  counter : Result ℤ → Reply

abbrev pub Store : Type 0
Store = Bytes → Option Entry

abbrev pub empty_store : Store
empty_store key = none

abbrev pub put : Store → Bytes → Option Entry → Store
put m key entry j = if bytes_eq key j then entry else m j

abbrev pub look : ℕ → Store → Bytes → Option Entry
look t m key = live t (m key)

-- Redis' reply: -2 for no key, -1 for no deadline, else the whole seconds that are left.
abbrev pub seconds_left : ℕ → Option Entry → ℤ
seconds_left t none = negsuc 1
seconds_left t (some entry) = elim entry.expires_at [
  | none ↦ negsuc 0
  | some expiry ↦ as_i64 ((expiry - t) / nanos_per_sec)
]

-- A deadline is set for an entry that is there.
abbrev pub renewed : ℕ → Option Entry → Option Entry
renewed deadline none = none
renewed deadline (some entry) = some (record entry { expires_at = some deadline })

abbrev pub spec_expire : ℕ → Bytes → ℕ → Store → Reply × Store
spec_expire t key duration m =
    if ltb (t + duration) instant_limit && is_some (look t m key)
    then (flag true, put m key (renewed (t + duration) (m key)))
    else (flag false, m)

-- The visible integer and the delta, or an error that changes nothing.
abbrev pub spec_incr : ℕ → Bytes → ℤ → Store → Reply × Store
spec_incr t key delta m =
    let sum = counter_result (parse_value (from_utf8 (counter_text (look t m key)))) delta in
    (counter sum, put m key (stored_by sum (deadline_of (look t m key)) (m key)))

-- The call at the time `t`.
unfoldable pub spec_call : ℕ → Call → Store → Reply × Store
spec_call t (set key val) m = (done, put m key (some (new_entry val)))
spec_call t (get key) m = (value (value_of (look t m key)), m)
spec_call t (del keys) m = (
  count (count_visible (λ j. is_some (look t m j)) keys),
  λ j. if listed keys j then none else m j,
)
spec_call t (exists key) m = (flag (is_some (look t m key)), m)
spec_call t (expire key duration) m = spec_expire t key duration m
spec_call t (ttl key) m = (seconds (seconds_left t (look t m key)), m)
spec_call t (incr key) m = spec_incr t key (pos 1) m
spec_call t (decr key) m = spec_incr t key (negsuc 0) m
spec_call t (mget keys) m = (values (map (λ key. value_of (look t m key)) keys), m)
spec_call t (mset pairs) m = (done, λ j. last_value pairs j (m j))

-- Calls with the times at which they are made.
abbrev pub History : Type 0
History = List (ℕ × Call)

abbrev pub Ascending : ℕ → History → Type 0
Ascending t [] = Unit
Ascending t ((t', call) ∷ calls) = (t ≤ t') × Ascending t' calls

unfoldable pub spec_replies : History → Store → List Reply
unfolding spec_call
spec_replies [] m = []
spec_replies ((t, call) ∷ calls) m =
    (spec_call t call m).0 ∷ spec_replies calls (spec_call t call m).1

module _ (dash : DashMap Entry) where
  -- The methods of the program, on a clock that stands at `t` during the call.
  unfoldable pub run_call : ℕ → Call → Action dash.Map Reply
  run_call t (set key val) = do Ops.set dash (λ _. t) key val; pure done
  run_call t (get key) = do v ← Ops.get dash (λ _. t) key; pure (value v)
  run_call t (del keys) = do n ← Ops.del dash (λ _. t) keys; pure (count n)
  run_call t (exists key) = do b ← Ops.exists dash (λ _. t) key; pure (flag b)
  run_call t (expire key duration) = do b ← Ops.expire dash (λ _. t) key duration; pure (flag b)
  run_call t (ttl key) = do z ← Ops.ttl dash (λ _. t) key; pure (seconds z)
  run_call t (incr key) = do r ← Ops.incr dash (λ _. t) key; pure (counter r)
  run_call t (decr key) = do r ← Ops.decr dash (λ _. t) key; pure (counter r)
  run_call t (mget keys) = do vs ← Ops.mget dash (λ _. t) keys; pure (values vs)
  run_call t (mset pairs) = do Ops.mset dash (λ _. t) pairs; pure done

  unfoldable pub run_replies : History → World dash.Map → List Reply
  unfolding run_call
  run_replies [] w = []
  run_replies ((t, call) ∷ calls) w =
      (run_call t call w).0 ∷ run_replies calls (run_call t call w).1
