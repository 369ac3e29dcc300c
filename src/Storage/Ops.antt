-- ===== src/Storage/Ops.antt =====
-- The methods of `Storage`. A method is an action on the map and the clock: it returns its result
-- and the new state. Instants and durations are in nanoseconds.
use ralphdb.Prelude.{
  ℕ, suc, ◌+◌, ◌-◌, ◌*◌, ◌/◌, ◌^◌, Bool, true, false, Option, none, some, List, [], ◌∷◌, Bytes,
  codes, ltb, leb, if◌then◌else◌,
}
use ralphdb.Prelude.Int.{ℤ, pos, negsuc, in_i64, ◌+ℤ◌}
use ralphdb.Text.Utf8.{from_utf8}
use ralphdb.Text.Decimal.{parse_i64, print_i64, keep_if}
use ralphdb.Storage.Map.{DashMap}

pub record Entry : Type 0 where
  pub value : Bytes
  pub expires_at : Option ℕ

-- `Entry::new`.
abbrev pub new_entry : Bytes → Entry
new_entry value = record { value = value; expires_at = none }

pub data StorageError : Type 0 where
  invalid_integer integer_out_of_range : StorageError

pub data Result (A : Type 0) : Type 0 where
  ok : A → Result A
  err : StorageError → Result A

abbrev pub nanos_per_sec : ℕ
nanos_per_sec = 1_000_000_000

-- An `Instant` keeps its seconds in an `i64`.
abbrev pub instant_limit : ℕ
instant_limit = 2 ^ 63 * nanos_per_sec

-- `Instant::checked_add`.
unfoldable pub checked_add_instant : ℕ → ℕ → Option ℕ
checked_add_instant now duration =
    if ltb (now + duration) instant_limit then some (now + duration) else none

-- `as i64` on a `u64`.
abbrev pub as_i64 : ℕ → ℤ
as_i64 n = if ltb n (2 ^ 63) then pos n else negsuc (2 ^ 64 - n - 1)

-- `str::parse::<i64>` of a text, if the bytes are one.
abbrev pub parse_value : Option Bytes → Option ℤ
parse_value none = none
parse_value (some text) = parse_i64 text

-- `i64::checked_add`.
unfoldable pub checked_add_i64 : ℤ → ℤ → Option ℤ
checked_add_i64 a b = keep_if in_i64 (some (a +ℤ b))

abbrev pub is_some {ℓ} : {A : Type ℓ} → Option A → Bool
is_some none = false
is_some (some _) = true

-- The map, and the number of clock readings so far.
pub record World (M : Type 0) : Type 0 where
  pub inner : M
  pub readings : ℕ

abbrev pub Action : Type 0 → Type 0 → Type 0
Action M A = World M → A × World M

module _ {M : Type 0} where
  abbrev pub pure : {A : Type 0} → A → Action M A
  pure a w = (a, w)

  infixl 5 ◌>>=◌ ◌>>◌
  abbrev pub ◌>>=◌ : {A B : Type 0} → Action M A → (A → Action M B) → Action M B
  ◌>>=◌ m f w = let (a, w') = m w in f a w'

  abbrev pub ◌>>◌ : {A B : Type 0} → Action M A → Action M B → Action M B
  ◌>>◌ m f w = let (a, w') = m w in f w'

  -- `clock n` is what the call of `Instant::now` numbered `n` returns.
  abbrev pub now : (ℕ → ℕ) → Action M ℕ
  now clock w = (clock w.readings, record w { readings = suc w.readings })

  -- `Entry::expired`: an entry with no deadline asks no clock.
  abbrev pub expired_at : (ℕ → ℕ) → Option ℕ → Action M Bool
  expired_at clock none = pure false
  expired_at clock (some expiry) = do t ← now clock; pure (leb expiry t)

  unfoldable pub expired : (ℕ → ℕ) → Entry → Action M Bool
  expired clock entry = expired_at clock entry.expires_at

module _ (dash : DashMap Entry) (clock : ℕ → ℕ) where
  abbrev pub Method : Type 0 → Type 0
  Method A = Action dash.Map A

  -- The calls of the map.
  abbrev pub map_get : Bytes → Method (Option Entry)
  map_get key w = (dash.find w.inner key, w)

  abbrev pub map_insert : Bytes → Entry → Method (Unit {0})
  map_insert key entry w = (tt, record w { inner = dash.insert w.inner key entry })

  abbrev pub map_remove : Bytes → Method (Option Entry)
  map_remove key w = ((dash.remove w.inner key).0, record w { inner = (dash.remove w.inner key).1 })

  unfoldable pub set : Bytes → Bytes → Method (Unit {0})
  set key value = map_insert key (new_entry value)

  unfoldable pub get_found : Bytes → Option Entry → Method (Option Bytes)
  unfolding expired
  get_found key none = pure none
  get_found key (some entry) = do
    late ← expired clock entry
    if late then (do map_remove key; pure none) else pure (some entry.value)

  unfoldable pub get : Bytes → Method (Option Bytes)
  unfolding get_found
  get key = do found ← map_get key; get_found key found

  -- `self.inner.get(key)` and `entry.expired()` of a missing or found entry.
  unfoldable pub stale : Option Entry → Method Bool
  unfolding expired
  stale none = pure false
  stale (some entry) = expired clock entry

  -- A round of the loop: whether the key counts as deleted.
  unfoldable pub del_key : Bytes → Method Bool
  unfolding stale
  del_key key = do
    found ← map_get key
    late ← stale found
    if late
        then (do map_remove key; pure false)
        else (do removed ← map_remove key; pure (is_some removed))

  unfoldable pub del_loop : ℕ → List Bytes → Method ℕ
  unfolding del_key
  del_loop count [] = pure count
  del_loop count (key ∷ keys) = do
    removed ← del_key key
    del_loop (if removed then count + 1 else count) keys

  unfoldable pub del : List Bytes → Method ℕ
  unfolding del_loop
  del keys = del_loop 0 keys

  unfoldable pub exists : Bytes → Method Bool
  unfolding get
  exists key = do value ← get key; pure (is_some value)

  unfoldable pub expire_found : Bytes → ℕ → Option Entry → Method Bool
  unfolding expired
  expire_found key expiry none = pure false
  expire_found key expiry (some entry) = do
    late ← expired clock entry
    if late
        then (do map_remove key; pure false)
        else (do map_insert key (record entry { expires_at = some expiry }); pure true)

  abbrev pub expire_until : Bytes → Option ℕ → Method Bool
  expire_until key none = pure false
  expire_until key (some expiry) = do found ← map_get key; expire_found key expiry found

  unfoldable pub expire : Bytes → ℕ → Method Bool
  unfolding expire_found checked_add_instant
  expire key duration = do t ← now clock; expire_until key (checked_add_instant t duration)

  -- `saturating_duration_since` and `as_secs() as i64`.
  abbrev pub remaining : Option ℕ → Method ℤ
  remaining none = pure (negsuc 0)
  remaining (some expiry) = do t ← now clock; pure (as_i64 ((expiry - t) / nanos_per_sec))

  unfoldable pub ttl_found : Bytes → Option Entry → Method ℤ
  unfolding expired
  ttl_found key none = pure (negsuc 1)
  ttl_found key (some entry) = do
    late ← expired clock entry
    if late then (do map_remove key; pure (negsuc 1)) else remaining entry.expires_at

  unfoldable pub ttl : Bytes → Method ℤ
  unfolding ttl_found
  ttl key = do found ← map_get key; ttl_found key found

  -- `entry(key).or_insert_with(…)`.
  abbrev pub or_insert : Bytes → Entry → Option Entry → Method Entry
  or_insert key fresh none = do map_insert key fresh; pure fresh
  or_insert key fresh (some entry) = pure entry

  abbrev pub store_sum : Bytes → Entry → Option ℤ → Method (Result ℤ)
  store_sum key entry none = pure (err integer_out_of_range)
  store_sum key entry (some updated) = do
    map_insert key (record entry { value = print_i64 updated })
    pure (ok updated)

  abbrev pub add_to : Bytes → Entry → ℤ → Option ℤ → Method (Result ℤ)
  add_to key entry delta none = pure (err invalid_integer)
  add_to key entry delta (some current) = store_sum key entry (checked_add_i64 current delta)

  unfoldable pub incr_by : Bytes → ℤ → Method (Result ℤ)
  unfolding expired
  incr_by key delta = do
    found ← map_get key
    entry ← or_insert key (new_entry (codes "0")) found
    late ← expired clock entry
    let reset = new_entry (codes "0")
    if late
        then (do map_insert key reset; add_to key reset delta (parse_value (from_utf8 reset.value)))
        else add_to key entry delta (parse_value (from_utf8 entry.value))

  unfoldable pub incr : Bytes → Method (Result ℤ)
  unfolding incr_by
  incr key = incr_by key (pos 1)

  unfoldable pub decr : Bytes → Method (Result ℤ)
  unfolding incr_by
  decr key = incr_by key (negsuc 0)

  unfoldable pub mget : List Bytes → Method (List (Option Bytes))
  unfolding get
  mget [] = pure []
  mget (key ∷ keys) = do value ← get key; values ← mget keys; pure (value ∷ values)

  unfoldable pub mset : List (Bytes × Bytes) → Method (Unit {0})
  unfolding set
  mset [] = pure tt
  mset ((key, value) ∷ pairs) = do set key value; mset pairs

-- `Storage::new`, before any clock reading.
abbrev pub new_storage : (dash : DashMap Entry) → World dash.Map
new_storage dash = record { inner = dash.empty; readings = 0 }
