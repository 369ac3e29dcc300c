-- ===== src/Storage/Sections.antt =====
-- What other threads can see of a method of the store: get, ttl, expire and del read an entry under
-- its guard, drop the guard, and remove the key in a second section. Other threads may change the
-- map in between, and the others' methods are one section each.
use ralphdb.Prelude.{ℕ, Option, none, some, Bool, true, false, Bytes, if◌then◌else◌}
use ralphdb.Prelude.Int.{ℤ, negsuc}
use ralphdb.Storage.Map.{DashMap}
use ralphdb.Storage.Ops.{
  Entry, World, Method, pure, ◌>>=◌, ◌>>◌, now, expired, stale, remaining, checked_add_instant,
  map_get, map_insert, map_remove, is_some,
}

-- What is left of a call behind its first section: its result, or a removal and then the result, or
-- a removal that tells the result.
pub data After (A : Type 0) : Type 0 where
  finished : A → After A
  remove_then : Bytes → A → After A
  remove_for : Bytes → (Option Entry → A) → After A

module _ (dash : DashMap Entry) (clock : ℕ → ℕ) where
  unfoldable pub get_first_found : Bytes → Option Entry → Method dash clock (After (Option Bytes))
  unfolding expired
  get_first_found key none = pure (finished none)
  get_first_found key (some entry) = do
    late ← expired clock entry
    pure (if late then remove_then key none else finished (some entry.value))

  unfoldable pub get_first : Bytes → Method dash clock (After (Option Bytes))
  unfolding get_first_found
  get_first key = do found ← map_get dash clock key; get_first_found key found

  unfoldable pub del_first : Bytes → Method dash clock (After Bool)
  unfolding stale
  del_first key = do
    found ← map_get dash clock key
    late ← stale dash clock found
    pure (if late then remove_then key false else remove_for key is_some)

  unfoldable pub expire_first_found : Bytes → ℕ → Option Entry → Method dash clock (After Bool)
  unfolding expired
  expire_first_found key expiry none = pure (finished false)
  expire_first_found key expiry (some entry) = do
    late ← expired clock entry
    if late then pure (remove_then key false) else (do
      map_insert dash clock key (record entry { expires_at = some expiry })
      pure (finished true))

  abbrev expire_first_until : Bytes → Option ℕ → Method dash clock (After Bool)
  expire_first_until key none = pure (finished false)
  expire_first_until key (some expiry) = do
    found ← map_get dash clock key
    expire_first_found key expiry found

  unfoldable pub expire_first : Bytes → ℕ → Method dash clock (After Bool)
  unfolding expire_first_found checked_add_instant
  expire_first key duration = do
    t ← now clock
    expire_first_until key (checked_add_instant t duration)

  unfoldable pub ttl_first_found : Bytes → Option Entry → Method dash clock (After ℤ)
  unfolding expired
  ttl_first_found key none = pure (finished (negsuc 1))
  ttl_first_found key (some entry) = do
    late ← expired clock entry
    if late
        then pure (remove_then key (negsuc 1))
        else (do left ← remaining dash clock entry.expires_at; pure (finished left))

  unfoldable pub ttl_first : Bytes → Method dash clock (After ℤ)
  unfolding ttl_first_found
  ttl_first key = do found ← map_get dash clock key; ttl_first_found key found

  -- The second section, if there is one.
  unfoldable pub resume : {A : Type 0} → After A → Method dash clock A
  resume (finished a) = pure a
  resume (remove_then key a) = do map_remove dash clock key; pure a
  resume (remove_for key f) = do removed ← map_remove dash clock key; pure (f removed)

  -- A call of which the first section is `first`, where the others do `meanwhile` behind it.
  unfoldable pub call_with :
      {A : Type 0}
      → (World dash.Map → World dash.Map)
      → Method dash clock (After A)
      → Method dash clock A
  unfolding resume
  call_with meanwhile first w = let (after, w') = first w in resume after (meanwhile w')
