-- ===== src/Storage/Writes.antt =====
-- `set`, `mset`, `del` and `expire`: what can be seen after them.
use ralphdb.Prelude.{
  ℕ, suc, ◌+◌, ◌≤◌, ◌≡◌, refl, Bool, true, false, Option, none, some, List, [], ◌∷◌, arith, Bytes,
  bytes_eq, bytes_eq_iff, bytes_eq_refl, ltb, leb, if◌then◌else◌, ◌||◌, ◌&&◌, ◌⊎◌, ◌∙◌,
  Option-cases, inl, inr,
}
use ralphdb.Storage.Map.{DashMap}
use ralphdb.Storage.Ops.{
  Entry, World, new_entry, set, mset, get, del, del_key, del_loop, expire, instant_limit, is_some,
}
use ralphdb.Storage.View.{value_of, view}

module _ (dash : DashMap Entry) (clock : ℕ → ℕ) (w : World dash.Map) where
  -- `set` stores the value with no deadline, whatever was there, and leaves the other keys alone.
  pub find-set :
      (key j value : Bytes)
      → dash.find (set dash clock key value w).1.inner j
        ≡ (if bytes_eq key j then some (new_entry value) else dash.find w.inner j)
  unfolding set
  find-set key j value = dash.find-insert w.inner key j (new_entry value)

  -- A `get` after a `set` of the key returns the value, at any time.
  pub get-set_self :
      (key value : Bytes) → (get dash clock key (set dash clock key value w).1).0 ≡ some value
  unfolding get set
  get-set_self key value =
      ground (arith, dash.find-insert w.inner key key (new_entry value), bytes_eq_refl key)

-- The last pair of a key decides, as far as there is one.
abbrev pub last_value : List (Bytes × Bytes) → Bytes → Option Entry → Option Entry
last_value [] j before = before
last_value ((key, value) ∷ pairs) j before =
    last_value pairs j (if bytes_eq key j then some (new_entry value) else before)

abbrev pub listed : List Bytes → Bytes → Bool
listed [] j = false
listed (key ∷ keys) j = bytes_eq key j || listed keys j

module _ (dash : DashMap Entry) (clock : ℕ → ℕ) where
  -- After `mset` each key holds the last value given for it, with no deadline, and keys that are
  -- not given are as before.
  pub find-mset :
      (pairs : List (Bytes × Bytes)) (w : World dash.Map) (j : Bytes)
      → dash.find (mset dash clock pairs w).1.inner j ≡ last_value pairs j (dash.find w.inner j)
  unfolding mset
  find-mset [] w j = refl
  find-mset ((key, value) ∷ pairs) w j =
      rw (find-mset pairs (set dash clock key value w).1 j, find-set dash clock w key j value)

  find-del_key :
      (w : World dash.Map) (key j : Bytes)
      → dash.find (del_key dash clock key w).1.inner j
        ≡ (if bytes_eq key j then none else dash.find w.inner j)
  unfolding del_key
  find-del_key w key j = ground (arith, dash.find-remove w.inner key j)

  find-del_loop :
      (n : ℕ) (keys : List Bytes) (w : World dash.Map) (j : Bytes)
      → dash.find (del_loop dash clock n keys w).1.inner j
        ≡ (if listed keys j then none else dash.find w.inner j)
  unfolding del_loop
  find-del_loop n [] w j = refl
  find-del_loop n (key ∷ keys) w j =
      find-del_loop (if (del_key dash clock key w).0 then n + 1 else n) keys
        (del_key dash clock key w).1 j
      ∙ ground (arith, find-del_key w key j)

  -- After `del` none of the keys is in the map, and the others are as before.
  pub find-del :
      (keys : List Bytes) (w : World dash.Map) (j : Bytes)
      → dash.find (del dash clock keys w).1.inner j
        ≡ (if listed keys j then none else dash.find w.inner j)
  unfolding del
  find-del keys w j = find-del_loop 0 keys w j

-- How many of the keys are visible, where a key is no more so after it was counted.
abbrev pub count_visible : (Bytes → Bool) → List Bytes → ℕ
count_visible visible [] = 0
count_visible visible (key ∷ keys) =
    (if visible key then 1 else 0)
    + count_visible (λ j. if bytes_eq key j then false else visible j) keys

module _ (dash : DashMap Entry) (clock : ℕ → ℕ) (t : ℕ) (frozen : (n : ℕ) → clock n ≡ t) where
  del_key-view :
      (w : World dash.Map) (key : Bytes)
      → (del_key dash clock key w).0 ≡ is_some (view dash w t key)
  unfolding del_key
  del_key-view w key = ground (arith, frozen w.readings, dash.remove-found w.inner key)

  view-del_key :
      (w : World dash.Map) (key j : Bytes)
      → is_some (view dash (del_key dash clock key w).1 t j)
        ≡ (if bytes_eq key j then false else is_some (view dash w t j))
  view-del_key w key j = ground (arith, find-del_key dash clock w key j)

  count-del_loop :
      (n : ℕ) (keys : List Bytes) (w : World dash.Map) (visible : Bytes → Bool)
      → ((j : Bytes) → visible j ≡ is_some (view dash w t j))
      → (del_loop dash clock n keys w).0 ≡ n + count_visible visible keys
  unfolding del_loop
  count-del_loop n [] w visible h = omega arith
  count-del_loop n (key ∷ keys) w visible h =
      let w' = (del_key dash clock key w).1 in
      let visible' = λ (j : Bytes). if bytes_eq key j then false else visible j in
      let h' = λ (j : Bytes).
        let e : visible' j ≡ is_some (view dash w' t j) =
          ground (arith, h j, view-del_key w key j) in
        e in
      ground (
        arith,
        h key,
        del_key-view w key,
        count-del_loop n keys w' visible' h',
        count-del_loop (n + 1) keys w' visible' h',
      )

  -- While the clock stands at `t`, `del` returns how many of the keys are visible at `t`, a key that
  -- is given twice being counted once.
  pub del-count :
      (keys : List Bytes) (w : World dash.Map)
      → (del dash clock keys w).0 ≡ count_visible (λ j. is_some (view dash w t j)) keys
  unfolding del
  del-count keys w =
      count-del_loop 0 keys w (λ j. is_some (view dash w t j)) (λ j. refl) ∙ omega arith

-- `expire` reads the clock for the deadline and, if the key has one already, once more.
module _ (dash : DashMap Entry) (clock : ℕ → ℕ) (w : World dash.Map) (key : Bytes)
    (duration : ℕ) where
  -- `expire` succeeds exactly if the deadline can be represented and the key is visible at the
  -- second clock reading.
  pub expire-view : (expire dash clock key duration w).0 ≡ (
      ltb (clock w.readings + duration) instant_limit
      && is_some (view dash w (clock (suc w.readings)) key))
  unfolding expire
  expire-view = ground arith

  -- After an `expire` that succeeds the key is visible, with the value that it had, exactly before
  -- the time of the call plus the duration.
  pub expire-deadline :
      (t : ℕ)
      → (expire dash clock key duration w).0 ≡ true
      → value_of (view dash (expire dash clock key duration w).1 t key) ≡ (
          if leb (clock w.readings + duration) t
          then none
          else value_of (view dash w (clock (suc w.readings)) key))
  unfolding expire
  expire-deadline t h = elim (Option-cases (dash.find w.inner key)) [
    | inl missing ↦ ground arith
    | inr (entry, found) ↦
        let renewed = record entry { expires_at = some (clock w.readings + duration) } in
        ground (arith, dash.find-insert w.inner key key renewed, bytes_eq_refl key)
  ]

  -- What `expire` does to other keys is not seen, and no more is an `expire` that fails.
  pub expire-frame :
      (t : ℕ) (j : Bytes)
      → clock (suc w.readings) ≤ t
      → ((expire dash clock key duration w).0 ≡ false) ⊎ (bytes_eq key j ≡ false)
      → view dash (expire dash clock key duration w).1 t j ≡ view dash w t j
  unfolding expire
  expire-frame t j le h = elim (Option-cases (dash.find w.inner key)) [
    | inl missing ↦ ground arith
    | inr (entry, found) ↦
        let renewed = record entry { expires_at = some (clock w.readings + duration) } in
        ground (
          arith,
          dash.find-insert w.inner key j renewed,
          dash.find-remove w.inner key j,
          bytes_eq_iff key j,
        )
  ]
