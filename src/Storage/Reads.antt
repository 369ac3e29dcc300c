-- ===== src/Storage/Reads.antt =====
-- `get`, `exists`, `mget` and `ttl` return what is visible when they read the clock, and the
-- removal of late entries, which they do on the way, is never seen.
use ralphdb.Prelude.{
  ℕ, suc, ◌-◌, ◌/◌, ◌≡◌, refl, Option, none, some, List, [], ◌∷◌, arith, Bytes, bytes_eq_iff, ◌∙◌,
  map,
}
use ralphdb.Prelude.Int.{ℤ, negsuc}
use ralphdb.Storage.Map.{DashMap}
use ralphdb.Storage.Ops.{Entry, World, get, exists, ttl, mget, as_i64, nanos_per_sec, is_some}
use ralphdb.Storage.View.{value_of, view, SameFrom}

module _ (dash : DashMap Entry) (clock : ℕ → ℕ) (w : World dash.Map) (key : Bytes) where
  -- `get` returns the value that is visible at the clock reading it makes.
  pub get-view : (get dash clock key w).0 ≡ value_of (view dash w (clock w.readings) key)
  unfolding get
  get-view = ground arith

  -- From the clock reading of `get` on, the store looks as before: the removal of a late entry is
  -- invisible.
  pub get-SameFrom : SameFrom dash (clock w.readings) w (get dash clock key w).1
  unfolding get
  get-SameFrom t' j le = ground (arith, dash.find-remove w.inner key j, bytes_eq_iff key j)

  -- `exists` tells whether the key is visible at the clock reading it makes.
  pub exists-view : (exists dash clock key w).0 ≡ is_some (view dash w (clock w.readings) key)
  unfolding exists
  exists-view = ground arith

  -- From that reading on nothing else is to be seen of `exists`.
  pub exists-SameFrom : SameFrom dash (clock w.readings) w (exists dash clock key w).1
  unfolding exists
  exists-SameFrom = get-SameFrom

  -- Redis' reply: -2 for no key, -1 for no deadline, else the whole seconds that are left.
  abbrev pub ttl_of : ℕ → Option Entry → ℤ
  ttl_of t none = negsuc 1
  ttl_of t (some entry) = elim entry.expires_at [
    | none ↦ negsuc 0
    | some expiry ↦ as_i64 ((expiry - t) / nanos_per_sec)
  ]

  -- `ttl` gives the reply for what is visible at its first clock reading, with the seconds that are
  -- left at its second.
  pub ttl-view :
      (ttl dash clock key w).0
      ≡ ttl_of (clock (suc w.readings)) (view dash w (clock w.readings) key)
  unfolding ttl
  ttl-view = ground arith

  -- From the first clock reading of `ttl` on, the store looks as before: the removal of a late entry
  -- is invisible.
  pub ttl-SameFrom : SameFrom dash (clock w.readings) w (ttl dash clock key w).1
  unfolding ttl
  ttl-SameFrom t' j le = ground (arith, dash.find-remove w.inner key j, bytes_eq_iff key j)

-- A clock that stands still.
module _ (dash : DashMap Entry) (clock : ℕ → ℕ) (t : ℕ) (frozen : (n : ℕ) → clock n ≡ t) where
  get_frozen : (w : World dash.Map) (key : Bytes) → SameFrom dash t w (get dash clock key w).1
  get_frozen w key t' j le = get-SameFrom dash clock w key t' j (omega (arith, frozen w.readings))

  -- While the clock stands at `t`, `mget` changes nothing that can be seen from `t` on.
  pub mget-SameFrom :
      (w : World dash.Map) (keys : List Bytes) → SameFrom dash t w (mget dash clock keys w).1
  unfolding mget
  mget-SameFrom w [] t' j le = refl
  mget-SameFrom w (key ∷ keys) t' j le =
      mget-SameFrom (get dash clock key w).1 keys t' j le ∙ get_frozen w key t' j le

  -- While the clock stands at `t`, `mget` returns the values that are visible at `t`, key by key.
  pub mget-view :
      (w : World dash.Map) (keys : List Bytes)
      → (mget dash clock keys w).0 ≡ map (λ k. value_of (view dash w t k)) keys
  unfolding mget
  mget-view w [] = refl
  mget-view w (key ∷ keys) = cc (
    get-view dash clock w key,
    frozen w.readings,
    mget-view (get dash clock key w).1 keys,
    same_map keys,
  )
    where
      same_map :
          (ks : List Bytes)
          → map (λ k. value_of (view dash (get dash clock key w).1 t k)) ks
            ≡ map (λ k. value_of (view dash w t k)) ks
      same_map [] = refl
      same_map (k ∷ ks) = cc (get_frozen w key t k (omega arith), same_map ks)
