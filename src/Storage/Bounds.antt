-- ===== src/Storage/Bounds.antt =====
-- The deadlines of the store are times that an `Instant` can hold, so that no reply wraps around.
use ralphdb.Prelude.{
  ℕ, ◌+◌, ◌≡◌, refl, Option, none, some, Bool, true, false, List, [], ◌∷◌, arith, Bytes, codes, ltb,
  Option-cases, inl, inr, if◌then◌else◌,
}
use ralphdb.Prelude.Int.{ℤ}
use ralphdb.Text.Utf8.{from_utf8}
use ralphdb.Text.Decimal.{print_i64}
use ralphdb.Storage.Map.{DashMap}
use ralphdb.Storage.Ops.{
  Entry, World, new_entry, instant_limit, set, get, del_key, del_loop, expire, ttl, incr_by, mget,
  mset, checked_add_instant, checked_add_i64, Method, ◌>>◌, parse_value, add_to, store_sum,
  map_insert, expired_at,
}

abbrev pub in_time : Option ℕ → Bool
in_time none = true
in_time (some deadline) = ltb deadline instant_limit

abbrev pub fits : Option Entry → Bool
fits none = true
fits (some entry) = in_time entry.expires_at

module _ (dash : DashMap Entry) (clock : ℕ → ℕ) where
  abbrev pub Fits : World dash.Map → Type 0
  Fits w = (j : Bytes) → fits (dash.find w.inner j) ≡ true

  pub get-Fits : (key : Bytes) (w : World dash.Map) → Fits w → Fits (get dash clock key w).1
  unfolding get
  get-Fits key w h j = ground (arith, h j, dash.find-remove w.inner key j)

  del_key-Fits : (key : Bytes) (w : World dash.Map) → Fits w → Fits (del_key dash clock key w).1
  unfolding del_key
  del_key-Fits key w h j = ground (arith, h j, dash.find-remove w.inner key j)

  pub ttl-Fits : (key : Bytes) (w : World dash.Map) → Fits w → Fits (ttl dash clock key w).1
  unfolding ttl
  ttl-Fits key w h j = ground (arith, h j, dash.find-remove w.inner key j)

  pub set-Fits :
      (key value : Bytes) (w : World dash.Map) → Fits w → Fits (set dash clock key value w).1
  unfolding set
  set-Fits key value w h j = ground (arith, h j, dash.find-insert w.inner key j (new_entry value))

  insert-Fits :
      (key : Bytes) (entry : Entry) (w : World dash.Map)
      → in_time entry.expires_at ≡ true
      → Fits w
      → Fits (map_insert dash clock key entry w).1
  insert-Fits key entry w e h j = ground (arith, h j, dash.find-insert w.inner key j entry)

  expired_at-Fits :
      (deadline : Option ℕ) (w : World dash.Map) → Fits w → Fits (expired_at clock deadline w).1
  expired_at-Fits none w h = h
  expired_at-Fits (some _) w h = h

  Fits-if :
      {A : Type 0} (b : Bool) (x y : Method dash clock A) (w : World dash.Map)
      → Fits (x w).1
      → Fits (y w).1
      → Fits ((if b then x else y) w).1
  Fits-if true x y w h h' = h
  Fits-if false x y w h h' = h'

  store_sum-Fits :
      (key : Bytes) (entry : Entry) (sum : Option ℤ) (w : World dash.Map)
      → in_time entry.expires_at ≡ true
      → Fits w
      → Fits (store_sum dash clock key entry sum w).1
  store_sum-Fits key entry none w e h = h
  store_sum-Fits key entry (some z) w e h =
      insert-Fits key (record entry { value = print_i64 z }) w e h

  add_to-Fits :
      (key : Bytes) (entry : Entry) (delta : ℤ) (current : Option ℤ) (w : World dash.Map)
      → in_time entry.expires_at ≡ true
      → Fits w
      → Fits (add_to dash clock key entry delta current w).1
  add_to-Fits key entry delta none w e h = h
  add_to-Fits key entry delta (some z) w e h =
      store_sum-Fits key entry (checked_add_i64 z delta) w e h

  pub incr_by-Fits :
      (key : Bytes) (delta : ℤ) (w : World dash.Map)
      → Fits w
      → Fits (incr_by dash clock key delta w).1
  unfolding incr_by
  incr_by-Fits key delta w h =
      let fresh = new_entry (codes "0") in
      elim (Option-cases (dash.find w.inner key)) [
        | inl missing ↦
            rw missing (add_to-Fits key fresh delta _ _ refl (insert-Fits key fresh w refl h))
        | inr (entry, found) ↦
            let read = expired_at-Fits entry.expires_at w h in
            let e : in_time entry.expires_at ≡ true = ground (arith, h key) in
            rw found (
              Fits-if (expired_at clock entry.expires_at w).0
                (do
                  map_insert dash clock key fresh
                  add_to dash clock key fresh delta (parse_value (from_utf8 fresh.value)))
                (add_to dash clock key entry delta (parse_value (from_utf8 entry.value)))
                (expired_at clock entry.expires_at w).1
                (add_to-Fits key fresh delta _ _ refl
                  (insert-Fits key fresh (expired_at clock entry.expires_at w).1 refl read))
                (add_to-Fits key entry delta _ _ e read))
      ]

  pub expire-Fits :
      (key : Bytes) (duration : ℕ) (w : World dash.Map)
      → Fits w
      → Fits (expire dash clock key duration w).1
  unfolding expire checked_add_instant
  expire-Fits key duration w h j = elim (Option-cases (dash.find w.inner key)) [
    | inl missing ↦ ground (arith, h j)
    | inr (entry, found) ↦ ground (
      arith,
      h j,
      dash.find-remove w.inner key j,
      dash.find-insert w.inner key j
          (record entry { expires_at = some (clock w.readings + duration) }),
    )
  ]

  pub del_loop-Fits :
      (keys : List Bytes) (n : ℕ) (w : World dash.Map)
      → Fits w
      → Fits (del_loop dash clock n keys w).1
  unfolding del_loop
  del_loop-Fits [] n w h = h
  del_loop-Fits (key ∷ keys) n w h =
      del_loop-Fits keys _ (del_key dash clock key w).1 (del_key-Fits key w h)

  pub mget-Fits :
      (keys : List Bytes) (w : World dash.Map) → Fits w → Fits (mget dash clock keys w).1
  unfolding mget
  mget-Fits [] w h = h
  mget-Fits (key ∷ keys) w h = mget-Fits keys (get dash clock key w).1 (get-Fits key w h)

  pub mset-Fits :
      (pairs : List (Bytes × Bytes)) (w : World dash.Map)
      → Fits w
      → Fits (mset dash clock pairs w).1
  unfolding mset
  mset-Fits [] w h = h
  mset-Fits ((key, value) ∷ pairs) w h =
      mset-Fits pairs (set dash clock key value w).1 (set-Fits key value w h)
