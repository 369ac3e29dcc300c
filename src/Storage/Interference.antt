-- ===== src/Storage/Interference.antt =====
-- Calls of the store's methods while other threads change the map between their sections.
use ralphdb.Prelude.{
  ℕ, ◌≡◌, none, some, true, arith, Bytes, bytes_eq, bytes_eq_refl, ◌&&◌, if◌then◌else◌,
}
use ralphdb.Prelude.Int.{negsuc}
use ralphdb.Storage.Map.{DashMap}
use ralphdb.Storage.Ops.{Entry, World, new_entry, set, get, del_key, expire, ttl, stale, Method}
use ralphdb.Storage.Sections.{
  After, remove_then, resume, call_with, get_first, del_first, expire_first, ttl_first,
}

module _ (dash : DashMap Entry) (m : dash.Map) (key : Bytes) where
  find-remove_self : dash.find (dash.remove m key).1 key ≡ none
  find-remove_self = ground (arith, dash.find-remove m key key, bytes_eq_refl key)

  find-insert_self : (entry : Entry) → dash.find (dash.insert m key entry) key ≡ some entry
  find-insert_self entry = ground (arith, dash.find-insert m key key entry, bytes_eq_refl key)

module _ (dash : DashMap Entry) (clock : ℕ → ℕ) (w : World dash.Map) (key : Bytes) where
  -- Where nobody interferes, the two sections of each of the four calls are the whole method: the
  -- same result, map and clock.
  pub call_with_alone :
      (duration : ℕ)
      → (call_with dash clock (λ v. v) (get_first dash clock key) w ≡ get dash clock key w)
        × (call_with dash clock (λ v. v) (del_first dash clock key) w ≡ del_key dash clock key w)
        × (call_with dash clock (λ v. v) (expire_first dash clock key duration) w
            ≡ expire dash clock key duration w)
        × (call_with dash clock (λ v. v) (ttl_first dash clock key) w ≡ ttl dash clock key w)
  unfolding call_with get_first del_first expire_first ttl_first get del_key expire ttl
  call_with_alone duration = (ground arith, ground arith, ground arith, ground arith)

  module _ (meanwhile : World dash.Map → World dash.Map) where
    -- Whatever other threads do between the two sections, get, expire and ttl return what they
    -- return when they are alone.
    pub results_between :
        (duration : ℕ)
        → ((call_with dash clock meanwhile (get_first dash clock key) w).0
            ≡ (get dash clock key w).0)
          × ((call_with dash clock meanwhile (expire_first dash clock key duration) w).0
              ≡ (expire dash clock key duration w).0)
          × ((call_with dash clock meanwhile (ttl_first dash clock key) w).0
              ≡ (ttl dash clock key w).0)
    unfolding call_with get_first expire_first ttl_first get expire ttl
    results_between duration = (ground arith, ground arith, ground arith)

    -- Whatever other threads do between the two sections of get, it takes nothing from what they
    -- leave but its own key, and that only if the entry was late in the first section.
    pub find_between :
        (j : Bytes)
        → dash.find (call_with dash clock meanwhile (get_first dash clock key) w).1.inner j ≡ (
            if (stale dash clock (dash.find w.inner key) w).0 && bytes_eq key j
            then none
            else dash.find (meanwhile (get_first dash clock key w).1).inner j)
    unfolding call_with get_first stale
    find_between j =
        ground (arith, dash.find-remove (meanwhile (get_first dash clock key w).1).inner key j)

  -- A value set between the two sections of a get or a ttl of a late key is lost, while it is kept
  -- when the set comes before the whole call or after it.
  pub lost_set :
      (value : Bytes)
      → (stale dash clock (dash.find w.inner key) w).0 ≡ true
      → (dash.find
            (call_with dash clock
              (λ v. (set dash clock key value v).1)
              (get_first dash clock key)
              w).1.inner
            key
          ≡ none)
        × (dash.find
              (call_with dash clock
                (λ v. (set dash clock key value v).1)
                (ttl_first dash clock key)
                w).1.inner
              key
            ≡ none)
        × (dash.find (set dash clock key value (get dash clock key w).1).1.inner key
            ≡ some (new_entry value))
        × (dash.find (get dash clock key (set dash clock key value w).1).1.inner key
            ≡ some (new_entry value))
        × (dash.find (set dash clock key value (ttl dash clock key w).1).1.inner key
            ≡ some (new_entry value))
        × (dash.find (ttl dash clock key (set dash clock key value w).1).1.inner key
            ≡ some (new_entry value))
  unfolding call_with resume get_first ttl_first stale get ttl set
  lost_set value late = (
    lost none (get_first dash clock key) (ground arith),
    lost (negsuc 1) (ttl_first dash clock key) (ground arith),
    find-insert_self dash (get dash clock key w).1.inner key (new_entry value),
    ground (arith, find-insert_self dash w.inner key (new_entry value)),
    find-insert_self dash (ttl dash clock key w).1.inner key (new_entry value),
    ground (arith, find-insert_self dash w.inner key (new_entry value)),
  )
    where
      lost :
          {A : Type 0} (a : A) (first : Method dash clock (After A))
          → (first w).0 ≡ remove_then key a
          → dash.find
              (call_with dash clock (λ v. (set dash clock key value v).1) first w).1.inner
              key
            ≡ none
      lost a first e =
          rw e (find-remove_self dash (set dash clock key value (first w).1).1.inner key)
