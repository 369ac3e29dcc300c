-- ===== src/Storage/View.antt =====
-- What a client can see of the store: at a time, the entries whose deadline has not come.
use ralphdb.Prelude.{
  ℕ, suc, ◌≤◌, ◌≡◌, Bool, true, false, Option, none, some, arith, Bytes, leb, if◌then◌else◌,
}
use ralphdb.Storage.Map.{DashMap}
use ralphdb.Storage.Ops.{Entry, World}

-- The deadline has come.
abbrev pub passed : ℕ → Option ℕ → Bool
passed t none = false
passed t (some expiry) = leb expiry t

abbrev pub live : ℕ → Option Entry → Option Entry
live t none = none
live t (some entry) = if passed t entry.expires_at then none else some entry

abbrev pub value_of : Option Entry → Option Bytes
value_of none = none
value_of (some entry) = some entry.value

-- `Instant::now` never goes back.
abbrev pub IsMonotone : (ℕ → ℕ) → Type 0
IsMonotone clock = (n : ℕ) → clock n ≤ clock (suc n)

module _ (dash : DashMap Entry) where
  abbrev pub view : World dash.Map → ℕ → Bytes → Option Entry
  view w t key = live t (dash.find w.inner key)

  -- From `t` on, a client sees the same in both states.
  abbrev pub SameFrom : ℕ → World dash.Map → World dash.Map → Type 0
  SameFrom t w w' = (t' : ℕ) (key : Bytes) → t ≤ t' → view w' t' key ≡ view w t' key

-- What has come stays so.
pub passed_later : (t t' : ℕ) (d : Option ℕ) → t ≤ t' → passed t d ≡ true → passed t' d ≡ true
passed_later t t' none le h = cc
passed_later t t' (some d) le h = ground arith
