-- ===== src/Command/Effects.antt =====
-- Commands one after the other: what one stores, the next one sees.
use ralphdb.Prelude.{
  ℕ, ◌≡◌, refl, false, none, some, [], ◌∷◌, arith, Bytes, codes, if◌then◌else◌, bytes_eq, ◌∙◌,
}
use ralphdb.Prelude.Int.{ℤ, pos, ltb_ℤ}
use ralphdb.Protocol.Frame.{bulk_string}
use ralphdb.Storage.Map.{DashMap}
use ralphdb.Storage.Ops.{Entry, World, parse_value}
use ralphdb.Storage.Writes.{get-set_self, find-del}
use ralphdb.Text.Utf8.{from_utf8}
use ralphdb.Command.Types.{Command, ConnectionState}
use ralphdb.Command.Config.{Host}
use ralphdb.Command.Handlers.{set, get, expire, expire_in}
use ralphdb.Command.Execute.{execute, execute_named}

abbrev pub get_of : Bytes → Command
get_of key = record { name = codes "GET"; args = key ∷ [] }

abbrev pub set_of : Bytes → Bytes → Command
set_of key value = record { name = codes "SET"; args = key ∷ value ∷ [] }

abbrev pub expire_of : Bytes → Bytes → Command
expire_of key seconds = record { name = codes "EXPIRE"; args = key ∷ seconds ∷ [] }

module _ (dash : DashMap Entry) (clock : ℕ → ℕ) (host : Host) where
  -- GET of a key directly after a SET of it replies with the value, on any connection, whatever the
  -- clock says and whatever the key held before.
  pub execute-get_set :
      (key value : Bytes) (setter getter : ConnectionState) (w : World dash.Map)
      → (execute dash clock host
          (get_of key)
          getter
          (execute dash clock host (set_of key value) setter w).1).0.0.response
        ≡ bulk_string (some value)
  unfolding execute execute_named set get
  execute-get_set key value setter getter w =
      let e = get-set_self dash clock w key value in rw e refl

  -- After EXPIRE of a key with an integer that is not positive, the key is not in the map, and the
  -- other keys are as before.
  pub execute-expire_now :
      (key seconds j : Bytes) (state : ConnectionState) (z : ℤ) (w : World dash.Map)
      → parse_value (from_utf8 seconds) ≡ some z
      → ltb_ℤ (pos 0) z ≡ false
      → dash.find (execute dash clock host (expire_of key seconds) state w).1.inner j
        ≡ (if bytes_eq key j then none else dash.find w.inner j)
  unfolding execute execute_named expire expire_in
  execute-expire_now key seconds j state z w parsed not_positive =
      rw (parsed, not_positive) (find-del dash clock (key ∷ []) w j ∙ ground arith)
