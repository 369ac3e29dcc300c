-- ===== src/Command/Handlers.antt =====
-- The handlers of the commands. One that calls the store is an action on it; one that changes the
-- connection returns the new state.
use ralphdb.Prelude.{
  ℕ, suc, ◌*◌, ◌^◌, Bool, true, false, Option, none, some, List, [], ◌∷◌, ◌++◌, Bytes, codes,
  bytes_eq, ltb, ◌==◌, if◌then◌else◌,
}
use ralphdb.Prelude.Int.{ℤ, pos, ltb_ℤ, pos_part}
use ralphdb.Text.Utf8.{from_utf8, from_utf8_lossy}
use ralphdb.Text.Ascii.{to_ascii_lowercase}
use ralphdb.Text.Decimal.{parse_unsigned, map_option}
use ralphdb.Protocol.Frame.{
  Frame, simple_string, integer, bulk_string, array, null, frames, pairs, resp2, resp3,
}
use ralphdb.Storage.Map.{DashMap}
use ralphdb.Storage.Ops
use ralphdb.Storage.Ops.{
  Entry, Result, StorageError, Action, pure, ◌>>=◌, ◌>>◌, parse_value, nanos_per_sec, as_i64,
  is_some,
}
use ralphdb.Command.Types.{ConnectionState, CommandResult, ok, failure, error_bytes}
use ralphdb.Command.Config.{pkg_version, pkg_name, and_then}

unfoldable pub ping : List Bytes → CommandResult
ping [] = ok (simple_string (codes "PONG"))
ping (message ∷ []) = ok (bulk_string (some message))
ping _ = failure "ERR wrong number of arguments for 'ping' command"

unfoldable pub echo : List Bytes → CommandResult
echo (message ∷ []) = ok (bulk_string (some message))
echo _ = failure "ERR wrong number of arguments for 'echo' command"

abbrev pub text : Bytes → Frame
text t = simple_string t

-- The reply to HELLO 3.
unfoldable pub hello_map : ℤ → Frame
hello_map id = Frame.map (
    pairs (
      (text (codes "server"), text (codes "ralphdb"))
      ∷ (text (codes "version"), text pkg_version)
      ∷ (text (codes "proto"), integer (pos 3))
      ∷ (text (codes "id"), integer id)
      ∷ (text (codes "mode"), text (codes "standalone"))
      ∷ (text (codes "role"), text (codes "primary"))
      ∷ (text (codes "modules"), array (frames []))
      ∷ []))

unfoldable pub hello_version : Option ℕ → ConnectionState → CommandResult × ConnectionState
unfolding hello_map
hello_version none state = (failure "ERR unsupported RESP version", state)
hello_version (some version) state =
    if version == 3
    then (ok (hello_map state.client_id), record state { protocol = resp3 })
    else if version == 2
    then (ok (text (codes "OK")), record state { protocol = resp2 })
    else (failure "ERR unsupported RESP version", state)

-- `parse::<u8>` of a valid text.
unfoldable pub parse_version : Bytes → Option ℕ
unfolding from_utf8 parse_unsigned
parse_version value = and_then (from_utf8 value) (parse_unsigned (2 ^ 8))

unfoldable pub hello : List Bytes → ConnectionState → CommandResult × ConnectionState
unfolding hello_version parse_version
hello [] state = hello_version (some 2) state
hello (version ∷ []) state = hello_version (parse_version version) state
hello _ state = (failure "ERR wrong number of arguments for 'hello' command", state)

abbrev pub bulk_or_null : Option Bytes → Frame
bulk_or_null none = null
bulk_or_null (some bytes) = bulk_string (some bytes)

abbrev pub bool_integer : Bool → Frame
bool_integer true = integer (pos 1)
bool_integer false = integer (pos 0)

abbrev pub counter_reply : Result ℤ → CommandResult
counter_reply (Result.ok value) = ok (integer value)
counter_reply (Result.err e) = failure "ERR value is not an integer or out of range"

abbrev pub bulks_or_nulls : List (Option Bytes) → List Frame
bulks_or_nulls [] = []
bulks_or_nulls (v ∷ vs) = bulk_or_null v ∷ bulks_or_nulls vs

-- `chunks(2)`, where the number of arguments is even; `none` for an odd number.
abbrev pub chunks_of_two : List Bytes → Option (List (Bytes × Bytes))
chunks_of_two [] = some []
chunks_of_two (key ∷ []) = none
chunks_of_two (key ∷ value ∷ rest) = map_option (λ ps. (key, value) ∷ ps) (chunks_of_two rest)

module _ (dash : DashMap Entry) (clock : ℕ → ℕ) where
  abbrev pub Handler : Type 0
  Handler = Action dash.Map CommandResult

  unfoldable pub set : List Bytes → Handler
  set (key ∷ value ∷ _) = do Ops.set dash clock key value; pure (ok (text (codes "OK")))
  set _ = pure (failure "ERR wrong number of arguments for 'set'")

  unfoldable pub get : List Bytes → Handler
  get (key ∷ []) = do value ← Ops.get dash clock key; pure (ok (bulk_or_null value))
  get _ = pure (failure "ERR wrong number of arguments for 'get'")

  unfoldable pub del : List Bytes → Handler
  del [] = pure (failure "ERR wrong number of arguments for 'del'")
  del (key ∷ keys) = do count ← Ops.del dash clock (key ∷ keys); pure (ok (integer (as_i64 count)))

  unfoldable pub count_existing : List Bytes → Action dash.Map ℕ
  count_existing [] = pure 0
  count_existing (key ∷ keys) = do
    there ← Ops.exists dash clock key
    count ← count_existing keys
    pure (if there then suc count else count)

  unfoldable pub exists : List Bytes → Handler
  unfolding count_existing
  exists [] = pure (failure "ERR wrong number of arguments for 'exists'")
  exists (key ∷ keys) = do count ← count_existing (key ∷ keys); pure (ok (integer (as_i64 count)))

  unfoldable pub incr : List Bytes → Handler
  incr (key ∷ []) = do r ← Ops.incr dash clock key; pure (counter_reply r)
  incr _ = pure (failure "ERR wrong number of arguments for 'incr'")

  unfoldable pub decr : List Bytes → Handler
  decr (key ∷ []) = do r ← Ops.decr dash clock key; pure (counter_reply r)
  decr _ = pure (failure "ERR wrong number of arguments for 'decr'")

  unfoldable pub mget : List Bytes → Handler
  mget [] = pure (failure "ERR wrong number of arguments for 'mget'")
  mget (key ∷ keys) = do
    values ← Ops.mget dash clock (key ∷ keys)
    pure (ok (array (frames (bulks_or_nulls values))))

  abbrev pub mset_pairs : Option (List (Bytes × Bytes)) → Handler
  mset_pairs none = pure (failure "ERR wrong number of arguments for 'mset'")
  mset_pairs (some ps) = do Ops.mset dash clock ps; pure (ok (text (codes "OK")))

  unfoldable pub mset : List Bytes → Handler
  mset [] = pure (failure "ERR wrong number of arguments for 'mset'")
  mset (key ∷ args) = mset_pairs (chunks_of_two (key ∷ args))

  -- A deadline of no seconds or fewer deletes the key at once.
  unfoldable pub expire_in : Bytes → Option ℤ → Handler
  expire_in key none = pure (failure "ERR value is not an integer or out of range")
  expire_in key (some seconds) =
      if ltb_ℤ (pos 0) seconds
      then (do
        done ← Ops.expire dash clock key (pos_part seconds * nanos_per_sec)
        pure (ok (bool_integer done)))
      else (do deleted ← Ops.del dash clock (key ∷ []); pure (ok (bool_integer (ltb 0 deleted))))

  unfoldable pub expire : List Bytes → Handler
  unfolding expire_in from_utf8
  expire (key ∷ seconds ∷ []) = expire_in key (parse_value (from_utf8 seconds))
  expire _ = pure (failure "ERR wrong number of arguments for 'expire'")

  unfoldable pub ttl : List Bytes → Handler
  ttl (key ∷ []) = do seconds ← Ops.ttl dash clock key; pure (ok (integer seconds))
  ttl _ = pure (failure "ERR wrong number of arguments for 'ttl'")

-- The text of INFO.
abbrev pub info_body : Bytes
info_body =
    codes "# Server"
    ++ line_end
    ++ (codes "ralphdb_version:" ++ pkg_version ++ line_end)
    ++ (codes "ralphdb_mode:standalone" ++ line_end)
    ++ (codes "ralphdb_role:primary" ++ line_end)
    ++ (codes "ralphdb_id:" ++ pkg_name ++ line_end)
  where
    line_end : Bytes
    line_end = 13 ∷ 10 ∷ []

unfoldable pub info_section : Bytes → CommandResult
info_section section =
    if bytes_eq section (codes "default")
    then ok (bulk_string (some info_body))
    else if bytes_eq section (codes "server")
    then ok (bulk_string (some info_body))
    else error_bytes (codes "ERR unsupported INFO section '" ++ (section ++ codes "'"))

unfoldable pub info : List Bytes → CommandResult
unfolding info_section from_utf8_lossy to_ascii_lowercase
info [] = info_section (codes "default")
info (section ∷ []) = info_section (to_ascii_lowercase (from_utf8_lossy section))
info _ = failure "ERR wrong number of arguments for 'info' command"
