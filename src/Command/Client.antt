-- ===== src/Command/Client.antt =====
-- The CLIENT subcommands.
use ralphdb.Prelude.{Option, none, some, List, [], ◌∷◌, ◌++◌, Bytes, codes, bytes_eq, if◌then◌else◌}
use ralphdb.Text.Utf8.{from_utf8_lossy}
use ralphdb.Text.Ascii.{to_ascii_uppercase}
use ralphdb.Text.Decimal.{print_i64}
use ralphdb.Protocol.Frame.{
  Frame, Pairs, simple_string, integer, push, frames, pairs, ProtocolVersion, resp2, resp3,
}
use ralphdb.Command.Types.{ConnectionState, CommandResult, ok, with_attributes, failure}
use ralphdb.Command.Handlers.{text, bulk_or_null}

abbrev pub protocol_text : ProtocolVersion → Bytes
protocol_text resp3 = codes "RESP3"
protocol_text resp2 = codes "RESP2"

abbrev name_part : Option Bytes → Bytes
name_part none = codes " name=(null)"
name_part (some name) = codes " name=" ++ from_utf8_lossy name

unfoldable pub client_list_summary : ConnectionState → Bytes
unfolding print_i64 from_utf8_lossy
client_list_summary state =
    (codes "id=" ++ print_i64 state.client_id)
    ++ (name_part state.client_name ++ (codes " protocol=" ++ protocol_text state.protocol))

unfoldable pub client_setname : List Bytes → ConnectionState → CommandResult × ConnectionState
client_setname (name ∷ []) state =
    (ok (text (codes "OK")), record state { client_name = some name })
client_setname _ state = (failure "ERR wrong number of arguments for 'client setname'", state)

unfoldable pub client_getname : ConnectionState → CommandResult
client_getname state = ok (bulk_or_null state.client_name)

unfoldable pub client_id : List Bytes → ConnectionState → CommandResult
client_id [] state = ok (integer state.client_id)
client_id _ state = failure "ERR wrong number of arguments for 'client id'"

-- The attribute that RESP3 clients get in front of the summary.
unfoldable pub client_attribute : ConnectionState → Pairs
client_attribute state =
    let client_map = Frame.map (
      pairs (
        (text (codes "id"), integer state.client_id)
        ∷ (text (codes "name"), bulk_or_null state.client_name)
        ∷ (text (codes "protocol"), text (codes "RESP3"))
        ∷ [])) in
    pairs ((text (codes "client"), push (frames (client_map ∷ []))) ∷ [])

abbrev pub list_reply : ProtocolVersion → ConnectionState → CommandResult
list_reply resp3 state =
    with_attributes (simple_string (client_list_summary state)) (client_attribute state)
list_reply resp2 state = ok (simple_string (client_list_summary state))

unfoldable pub client_list : List Bytes → ConnectionState → CommandResult
unfolding client_list_summary client_attribute
client_list [] state = list_reply state.protocol state
client_list _ state = failure "ERR wrong number of arguments for 'client list'"

abbrev pub getname_reply : List Bytes → ConnectionState → CommandResult
getname_reply [] state = client_getname state
getname_reply _ state = failure "ERR wrong number of arguments for 'client getname'"

unfoldable pub client_subcommand :
    Bytes → List Bytes → ConnectionState → CommandResult × ConnectionState
unfolding client_setname client_getname client_list client_id
client_subcommand subcommand args state =
    if bytes_eq subcommand (codes "SETNAME")
    then client_setname args state
    else if bytes_eq subcommand (codes "GETNAME")
    then (getname_reply args state, state)
    else if bytes_eq subcommand (codes "LIST")
    then (client_list args state, state)
    else if bytes_eq subcommand (codes "ID")
    then (client_id args state, state)
    else (failure "ERR unknown CLIENT subcommand", state)

unfoldable pub client : List Bytes → ConnectionState → CommandResult × ConnectionState
unfolding client_subcommand from_utf8_lossy to_ascii_uppercase
client [] state = (failure "ERR wrong number of arguments for 'client' command", state)
client (subcommand ∷ args) state =
    client_subcommand (to_ascii_uppercase (from_utf8_lossy subcommand)) args state
