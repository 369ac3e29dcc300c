-- ===== src/Command/Tests.antt =====
-- Commands on small examples.
use ralphdb.Prelude.{
  refl, ℕ, ◌≡◌, ◌≢◌, ◌↔◌, ◌^◌, Bool, true, bytes_eq, if◌then◌else◌, none, [], ◌∷◌, codes, arith,
}
use ralphdb.Prelude.Int.{pos}
use ralphdb.Text.Decimal.{decimal, parse_unsigned}
use ralphdb.Protocol.Frame.{Float64, array, frames, resp2}
use ralphdb.Protocol.Encode.{encode_response}
use ralphdb.Storage.Map.{DashMap, assoc_map}
use ralphdb.Storage.Ops.{Entry, new_storage}
use ralphdb.Command.Types.{Command, ConnectionState, new_connection}
use ralphdb.Command.Pattern.{decided, matches_pattern}
use ralphdb.Command.Pattern.Matches.{Matches}
use ralphdb.Command.Pattern.Decides.{matches_pattern_iff}
use ralphdb.Command.Config.{Host}
use ralphdb.Command.Execute.{execute}
use ralphdb.Command.Effects.{get_of, set_of, expire_of, execute-get_set, execute-expire_now}
use ralphdb.Prelude.{some, not, ◌&&◌}
use ralphdb.Protocol.Frame.{bulk_string}
use ralphdb.Storage.Ops.{parse_value}
use ralphdb.Text.Utf8.{from_utf8}
use ralphdb.Text.Decimal.{parse_i64}
use ralphdb.Command.Session.{
  session_after, is_error, supported, requested, execute-client_id, execute-session,
}
use ralphdb.Command.Parse.{Parsed, from_frame_with_protocol}
use ralphdb.Command.Words.{words, from_frame-words}
use ralphdb.Text.Utf8.{is_utf8, ascii-is_utf8}
use ralphdb.Text.Ascii.{to_ascii_uppercase}
use ralphdb.Command.Replies.Executed.{execute-encodes}

-- Doubles that are whole numbers.
abbrev wholes : Float64
wholes = record { from_str = parse_unsigned (2 ^ 64); to_string = decimal }

abbrev entries : DashMap Entry
entries = assoc_map Entry

abbrev seconds : ℕ → ℕ
seconds n = n

-- No variable is set.
abbrev bare : Host
bare = record { var = λ name. none; available_parallelism = none }

abbrev first_client : ConnectionState
first_client = (new_connection (pos 1)).0

abbrev hello_three : Command
hello_three = record { name = codes "HELLO"; args = codes "3" ∷ [] }

execute-encodes_example :
    (encode_response wholes
      (execute entries seconds bare hello_three first_client (new_storage entries)).0.0.response
      (execute entries seconds bare hello_three first_client (new_storage entries)).0.0.attributes
      (execute entries seconds bare hello_three first_client
        (new_storage entries)).0.1.protocol).failure
    ≡ none
execute-encodes_example =
    execute-encodes wholes entries seconds bare hello_three first_client (new_storage entries)

matches_pattern_iff_example :
    (b : Bool) × (matches_pattern (codes "s*t") (codes "set") ≡ decided b)
    × ((b ≡ true) ↔ ((codes "s*t" ≢ []) × Matches (codes "s*t") (codes "set")))
matches_pattern_iff_example =
    matches_pattern_iff (codes "s*t") (codes "set")
      (ground arith, (ground arith, (ground arith, tt)))

execute-client_id_example :
    (execute entries seconds bare hello_three first_client (new_storage entries)).0.1.client_id
    ≡ first_client.client_id
execute-client_id_example =
    execute-client_id entries seconds bare hello_three first_client (new_storage entries)

execute-session_example :
    ((execute entries seconds bare hello_three first_client (new_storage entries)).0.1
      ≡ session_after hello_three.name hello_three.args first_client)
    × ((bytes_eq hello_three.name (codes "HELLO")
          && is_error
              (execute entries seconds bare hello_three first_client
                (new_storage entries)).0.0.response)
        ≡ (bytes_eq hello_three.name (codes "HELLO")
            && not (supported (requested hello_three.args))))
execute-session_example =
    execute-session entries seconds bare hello_three first_client (new_storage entries)

get_utf8 : is_utf8 (codes "get") ≡ true
get_utf8 = ascii-is_utf8 (codes "get") (ground arith)

from_frame-words_example :
    from_frame_with_protocol wholes (array (frames (words (codes "get" ∷ codes "k" ∷ [])))) resp2
    ≡ Parsed.ok (record { name = to_ascii_uppercase (codes "get"); args = codes "k" ∷ [] })
from_frame-words_example = from_frame-words wholes (codes "get") (codes "k" ∷ []) resp2 get_utf8

execute-get_set_example :
    (execute entries seconds bare
      (get_of (codes "k"))
      first_client
      (execute entries seconds bare
        (set_of (codes "k") (codes "v"))
        first_client
        (new_storage entries)).1).0.0.response
    ≡ bulk_string (some (codes "v"))
execute-get_set_example =
    execute-get_set entries seconds bare (codes "k") (codes "v") first_client first_client
      (new_storage entries)

now_parses : parse_value (from_utf8 (codes "0")) ≡ some (pos 0)
unfolding from_utf8 parse_i64
now_parses = refl

execute-expire_now_example :
    entries.find
      (execute entries seconds bare
        (expire_of (codes "k") (codes "0"))
        first_client
        (new_storage entries)).1.inner
      (codes "k")
    ≡ (if bytes_eq (codes "k") (codes "k")
        then none
        else entries.find (new_storage entries).inner (codes "k"))
execute-expire_now_example =
    execute-expire_now entries seconds bare (codes "k") (codes "0") (codes "k") first_client (pos 0)
      (new_storage entries) now_parses refl
