-- ===== src/Server/Tests.antt =====
-- A server with a small environment, and a connection with two requests.
use ralphdb.Prelude.{
  ℕ, ◌+◌, ◌≤◌, ◌<◌, ◌≡◌, ◌≢◌, refl, ◌^◌, true, Option, none, some, List, [], ◌∷◌, ◌++◌, arith,
  Bytes, codes, bytes_eq, if◌then◌else◌, length,
}
use ralphdb.Prelude.Int.{pos}
use ralphdb.Text.Decimal.{decimal, parse_unsigned}
use ralphdb.Text.Trim.{trim}
use ralphdb.Protocol.Frame.{Frame, bulk_string, array, frames, Float64, IoError}
use ralphdb.Storage.Map.{DashMap, assoc_map}
use ralphdb.Storage.Ops.{Entry, new_storage}
use ralphdb.Command.Types.{ConnectionState, new_connection}
use ralphdb.Command.Config.{Host, config, unwrap_or}
use ralphdb.Protocol.Reader.{feed}
use ralphdb.Server.Config.{from_env, address}
use ralphdb.Server.Settings.{
  asked, told, config-address, config-threads, config-threads_zero, threads_variable, TimeoutFits,
  from_env-IsValid,
}
use ralphdb.Server.Connection.{Connection, go_on, rounds}
use ralphdb.Server.Words.{round-words}
use ralphdb.Command.Words.{words}
use ralphdb.Text.Utf8.{is_utf8, ascii-is_utf8}
use ralphdb.Text.Ascii.{to_ascii_uppercase}
use ralphdb.Protocol.Encode.{encode_frame}
use ralphdb.Protocol.Frame.{resp3}
use ralphdb.Server.Connection.{round, serve_command}
use ralphdb.Server.Pipeline.{requests, serve_all, rounds-requests}

-- Doubles that are whole numbers.
abbrev pub small : Float64
small = record { from_str = parse_unsigned (2 ^ 64); to_string = decimal }

abbrev pub table : DashMap Entry
table = assoc_map Entry

abbrev pub tick : ℕ → ℕ
tick n = n

-- RALPHDB_THREADS is all that is set, on a machine with eight threads.
abbrev pub machine : Bytes → Host
machine threads = record {
  var = λ name. if bytes_eq name (codes "RALPHDB_THREADS") then some threads else none;
  available_parallelism = some 8;
}

abbrev always : ℕ → Option IoError
always n = none

config-address_example :
    (config (machine (codes " 4 ")) (asked (codes "server.bind"))
      ≡ told (codes "server.bind") (from_env (machine (codes " 4 "))).host)
    × (config (machine (codes " 4 ")) (asked (codes "server.port"))
        ≡ told (codes "server.port") (decimal (from_env (machine (codes " 4 "))).port))
    × (address (from_env (machine (codes " 4 ")))
        ≡ (from_env (machine (codes " 4 "))).host
          ++ b':' ∷ decimal (from_env (machine (codes " 4 "))).port)
config-address_example = config-address (machine (codes " 4 "))

four_threads : threads_variable (machine (codes " 4 ")) ≡ some 4
unfolding trim parse_unsigned
four_threads = refl

eight_positive : (n : ℕ) → (machine (codes " 4 ")).available_parallelism ≡ some n → 1 ≤ n
eight_positive n h = ground arith

four_ne_zero : threads_variable (machine (codes " 4 ")) ≢ some 0
four_ne_zero h = cc (h, four_threads)

config-threads_example :
    config (machine (codes " 4 ")) (asked (codes "server.threads"))
    ≡ told (codes "server.threads") (decimal (from_env (machine (codes " 4 "))).threads)
config-threads_example = config-threads (machine (codes " 4 ")) eight_positive four_ne_zero

zero_threads : threads_variable (machine (codes "0")) ≡ some 0
unfolding trim parse_unsigned
zero_threads = refl

config-threads_zero_example :
    ((from_env (machine (codes "0"))).threads ≡ 1)
    × (config (machine (codes "0")) (asked (codes "server.threads"))
        ≡ told (codes "server.threads") (decimal (unwrap_or (some 8) 1)))
config-threads_zero_example = config-threads_zero (machine (codes "0")) zero_threads

from_env-IsValid_example :
    (1 ≤ (from_env (machine (codes "0"))).threads)
    × ((from_env (machine (codes "0"))).port < 2 ^ 16)
    × ((from_env (machine (codes "0"))).host ≢ [])
    × TimeoutFits (from_env (machine (codes "0"))).idle_timeout
from_env-IsValid_example = from_env-IsValid (machine (codes "0"))

abbrev fresh : ConnectionState
fresh = (new_connection (pos 1)).0

-- SET n 1 and INCR n.
abbrev word : Bytes → Frame
word bytes = bulk_string (some bytes)

abbrev batch : List Frame
batch =
    array (frames (word (codes "SET") ∷ word (codes "n") ∷ word (codes "1") ∷ []))
    ∷ array (frames (word (codes "INCR") ∷ word (codes "n") ∷ []))
    ∷ []

abbrev start : Connection table.Map
start = record {
  input = requests small batch [];
  session = fresh;
  store = new_storage table;
  sent = [];
  flushes = 0;
}

rounds-requests_example :
    rounds small table tick (machine (codes "4")) always (length batch + 1) start
    ≡ go_on small table tick
        (machine (codes "4"))
        always
        (serve_all small table tick (machine (codes "4")) always batch [] start)
        (rounds small table tick (machine (codes "4")) always 1)
rounds-requests_example =
    rounds-requests small table tick (machine (codes "4")) always batch [] 1 start (ground arith)
      refl

ping_utf8 : is_utf8 (codes "ping") ≡ true
ping_utf8 = ascii-is_utf8 (codes "ping") (ground arith)

abbrev greeting : Connection table.Map
greeting = record {
  input =
      feed (encode_frame small (array (frames (words (codes "ping" ∷ codes "hi" ∷ [])))) resp3).out
        [];
  session = fresh;
  store = new_storage table;
  sent = [];
  flushes = 0;
}

round-words_example :
    round small table tick (machine (codes "4")) always greeting
    ≡ serve_command small table tick
        (machine (codes "4"))
        always
        (record { name = to_ascii_uppercase (codes "ping"); args = codes "hi" ∷ [] })
        (record greeting { input = [] })
round-words_example =
    round-words small table tick (machine (codes "4")) always (codes "ping") (codes "hi" ∷ []) []
      greeting ping_utf8 (ground arith) (omega arith) refl
