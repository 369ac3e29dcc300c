-- ===== src/Command/Config.antt =====
-- `config` and the values it shows, which are read from the environment.
use ralphdb.Prelude.{
  ℕ, ◌^◌, Bool, false, not, Option, none, some, List, [], ◌∷◌, Bytes, codes, bytes_eq, is_empty,
  ltb, if◌then◌else◌,
}
use ralphdb.Text.Utf8.{from_utf8, from_utf8_lossy}
use ralphdb.Text.Ascii.{to_ascii_uppercase}
use ralphdb.Text.Decimal.{decimal, parse_unsigned, keep_if, map_option}
use ralphdb.Text.Trim.{trim}
use ralphdb.Protocol.Frame.{Frame, bulk_string, array, frames}
use ralphdb.Command.Types.{CommandResult, ok, failure}
use ralphdb.Command.Pattern.{Verdict, decided, out_of_fuel, matches_pattern}

-- The environment of the process: its variables that are valid text, and the number of threads
-- that the platform reports.
pub record Host : Type 0 where
  pub var : Bytes → Option Bytes
  pub available_parallelism : Option ℕ

-- `CARGO_PKG_VERSION` and `CARGO_PKG_NAME`, from Cargo.toml.
abbrev pub pkg_version : Bytes
pkg_version = codes "0.1.0"

abbrev pub pkg_name : Bytes
pkg_name = codes "ralphdb"

abbrev pub and_then {ℓ κ} : {A : Type ℓ} {B : Type κ} → Option A → (A → Option B) → Option B
and_then none f = none
and_then (some a) f = f a

abbrev pub unwrap_or {ℓ} : {A : Type ℓ} → Option A → A → A
unwrap_or none d = d
unwrap_or (some a) d = a

-- A `usize` has 64 bits.
unfoldable pub parse_threads_env_value : Bytes → Option ℕ
unfolding trim parse_unsigned
parse_threads_env_value value = keep_if (λ n. ltb 0 n) (parse_unsigned (2 ^ 64) (trim value))

unfoldable pub parse_host_env_value : Bytes → Option Bytes
unfolding trim
parse_host_env_value value = keep_if (λ t. not (is_empty t)) (some (trim value))

unfoldable pub parse_port_env_value : Bytes → Option Bytes
unfolding trim parse_unsigned decimal
parse_port_env_value value = map_option decimal (parse_unsigned (2 ^ 16) (trim value))

unfoldable pub default_threads : Host → ℕ
unfolding parse_threads_env_value
default_threads host =
    unwrap_or (and_then (host.var (codes "RALPHDB_THREADS")) parse_threads_env_value)
      (unwrap_or host.available_parallelism 1)

unfoldable pub config_entries : Host → List (Bytes × Bytes)
unfolding parse_host_env_value parse_port_env_value default_threads
config_entries host =
    (codes "server.name", codes "ralphdb")
    ∷ (codes "server.version", pkg_version)
    ∷ (
      codes "server.bind",
      unwrap_or (and_then (host.var (codes "RALPHDB_HOST")) parse_host_env_value)
          (codes "127.0.0.1"),
    )
    ∷ (
      codes "server.port",
      unwrap_or (and_then (host.var (codes "RALPHDB_PORT")) parse_port_env_value) (codes "6379"),
    )
    ∷ (codes "server.threads", decimal (default_threads host))
    ∷ (codes "save", codes "900 1 300 10 60 10000")
    ∷ (codes "appendonly", codes "no")
    ∷ []

abbrev pub matched : Verdict → Bool
matched (decided b) = b
matched out_of_fuel = false

unfoldable pub select_entries : Bytes → List (Bytes × Bytes) → List (Bytes × Bytes)
unfolding matches_pattern
select_entries pattern [] = []
select_entries pattern ((key, value) ∷ entries) =
    let rest = select_entries pattern entries in
    if matched (matches_pattern pattern key) then (key, value) ∷ rest else rest

-- The key and the value of each entry, as bulk strings.
abbrev pub entry_frames : List (Bytes × Bytes) → List Frame
entry_frames [] = []
entry_frames ((key, value) ∷ entries) =
    bulk_string (some key) ∷ bulk_string (some value) ∷ entry_frames entries

abbrev pub config_get : Host → Option Bytes → CommandResult
config_get host none = failure "ERR invalid CONFIG GET pattern"
config_get host (some pattern) =
    ok (array (frames (entry_frames (select_entries pattern (config_entries host)))))

unfoldable pub config : Host → List Bytes → CommandResult
unfolding from_utf8_lossy from_utf8 to_ascii_uppercase select_entries config_entries
config host (subcommand ∷ pattern ∷ []) =
    if not (bytes_eq (to_ascii_uppercase (from_utf8_lossy subcommand)) (codes "GET"))
    then failure "ERR only CONFIG GET is supported"
    else config_get host (from_utf8 pattern)
config host _ = failure "ERR wrong number of arguments for 'config' command"
