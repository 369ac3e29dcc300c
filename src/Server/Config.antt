-- ===== src/Server/Config.antt =====
-- `server::Config`. The environment is the `Host` that CONFIG reads too.
use ralphdb.Prelude.{
  ℕ, zero, suc, ◌^◌, not, Option, none, some, ◌∷◌, ◌++◌, Bytes, codes, is_empty, ltb, if◌then◌else◌,
}
use ralphdb.Prelude.Int.{ℤ, pos, negsuc}
use ralphdb.Text.Decimal.{decimal, parse_i64, parse_unsigned, keep_if, map_option}
use ralphdb.Text.Trim.{trim}
use ralphdb.Command.Config.{Host, and_then, unwrap_or}

-- The timeout is in seconds, and `none` is no timeout.
pub record Config : Type 0 where
  pub host : Bytes
  pub port : ℕ
  pub threads : ℕ
  pub idle_timeout : Option ℕ

abbrev pub default_idle_timeout_secs : ℕ
default_idle_timeout_secs = 300

unfoldable pub env_host : Host → Bytes
unfolding trim
env_host host =
    unwrap_or (keep_if (λ t. not (is_empty t)) (map_option trim (host.var (codes "RALPHDB_HOST"))))
      (codes "127.0.0.1")

unfoldable pub env_port : Host → ℕ
unfolding trim parse_unsigned
env_port host =
    unwrap_or (and_then (host.var (codes "RALPHDB_PORT")) (λ t. parse_unsigned (2 ^ 16) (trim t)))
      6379

unfoldable pub env_threads : Host → ℕ
unfolding trim parse_unsigned
env_threads host =
    unwrap_or
      (and_then (host.var (codes "RALPHDB_THREADS")) (λ t. parse_unsigned (2 ^ 64) (trim t)))
      (unwrap_or host.available_parallelism 1)

-- Zero seconds are no timeout; what is missing, no integer or negative is the default.
unfoldable pub timeout_of : Option ℤ → Option ℕ
timeout_of none = some default_idle_timeout_secs
timeout_of (some (pos zero)) = none
timeout_of (some (pos (suc secs))) = some (suc secs)
timeout_of (some (negsuc n)) = some default_idle_timeout_secs

unfoldable pub env_idle_timeout : Host → Option ℕ
unfolding trim parse_i64 timeout_of
env_idle_timeout host =
    timeout_of (and_then (host.var (codes "RALPHDB_IDLE_TIMEOUT_SECS")) (λ t. parse_i64 (trim t)))

-- `threads.max(1)`.
unfoldable pub from_env : Host → Config
unfolding env_host env_port env_threads env_idle_timeout
from_env host =
    let threads = env_threads host in
    record {
      host = env_host host;
      port = env_port host;
      threads = if ltb threads 1 then 1 else threads;
      idle_timeout = env_idle_timeout host;
    }

unfoldable pub address : Config → Bytes
unfolding decimal
address config = config.host ++ b':' ∷ decimal config.port
