-- ===== src/Server/Settings.antt =====
-- The configuration that the environment gives, and what CONFIG GET says of it.
use ralphdb.Prelude.{
  ℕ, zero, suc, ◌<◌, ◌≤◌, ◌∙◌, ◌≡◌, ◌≢◌, ◌^◌, refl, Option, none, some, List, [], ◌∷◌, ◌++◌, arith,
  Bytes, codes, is_empty, not, if◌then◌else◌, Option-cases, inl, inr, ap, ltb,
}
use ralphdb.Prelude.Int.{ℤ, pos, negsuc, InI64}
use ralphdb.Text.Decimal.{decimal, parse_unsigned, parse_i64, keep_if, map_option}
use ralphdb.Text.Decimal.Laws.{parse_unsigned-lt, parse_i64-InI64}
use ralphdb.Text.Trim.{trim}
use ralphdb.Command.Config.{
  Host, and_then, unwrap_or, config, config_entries, default_threads, parse_host_env_value,
  parse_port_env_value, parse_threads_env_value,
}
use ralphdb.Protocol.Frame.{bulk_string, array, frames}
use ralphdb.Command.Types.{CommandResult, ok}
use ralphdb.Server.Config.{from_env, address, timeout_of}

host_of :
    (o : Option Bytes)
    → unwrap_or (and_then o parse_host_env_value) (codes "127.0.0.1")
      ≡ unwrap_or (keep_if (λ t. not (is_empty t)) (map_option trim o)) (codes "127.0.0.1")
unfolding parse_host_env_value
host_of none = refl
host_of (some t) = refl

port_of :
    (o : Option Bytes)
    → unwrap_or (and_then o parse_port_env_value) (codes "6379")
      ≡ decimal (unwrap_or (and_then o (λ t. parse_unsigned (2 ^ 16) (trim t))) 6379)
unfolding parse_port_env_value decimal
port_of none = refl
port_of (some t) = elim (Option-cases (parse_unsigned (2 ^ 16) (trim t))) [
  | inl p ↦ rw p refl
  | inr (n, p) ↦ rw p refl
]

-- The reply to CONFIG GET of one key: the key and its value.
abbrev pub told : Bytes → Bytes → CommandResult
told key value = ok (array (frames (bulk_string (some key) ∷ bulk_string (some value) ∷ [])))

-- The arguments of CONFIG GET.
abbrev pub asked : Bytes → List Bytes
asked key = codes "GET" ∷ key ∷ []

-- CONFIG GET server.bind and CONFIG GET server.port each tell one value, the host and the port of
-- the configuration; the two, with a colon between, are the address that the server asks to bind.
pub config-address :
    (host : Host)
    → (config host (asked (codes "server.bind")) ≡ told (codes "server.bind") (from_env host).host)
      × (config host (asked (codes "server.port"))
          ≡ told (codes "server.port") (decimal (from_env host).port))
      × (address (from_env host) ≡ (from_env host).host ++ b':' ∷ decimal (from_env host).port)
unfolding config config_entries from_env address decimal
config-address host = (
  ap (told (codes "server.bind")) (host_of (host.var (codes "RALPHDB_HOST"))),
  ap (told (codes "server.port")) (port_of (host.var (codes "RALPHDB_PORT"))),
  refl,
)

-- The variable for the number of threads, if it is a number.
abbrev pub threads_variable : Host → Option ℕ
threads_variable host =
    and_then (host.var (codes "RALPHDB_THREADS")) (λ t. parse_unsigned (2 ^ 64) (trim t))

threads_kept :
    (o : Option Bytes)
    → and_then o parse_threads_env_value
      ≡ keep_if (λ n. ltb 0 n) (and_then o (λ t. parse_unsigned (2 ^ 64) (trim t)))
unfolding parse_threads_env_value
threads_kept none = refl
threads_kept (some t) = refl

threads_agree :
    (o available : Option ℕ)
    → ((n : ℕ) → available ≡ some n → 1 ≤ n)
    → o ≢ some 0
    → unwrap_or (keep_if (λ n. ltb 0 n) o) (unwrap_or available 1)
      ≡ (let t = unwrap_or o (unwrap_or available 1) in if ltb t 1 then 1 else t)
threads_agree none none positive nonzero = refl
threads_agree none (some n) positive nonzero = let p = positive n refl in ground arith
threads_agree (some zero) available positive nonzero = absurd (nonzero refl)
threads_agree (some (suc n)) available positive nonzero = ground arith

-- Where the platform reports at least one thread, if any, and RALPHDB_THREADS is not zero, CONFIG
-- GET server.threads tells one value, the number of threads that the server uses.
pub config-threads :
    (host : Host)
    → ((n : ℕ) → host.available_parallelism ≡ some n → 1 ≤ n)
    → threads_variable host ≢ some 0
    → config host (asked (codes "server.threads"))
      ≡ told (codes "server.threads") (decimal (from_env host).threads)
unfolding config config_entries default_threads from_env
config-threads host positive nonzero =
    ap (λ n. told (codes "server.threads") (decimal n))
      (ap (λ o. unwrap_or o (unwrap_or host.available_parallelism 1))
          (threads_kept (host.var (codes "RALPHDB_THREADS")))
        ∙ threads_agree (threads_variable host) host.available_parallelism positive nonzero)

-- With RALPHDB_THREADS zero the server uses one thread, and CONFIG GET server.threads tells how many the platform
-- has, or one where it does not report them.
pub config-threads_zero :
    (host : Host)
    → threads_variable host ≡ some 0
    → ((from_env host).threads ≡ 1)
      × (config host (asked (codes "server.threads"))
          ≡ told (codes "server.threads") (decimal (unwrap_or host.available_parallelism 1)))
unfolding config config_entries default_threads from_env
config-threads_zero host is_zero =
    let available = unwrap_or host.available_parallelism 1 in
    let value = host.var (codes "RALPHDB_THREADS") in
    let reported : unwrap_or (and_then value parse_threads_env_value) available ≡ available =
      rw (threads_kept value, is_zero) refl in
    (rw is_zero refl, ap (λ n. told (codes "server.threads") (decimal n)) reported)

-- A timeout is at least a second, and fits in an `i64`.
abbrev pub TimeoutFits : Option ℕ → Type 0
TimeoutFits none = Unit
TimeoutFits (some secs) = (1 ≤ secs) × (secs < 2 ^ 63)

host_ne_nil :
    (o : Option Bytes) → unwrap_or (keep_if (λ t. not (is_empty t)) o) (codes "127.0.0.1") ≢ []
host_ne_nil none h = cc h
host_ne_nil (some []) h = cc h
host_ne_nil (some (b ∷ t)) h = cc h

port_fits :
    (o : Option Bytes)
    → unwrap_or (and_then o (λ t. parse_unsigned (2 ^ 16) (trim t))) 6379 < 2 ^ 16
port_fits none = omega arith
port_fits (some t) = elim (Option-cases (parse_unsigned (2 ^ 16) (trim t))) [
  | inl p ↦ rw p (omega arith)
  | inr (n, p) ↦ rw p (parse_unsigned-lt (2 ^ 16) (trim t) n p)
]

timeout_of-TimeoutFits :
    (o : Option ℤ) → ((z : ℤ) → o ≡ some z → InI64 z) → TimeoutFits (timeout_of o)
unfolding timeout_of
timeout_of-TimeoutFits none h = omega arith
timeout_of-TimeoutFits (some (pos zero)) h = tt
timeout_of-TimeoutFits (some (pos (suc n))) h = let p = h (pos (suc n)) refl in omega arith
timeout_of-TimeoutFits (some (negsuc n)) h = omega arith

timeout_variable-InI64 :
    (o : Option Bytes) (z : ℤ) → and_then o (λ t. parse_i64 (trim t)) ≡ some z → InI64 z
timeout_variable-InI64 none z h = cc h
timeout_variable-InI64 (some t) z h = parse_i64-InI64 (trim t) z h

-- Whatever the environment says, the server has at least one thread, a port that fits in 16 bits,
-- a host that is not empty, and no idle timeout or one of at least a second that fits in an `i64`.
pub from_env-IsValid :
    (host : Host)
    → (1 ≤ (from_env host).threads)
      × ((from_env host).port < 2 ^ 16)
      × ((from_env host).host ≢ [])
      × TimeoutFits (from_env host).idle_timeout
unfolding from_env
from_env-IsValid host = (
  ground arith,
  port_fits (host.var (codes "RALPHDB_PORT")),
  host_ne_nil (map_option trim (host.var (codes "RALPHDB_HOST"))),
  timeout_of-TimeoutFits
      (and_then (host.var (codes "RALPHDB_IDLE_TIMEOUT_SECS")) (λ t. parse_i64 (trim t)))
      (timeout_variable-InI64 (host.var (codes "RALPHDB_IDLE_TIMEOUT_SECS"))),
)
