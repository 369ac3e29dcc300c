-- ===== src/Server/Run.antt =====
-- `Server` with its `run` and `serve`, and `ralphdb::run` of src/lib.rs. The listener is the
-- standard library's: to bind an address gives a listener or an error.
use ralphdb.Prelude.{ℕ, Option, List, Bytes}
use ralphdb.Protocol.Frame.{IoError}
use ralphdb.Storage.Map.{DashMap}
use ralphdb.Storage.Ops.{Entry, World, new_storage}
use ralphdb.Command.Config.{Host}
use ralphdb.Server.Config.{Config, from_env, address}
use ralphdb.Server.Pool.{Incoming, Pool, pool_on}

-- The result of a call that can fail.
pub data IoResult (A : Type 0) : Type 0 where
  ok : A → IoResult A
  err : IoError → IoResult A

-- What `local_addr` returns, and what `incoming` yields.
pub record Listener : Type 0 where
  pub local_addr : IoResult Bytes
  pub incoming : List Incoming

pub record Server (M : Type 0) : Type 0 where
  pub config : Config
  pub storage : World M

-- The state of `serve` before its first step: the size of the pool, the timeout that each
-- connection gets, and the pool.
pub record Serving (M : Type 0) : Type 0 where
  pub threads : ℕ
  pub idle_timeout : Option ℕ
  pub pool : Pool M

module _ {M : Type 0} where
  -- `listener.local_addr()?`, and the rest of `serve` up to its loop.
  unfoldable pub serve_at : Server M → Listener → IoResult Bytes → IoResult (Serving M)
  serve_at server listener (err e) = err e
  serve_at server listener (ok local) = ok (record {
    threads = server.config.threads;
    idle_timeout = server.config.idle_timeout;
    pool = pool_on server.storage listener.incoming;
  })

  unfoldable pub serve : Server M → Listener → IoResult (Serving M)
  unfolding serve_at
  serve server listener = serve_at server listener listener.local_addr

  unfoldable pub serve_bound : Server M → IoResult Listener → IoResult (Serving M)
  unfolding serve
  serve_bound server (err e) = err e
  serve_bound server (ok listener) = serve server listener

  unfoldable pub run_server : (Bytes → IoResult Listener) → Server M → IoResult (Serving M)
  unfolding serve_bound address
  run_server bind server = serve_bound server (bind (address server.config))

-- `ralphdb::run`.
unfoldable pub run :
    (dash : DashMap Entry) → (Bytes → IoResult Listener) → Host → IoResult (Serving dash.Map)
unfolding run_server from_env
run dash bind host = run_server bind (record { config = from_env host; storage = new_storage dash })
