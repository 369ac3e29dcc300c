-- ===== src/Command/Execute.antt =====
-- `execute`: the handler for the name of a command.
use ralphdb.Prelude.{ℕ, true, none, List, Bytes, codes, bytes_eq, if◌then◌else◌}
use ralphdb.Storage.Map.{DashMap}
use ralphdb.Storage.Ops.{Entry, Action, pure, ◌>>=◌}
use ralphdb.Command.Types.{Command, ConnectionState, CommandResult, failure}
use ralphdb.Command.Config.{Host, config}
use ralphdb.Command.Client.{client}
use ralphdb.Command.Handlers.{
  ping, echo, hello, info, text, set, get, del, exists, incr, decr, mget, mset, expire, ttl,
}

-- QUIT is the one command that closes the connection.
abbrev pub quit : CommandResult
quit = record { response = text (codes "OK"); attributes = none; close = true }

module _ (dash : DashMap Entry) (clock : ℕ → ℕ) (host : Host) where
  -- The reply and the state of the connection, as an action on the store.
  abbrev pub Execution : Type 0
  Execution = Action dash.Map (CommandResult × ConnectionState)

  abbrev pub on_store : Action dash.Map CommandResult → ConnectionState → Execution
  on_store handler state = do result ← handler; pure (result, state)

  unfoldable pub execute_named : Bytes → List Bytes → ConnectionState → Execution
  unfolding ping echo hello info config client set get del exists incr decr mget mset expire ttl
  execute_named name args state =
      if bytes_eq name (codes "PING")
      then pure (ping args, state)
      else if bytes_eq name (codes "ECHO")
      then pure (echo args, state)
      else if bytes_eq name (codes "HELLO")
      then pure (hello args state)
      else if bytes_eq name (codes "INFO")
      then pure (info args, state)
      else if bytes_eq name (codes "CONFIG")
      then pure (config host args, state)
      else if bytes_eq name (codes "CLIENT")
      then pure (client args state)
      else if bytes_eq name (codes "QUIT")
      then pure (quit, state)
      else if bytes_eq name (codes "SET")
      then on_store (set dash clock args) state
      else if bytes_eq name (codes "GET")
      then on_store (get dash clock args) state
      else if bytes_eq name (codes "DEL")
      then on_store (del dash clock args) state
      else if bytes_eq name (codes "EXISTS")
      then on_store (exists dash clock args) state
      else if bytes_eq name (codes "INCR")
      then on_store (incr dash clock args) state
      else if bytes_eq name (codes "DECR")
      then on_store (decr dash clock args) state
      else if bytes_eq name (codes "MGET")
      then on_store (mget dash clock args) state
      else if bytes_eq name (codes "MSET")
      then on_store (mset dash clock args) state
      else if bytes_eq name (codes "EXPIRE")
      then on_store (expire dash clock args) state
      else if bytes_eq name (codes "TTL")
      then on_store (ttl dash clock args) state
      else pure (failure "ERR unknown command", state)

  unfoldable pub execute : Command → ConnectionState → Execution
  unfolding execute_named
  execute command state = execute_named command.name command.args state
