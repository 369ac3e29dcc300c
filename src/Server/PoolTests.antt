-- ===== src/Server/PoolTests.antt =====
-- The program with one thread, and a client that leaves at once.
use ralphdb.Prelude.{ℕ, ◌≤◌, refl, Option, none, List, [], ◌∷◌, arith, Bytes, codes, length}
use ralphdb.Prelude.Int.{ℤ, pos}
use ralphdb.Protocol.Frame.{IoError}
use ralphdb.Storage.Ops.{new_storage}
use ralphdb.Command.Types.{new_connection}
use ralphdb.Server.Config.{address}
use ralphdb.Server.Connection.{Connection, disconnected}
use ralphdb.Server.Pool.{Incoming, client, jobs, Pool, begin, new_pool, Step, Steps}
use ralphdb.Server.Liveness.{waiting_work, serve_bounded}
use ralphdb.Server.Run.{IoResult, ok, Listener}
use ralphdb.Server.Tests.{small, table, tick, machine}

-- A client that leaves at once, on a pool with one thread: it starts and ends.
abbrev flushes_well : ℤ → ℕ → Option IoError
flushes_well id n = none

abbrev visitors : List Incoming
visitors = client [] ∷ []

abbrev visitor : Connection table.Map
visitor = begin [] (pos 1) (new_storage table)

abbrev started : Pool table.Map
started = record (new_pool table visitors) {
  waiting = [];
  running = visitor ∷ [];
  counter = (new_connection (pos 1)).1;
}

abbrev over : Pool table.Map
over = record started { running = []; endings = disconnected ∷ [] }

visitor_starts :
    Step small table tick (machine (codes "1")) flushes_well 1 (new_pool table visitors) started
unfolding jobs
visitor_starts = Step.start [] [] refl (omega arith) refl

serve_bounded_example : (length started.running ≤ 1) × (1 ≤ waiting_work (jobs visitors))
serve_bounded_example =
    serve_bounded small table tick (machine (codes "1")) flushes_well 1 visitors 1 started
      (Steps.next Steps.here visitor_starts)

abbrev at_door : Listener
at_door = record { local_addr = ok (codes "127.0.0.1:6379"); incoming = visitors }

-- Every address can be bound.
abbrev bind_any : Bytes → IoResult Listener
bind_any address = ok at_door
