-- ===== src/Lib.antt =====
-- ralphdb, a key-value server that speaks the Redis protocol (src/*.rs).
--
-- The program has four parts. The protocol (src/protocol/mod.rs) reads frames from a buffered reader
-- and writes them. The commands (src/command/mod.rs) turn a frame into a name and arguments and
-- execute it on the store and on the state of the connection. The store (src/storage/mod.rs) is a
-- map with deadlines. The server (src/server/mod.rs) reads its configuration from the environment
-- and serves a connection in a loop: decode_frame, from_frame_with_protocol, execute,
-- encode_response.
--
-- Which file models what:
-- - Prelude: lists over the native numbers, byte strings, tests, integers and the range of i64.
-- - Text: what the program uses of the standard library's texts. Utf8 has from_utf8 and
--   from_utf8_lossy, Ascii the change of case, Decimal the print and the parse of integers, Trim
--   str::trim.
-- - Protocol.Frame, Reader, Decode, Encode: src/protocol/mod.rs. A reader is a function on a stream
--   of events, each a byte that arrives or a fault (a timeout, say), with the end of the input
--   behind them. Protocol.Encodable says which frames a version carries and what is read of them;
--   Protocol.Lines, RoundTrip, Refuse, Split, Consume, Progress, Extend and Truncate hold the
--   proofs.
-- - Storage.Ops: src/storage/mod.rs, each method an action on the map and the number of clock
--   readings so far. Storage.Map is the interface of the map; Storage.View says what is visible at
--   a time; Storage.Reads, Writes and Counters describe the methods by it. Storage.Spec is the
--   abstract store, and Storage.Refine relates the methods to it. Storage.Sections splits get,
--   del, expire and ttl where they drop the guard of the map, and Storage.Interference is about
--   what other threads do in between. Storage.Bounds and Storage.Ranges are about the range of
--   deadlines and replies.
-- - Command.Types, Parse, Handlers, Client, Config, Pattern, Execute: src/command/mod.rs, one
--   function per handler. Command.Replies is about the replies, Command.Session about the state of
--   the connection, Command.Words about the requests of clients, Command.Effects about commands in
--   a row. Command.Pattern.Matches says what a pattern describes; Total, Search and Decides are about
--   the matcher's loop.
-- - Server.Config and Server.Connection: Config and handle_connection of src/server/mod.rs.
--   Server.Settings is about the configuration; Server.Serve, Ends, Pipeline and Words are about
--   the loop. Server.Pool is serve, with the pool of threads, and Server.Liveness is about it.
--   Server.Run is Server::run and ralphdb::run (src/lib.rs), which put the parts together.
-- - The Tests modules run the theorems on small examples.
--
-- Parameters. The map (DashMap) is an interface with laws, which an association list meets. The
-- clock is a function from the number of a reading to its time. The conversions of f64 are a record
-- of functions. The environment, the number of threads of the platform and the errors that flushes
-- return are functions, too.
--
-- Fuel. decode_frame is recursive, and is given one more unit than the stream has events: each
-- nested frame is read from a shorter stream. The matcher of patterns is given a bound on its
-- rounds, and the loop of a connection one more round than its input has events.
--
-- Not modelled: the sockets, logging, src/main.rs, and in Server.Pool the interleavings within a
-- round: there each method of the store is one step, while Storage.Interference takes a single
-- call with anything in between its sections. The memory that a frame takes and the depth of the
-- recursion are not bounded. Write errors show up at a flush. handle_connection is modelled from
-- its loop on: the calls before it, which duplicate the socket and set its timeouts, can fail and
-- are left out. The queue and the limit of the pool are those that the threadpool crate documents.
-- Every client's input comes to an end, so a client that stays silent for ever with the idle
-- timeout off, and keeps its thread, is not expressed.
pub mod Prelude
pub mod Text
pub mod Protocol
pub mod Storage
pub mod Command
pub mod Server
