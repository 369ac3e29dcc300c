-- ===== src/Server/Connection.antt =====
-- The loop of `Server::handle_connection`, which reads a frame, executes its command and replies.
-- The calls before it, which duplicate the socket and set its timeouts, are left out.
use ralphdb.Prelude.{
  ℕ, zero, suc, Bool, true, false, Option, none, some, [], ◌++◌, Bytes, codes, length,
  if◌then◌else◌,
}
use ralphdb.Prelude.Int.{ℤ}
use ralphdb.Protocol.Frame.{
  Frame, error, Float64, IoError, ErrorKind, unexpected_eof, would_block, timed_out,
}
use ralphdb.Protocol.Reader.{Stream, Outcome, ok, err, out_of_fuel}
use ralphdb.Protocol.Decode.{decode}
use ralphdb.Protocol.Encode.{encode_frame, encode_response}
use ralphdb.Storage.Map.{DashMap}
use ralphdb.Storage.Ops.{Entry, World}
use ralphdb.Command.Types.{Command, ConnectionState, new_connection}
use ralphdb.Command.Parse.{Parsed, from_frame_with_protocol}
use ralphdb.Command.Config.{Host}
use ralphdb.Command.Execute.{execute}

-- Why the loop is left: all but `failed` return `Ok(())`.
pub data Ending : Type 0 where
  idle disconnected quit : Ending
  failed : IoError → Ending

-- The reader, the state of the connection, the store, and what was flushed to the client so far.
pub record Connection (M : Type 0) : Type 0 where
  pub input : Stream
  pub session : ConnectionState
  pub store : World M
  pub sent : Bytes
  pub flushes : ℕ

-- `stuck` has no counterpart in the program.
pub data Round (M : Type 0) : Type 0 where
  again : Connection M → Round M
  ended : Ending → Connection M → Round M
  stuck : Round M

abbrev pub is_timeout : ErrorKind → Bool
is_timeout would_block = true
is_timeout timed_out = true
is_timeout _ = false

abbrev pub is_eof : ErrorKind → Bool
is_eof unexpected_eof = true
is_eof _ = false

-- `flush n` is the error that flush number `n` of the connection returns, if it returns one.
module _ (float : Float64) (dash : DashMap Entry) (clock : ℕ → ℕ) (host : Host)
    (flush : ℕ → Option IoError) where
  -- `writer.flush()?` and what follows it; it is not known what a failed flush delivers.
  abbrev pub flushed :
      Option IoError
      → Bytes
      → Connection dash.Map
      → (Connection dash.Map → Round dash.Map)
      → Round dash.Map
  flushed none bytes c next = next (record c { sent = c.sent ++ bytes; flushes = suc c.flushes })
  flushed (some e) bytes c next = ended (failed e) (record c { flushes = suc c.flushes })

  -- The flush that a `BufWriter` makes when it is dropped, whose error is lost.
  abbrev pub dropped : Option IoError → Bytes → Connection dash.Map → Connection dash.Map
  dropped none bytes c = record c { sent = c.sent ++ bytes; flushes = suc c.flushes }
  dropped (some e) bytes c = record c { flushes = suc c.flushes }

  -- An encoder's call with `?`, and the flush.
  abbrev pub deliver :
      Option IoError
      → Bytes
      → Connection dash.Map
      → (Connection dash.Map → Round dash.Map)
      → Round dash.Map
  deliver none bytes c next = flushed (flush c.flushes) bytes c next
  deliver (some e) bytes c next = ended (failed e) (dropped (flush c.flushes) bytes c)

  unfoldable pub serve_command : Command → Connection dash.Map → Round dash.Map
  unfolding execute encode_response
  serve_command command c =
      let ((result, session), store) = execute dash clock host command c.session c.store in
      let written = encode_response float result.response result.attributes session.protocol in
      deliver written.failure written.out (record c { session = session; store = store })
        λ c'. if result.close then ended quit c' else again c'

  abbrev pub serve_parsed : Parsed Command → Connection dash.Map → Round dash.Map
  serve_parsed (Parsed.ok command) c = serve_command command c
  serve_parsed (Parsed.err message) c =
      let written = encode_frame float (error message) c.session.protocol in
      deliver written.failure written.out c again

  unfoldable pub serve_frame : Frame → Connection dash.Map → Round dash.Map
  unfolding serve_command from_frame_with_protocol encode_frame
  serve_frame frame c = serve_parsed (from_frame_with_protocol float frame c.session.protocol) c

  -- A frame that cannot be read: any other error is told to the client, and the loop goes on.
  unfoldable pub serve_failure : IoError → Connection dash.Map → Round dash.Map
  unfolding encode_frame
  serve_failure e c =
      if is_timeout e.kind
      then ended idle c
      else if is_eof e.kind
      then ended disconnected c
      else let written =
          encode_frame float (error (codes "ERR malformed frame")) c.session.protocol in
        flushed (flush c.flushes) written.out c again

  abbrev pub serve_read : Outcome Frame × Stream → Connection dash.Map → Round dash.Map
  serve_read (ok frame, rest) c = serve_frame frame (record c { input = rest })
  serve_read (err e, rest) c = serve_failure e (record c { input = rest })
  serve_read (out_of_fuel, rest) c = stuck

  unfoldable pub round : Connection dash.Map → Round dash.Map
  unfolding decode serve_frame serve_failure
  round c = serve_read (decode float c.input) c

  abbrev pub go_on : Round dash.Map → (Connection dash.Map → Round dash.Map) → Round dash.Map
  go_on (again c) next = next c
  go_on (ended e c) next = ended e c
  go_on stuck next = stuck

  unfoldable pub rounds : ℕ → Connection dash.Map → Round dash.Map
  unfolding round
  rounds zero c = stuck
  rounds (suc fuel) c = go_on (round c) (rounds fuel)

  -- The connection of a client, with the id that the counter has for it. Each round takes an event
  -- off the input, or ends at the end of it, so this fuel is enough.
  unfoldable pub handle_connection : Stream → ℤ → World dash.Map → Round dash.Map
  unfolding rounds
  handle_connection input counter store = rounds (suc (length input)) (record {
    input = input;
    session = (new_connection counter).0;
    store = store;
    sent = [];
    flushes = 0;
  })
