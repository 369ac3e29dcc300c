-- ===== src/Server/Serve.antt =====
-- What serving a frame does to the loop of the connection.
use ralphdb.Prelude.{ℕ, ◌≡◌, refl, Bool, true, false, Option, none, some, Bytes, if◌then◌else◌}
use ralphdb.Protocol.Frame.{Frame, error, Float64, IoError}
use ralphdb.Protocol.Reader.{Stream}
use ralphdb.Protocol.Encode.{encode_frame, encode_response}
use ralphdb.Storage.Map.{DashMap}
use ralphdb.Storage.Ops.{Entry}
use ralphdb.Command.Types.{Command}
use ralphdb.Command.Parse.{Parsed, from_frame_with_protocol}
use ralphdb.Command.Config.{Host}
use ralphdb.Command.Execute.{execute}
use ralphdb.Command.Replies.Executed.{execute-encodes}
use ralphdb.Server.Connection.{
  Connection, Round, again, ended, stuck, failed, quit, flushed, deliver, serve_command,
  serve_parsed, serve_frame, serve_failure, is_timeout, is_eof,
}

module _ (float : Float64) (dash : DashMap Entry) (clock : ℕ → ℕ) (host : Host)
    (flush : ℕ → Option IoError) where
  -- What a round does: if the loop goes on, the input that is left satisfies `P`; if it fails, a
  -- flush has failed.
  abbrev pub GoesOn : (Stream → Type 0) → Round dash.Map → Type 0
  GoesOn P (again c) = P c.input
  GoesOn P (ended (failed e) c) = (n : ℕ) × (flush n ≡ some e)
  GoesOn P (ended _ c) = Unit
  GoesOn P stuck = ⊥

  pub record Goes (P : Stream → Type 0) (r : Round dash.Map) : Type 0 where
    pub on : GoesOn P r

  module _ (P : Stream → Type 0) where
    flushed-Goes :
        (n : ℕ) (bytes : Bytes) (c : Connection dash.Map)
        (next : Connection dash.Map → Round dash.Map)
        → P c.input
        → ((c' : Connection dash.Map) → P c'.input → Goes P (next c'))
        → Goes P (flushed float dash clock host flush (flush n) bytes c next)
    flushed-Goes n bytes c next p h = by_result (flush n) refl
      where
        by_result :
            (o : Option IoError)
            → flush n ≡ o
            → Goes P (flushed float dash clock host flush o bytes c next)
        by_result none q = h _ p
        by_result (some e) q = record { on = (n, q) }

    deliver-Goes :
        (failure : Option IoError) (bytes : Bytes) (c : Connection dash.Map)
        (next : Connection dash.Map → Round dash.Map)
        → failure ≡ none
        → P c.input
        → ((c' : Connection dash.Map) → P c'.input → Goes P (next c'))
        → Goes P (deliver float dash clock host flush failure bytes c next)
    deliver-Goes (some e) bytes c next none_failed p h = cc none_failed
    deliver-Goes none bytes c next none_failed p h = flushed-Goes c.flushes bytes c next p h

    if-Goes : (b : Bool) (x y : Round dash.Map) → Goes P x → Goes P y → Goes P (if b then x else y)
    if-Goes true x y h k = h
    if-Goes false x y h k = k

    serve_parsed-Goes :
        (parsed : Parsed Command) (c : Connection dash.Map)
        → P c.input
        → Goes P (serve_parsed float dash clock host flush parsed c)
    unfolding serve_command encode_frame
    serve_parsed-Goes (Parsed.err message) c p =
        let written = encode_frame float (error message) c.session.protocol in
        deliver-Goes written.failure written.out c again refl p (λ c' p'. record { on = p' })
    serve_parsed-Goes (Parsed.ok command) c p =
        let ((result, session), store) = execute dash clock host command c.session c.store in
        let written = encode_response float result.response result.attributes session.protocol in
        deliver-Goes written.failure written.out (record c { session = session; store = store })
          (λ c'. if result.close then ended quit c' else again c')
          (execute-encodes float dash clock host command c.session c.store) p
          (λ c' p'. if-Goes result.close _ _ (record { on = tt }) (record { on = p' }))

    pub serve_frame-Goes :
        (frame : Frame) (c : Connection dash.Map)
        → P c.input
        → Goes P (serve_frame float dash clock host flush frame c)
    unfolding serve_frame
    serve_frame-Goes frame c p =
        serve_parsed-Goes (from_frame_with_protocol float frame c.session.protocol) c p

    pub serve_failure-Goes :
        (e : IoError) (c : Connection dash.Map)
        → P c.input
        → Goes P (serve_failure float dash clock host flush e c)
    unfolding serve_failure
    serve_failure-Goes e c p =
        if-Goes (is_timeout e.kind) _ _ (record { on = tt })
          (if-Goes (is_eof e.kind) _ _ (record { on = tt })
            (flushed-Goes c.flushes _ c again p (λ c' p'. record { on = p' })))
