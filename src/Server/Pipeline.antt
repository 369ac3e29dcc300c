-- ===== src/Server/Pipeline.antt =====
-- Requests that arrive in one batch are served one after the other.
use ralphdb.Prelude.{ℕ, suc, ◌≡◌, refl, Option, List, [], ◌∷◌, ◌+◌, arith, length}
use ralphdb.Protocol.Frame.{Frame, Float64, IoError, resp3}
use ralphdb.Protocol.Reader.{Stream, feed}
use ralphdb.Protocol.Encode.{encode_frame}
use ralphdb.Protocol.Encodable.{Encodable}
use ralphdb.Protocol.RoundTrip.{decode-encode_frame_resp3}
use ralphdb.Storage.Map.{DashMap}
use ralphdb.Storage.Ops.{Entry}
use ralphdb.Command.Config.{Host}
use ralphdb.Server.Connection.{
  Connection, Round, again, ended, stuck, serve_frame, round, rounds, go_on,
}
use ralphdb.Server.Serve.{Goes, serve_frame-Goes}

-- All of the frames can be written in RESP3.
abbrev pub AllEncodable : Float64 → List Frame → Type 0
AllEncodable float [] = Unit
AllEncodable float (x ∷ xs) = Encodable float resp3 x × AllEncodable float xs

-- The frames as a client writes them, and what comes behind them.
abbrev pub requests : Float64 → List Frame → Stream → Stream
requests float [] s = s
requests float (x ∷ xs) s = feed (encode_frame float x resp3).out (requests float xs s)

module _ (float : Float64) (dash : DashMap Entry) (clock : ℕ → ℕ) (host : Host)
    (flush : ℕ → Option IoError) where
  -- Each frame is served in turn, the ones after it being left in the input, as long as the loop
  -- goes on.
  abbrev pub serve_all : List Frame → Stream → Connection dash.Map → Round dash.Map
  serve_all [] s c = again (record c { input = s })
  serve_all (x ∷ xs) s c =
      go_on float dash clock host flush
        (serve_frame float dash clock host flush x (record c { input = requests float xs s }))
        (serve_all xs s)

  pub round-request :
      (x : Frame) (s : Stream) (c : Connection dash.Map)
      → Encodable float resp3 x
      → c.input ≡ feed (encode_frame float x resp3).out s
      → round float dash clock host flush c
        ≡ serve_frame float dash clock host flush x (record c { input = s })
  unfolding round
  round-request x s c h e = rw (e, decode-encode_frame_resp3 float x s h) refl

  -- A batch of encodable frames, whatever comes behind it, is served like one frame after the
  -- other, in order and each once; then the loop goes on with what comes behind.
  pub rounds-requests :
      (xs : List Frame) (s : Stream) (fuel : ℕ) (c : Connection dash.Map)
      → AllEncodable float xs
      → c.input ≡ requests float xs s
      → rounds float dash clock host flush (length xs + fuel) c
        ≡ go_on float dash clock host flush
            (serve_all xs s c)
            (rounds float dash clock host flush fuel)
  unfolding rounds
  rounds-requests [] s fuel c h e =
      let none_more : 0 + fuel ≡ fuel = omega arith in rw (none_more, ← e) refl
  rounds-requests (x ∷ xs) s fuel c (hx, hs) e =
      let one_more : suc (length xs) + fuel ≡ suc (length xs + fuel) = omega arith in
      let rest = requests float xs s in
      let served = serve_frame float dash clock host flush x (record c { input = rest }) in
      rw (one_more, round-request x rest c hx e)
        (serve_rest served
          (serve_frame-Goes float dash clock host flush (λ t. t ≡ rest) x
            (record c { input = rest }) refl)
          (λ c' e'. rounds-requests xs s fuel c' hs e'))
    where
      serve_rest :
          (r : Round dash.Map)
          → Goes float dash clock host flush (λ t. t ≡ requests float xs s) r
          → ((c' : Connection dash.Map)
              → c'.input ≡ requests float xs s
              → rounds float dash clock host flush (length xs + fuel) c'
                ≡ go_on float dash clock host flush
                    (serve_all xs s c')
                    (rounds float dash clock host flush fuel))
          → go_on float dash clock host flush r
              (rounds float dash clock host flush (length xs + fuel))
            ≡ go_on float dash clock host flush
                (go_on float dash clock host flush r (serve_all xs s))
                (rounds float dash clock host flush fuel)
      serve_rest (again c') g rec = rec c' g.on
      serve_rest (ended d c') g rec = refl
      serve_rest stuck g rec = absurd g.on
