-- ===== src/Server/Ends.antt =====
-- The loop of a connection ends.
use ralphdb.Prelude.{
  ℕ, zero, suc, ◌-◌, ◌<◌, ◌≤◌, ◌≡◌, ◌≢◌, refl, Option, some, [], arith, length, List-cases, inl,
  inr,
}
use ralphdb.Prelude.Int.{ℤ}
use ralphdb.Protocol.Frame.{Frame, Float64, IoError}
use ralphdb.Protocol.Reader.{Stream, Outcome, ok, err, out_of_fuel}
use ralphdb.Protocol.Decode.{decode}
use ralphdb.Protocol.Consume.{Holds}
use ralphdb.Protocol.Progress.{decode-Holds}
use ralphdb.Protocol.Progress.Parts.{Decoded}
use ralphdb.Storage.Map.{DashMap}
use ralphdb.Storage.Ops.{Entry, World}
use ralphdb.Command.Types.{new_connection}
use ralphdb.Command.Config.{Host}
use ralphdb.Server.Connection.{
  Ending, Connection, Round, again, ended, stuck, failed, quit, serve_failure, serve_read, round,
  rounds, go_on, handle_connection, disconnected, idle,
}
use ralphdb.Server.Serve.{GoesOn, Goes, serve_frame-Goes, serve_failure-Goes}

module _ (float : Float64) (dash : DashMap Entry) (clock : ℕ → ℕ) (host : Host)
    (flush : ℕ → Option IoError) where
  -- An ending with an error is the failure of a flush.
  abbrev pub Explained : Ending → Type 0
  Explained (failed e) = (n : ℕ) × (flush n ≡ some e)
  Explained _ = Unit

  serve_read-Goes :
      (n : ℕ) (o : Outcome Frame × Stream) (c : Connection dash.Map)
      → Holds Decoded n o
      → Goes float dash clock host flush
          (λ s. length s ≤ n)
          (serve_read float dash clock host flush o c)
  serve_read-Goes n (ok frame, rest) c (d, le) =
      serve_frame-Goes float dash clock host flush (λ s. length s ≤ n) frame
        (record c { input = rest }) le
  serve_read-Goes n (err e, rest) c le =
      serve_failure-Goes float dash clock host flush (λ s. length s ≤ n) e
        (record c { input = rest }) le
  serve_read-Goes n (out_of_fuel, rest) c h = absurd h

  round-Goes :
      (c : Connection dash.Map)
      → Goes float dash clock host flush
          (λ s. length s ≤ length c.input - 1)
          (round float dash clock host flush c)
  unfolding round
  round-Goes c = serve_read-Goes _ (decode float c.input) c (decode-Holds float c.input)

  -- At the end of the input the client has left.
  pub round_at_end :
      (c : Connection dash.Map)
      → c.input ≡ []
      → round float dash clock host flush c ≡ ended disconnected (record c { input = [] })
  unfolding round serve_failure decode
  round_at_end c h = rw h refl

  explained :
      (P : Stream → Type 0) (e : Ending) (c : Connection dash.Map)
      → GoesOn float dash clock host flush P (ended e c)
      → Explained e
  explained P idle c h = tt
  explained P disconnected c h = tt
  explained P quit c h = tt
  explained P (failed e) c h = h

  rounds_end :
      (fuel : ℕ) (c : Connection dash.Map)
      → length c.input < fuel
      → (e : Ending) × (c' : Connection dash.Map) × (rounds float dash clock host flush fuel c
          ≡ ended e c')
        × Explained e
  unfolding rounds
  rounds_end zero c lt = absurd (omega arith)
  rounds_end (suc fuel) c lt = elim (List-cases c.input) [
    | inl nothing ↦ (disconnected, record c { input = [] }, rw (round_at_end c nothing) refl, tt)
    | inr (b, s, some_input) ↦
        after (round float dash clock host flush c) refl (round-Goes c) (λ c' le.
          rounds_end fuel c'
            (let e : length c.input ≡ suc (length s) = rw some_input refl in omega arith))
  ]
    where
      after :
          (r : Round dash.Map)
          → round float dash clock host flush c ≡ r
          → Goes float dash clock host flush (λ s. length s ≤ length c.input - 1) r
          → ((c' : Connection dash.Map)
              → length c'.input ≤ length c.input - 1
              → (e : Ending) × (c'' : Connection dash.Map) × (rounds float dash clock host flush
                    fuel c'
                  ≡ ended e c'')
                × Explained e)
          → (e : Ending) × (c' : Connection dash.Map) × (go_on float dash clock host flush
                (round float dash clock host flush c)
                (rounds float dash clock host flush fuel)
              ≡ ended e c')
            × Explained e
      after (again c') q h rec = let (e, c'', p, g) = rec c' h.on in (e, c'', rw q p, g)
      after (ended e c') q h rec =
          (e, c', rw q refl, explained (λ s. length s ≤ length c.input - 1) e c' h.on)
      after stuck q h rec = absurd h.on

  -- Every connection ends, whatever the finite input and however the flushes turn out: with a
  -- timeout, at the end of the input or on QUIT, and with an error only if a flush failed with that
  -- error.
  pub handle_connection_ends :
      (input : Stream) (counter : ℤ) (store : World dash.Map)
      → (e : Ending) × (c : Connection dash.Map) × (handle_connection float dash clock host flush
            input counter store
          ≡ ended e c)
        × Explained e
  unfolding handle_connection
  handle_connection_ends input counter store =
      rounds_end (suc (length input))
        (record {
          input = input;
          session = (new_connection counter).0;
          store = store;
          sent = [];
          flushes = 0;
        })
        (omega arith)

  -- A round after which the loop goes on has taken an event off the input.
  pub round-again :
      (c c' : Connection dash.Map)
      → round float dash clock host flush c ≡ again c'
      → length c'.input < length c.input
  round-again c c' e = elim (List-cases c.input) [
    | inl nothing ↦ cc (e, round_at_end c nothing)
    | inr (b, s, some_input) ↦
        let g : length c'.input ≤ length c.input - 1 = (rw e at (round-Goes c)).on in
        let n : length c.input ≡ suc (length s) = rw some_input refl in omega (arith, g, n)
  ]

  pub round-ne-stuck : (c : Connection dash.Map) → round float dash clock host flush c ≢ stuck
  round-ne-stuck c e = (rw e at (round-Goes c)).on
