-- ===== src/Command/Replies/Executed.antt =====
-- Every reply can be sent in the protocol that the connection speaks once the command is done.
use ralphdb.Prelude.{
  ℕ, ◌≡◌, refl, Bool, true, false, none, List, Bytes, codes, bytes_eq, if◌then◌else◌,
}
use ralphdb.Protocol.Frame.{ProtocolVersion, resp2, resp3, Float64}
use ralphdb.Protocol.Encode.{encode_frame, encode_response}
use ralphdb.Storage.Map.{DashMap}
use ralphdb.Storage.Ops.{Entry, World}
use ralphdb.Command.Types.{Command, ConnectionState, CommandResult}
use ralphdb.Command.Config.{Host}
use ralphdb.Command.Execute.{execute, execute_named, quit, Execution}
use ralphdb.Command.Replies.{
  Sendable, error_bytes-Sendable, ping-Sendable, echo-Sendable, info-Sendable, config-Sendable,
  hello-Answers, client-Answers,
}
use ralphdb.Command.Replies.Stored.{
  set-Sendable, get-Sendable, del-Sendable, exists-Sendable, incr-Sendable, decr-Sendable,
  mget-Sendable, mset-Sendable, expire-Sendable, ttl-Sendable,
}

module _ (float : Float64) (dash : DashMap Entry) (clock : ℕ → ℕ) (host : Host) where
  abbrev SendableAfter : (CommandResult × ConnectionState) × World dash.Map → Type 0
  SendableAfter ((result, state), w) = Sendable float result state.protocol

  SendableAfter-if :
      (b : Bool) (x y : Execution dash clock host) (w : World dash.Map)
      → SendableAfter (x w)
      → SendableAfter (y w)
      → SendableAfter ((if b then x else y) w)
  SendableAfter-if true x y w h k = h
  SendableAfter-if false x y w h k = k

  quit-Sendable : (v : ProtocolVersion) → Sendable float quit v
  unfolding encode_response encode_frame
  quit-Sendable resp2 = record { taken = refl }
  quit-Sendable resp3 = record { taken = refl }

  execute_named-Sendable :
      (name : Bytes) (args : List Bytes) (state : ConnectionState) (w : World dash.Map)
      → SendableAfter (execute_named dash clock host name args state w)
  unfolding execute_named
  execute_named-Sendable name args state w =
      SendableAfter-if (bytes_eq name (codes "PING")) _ _ w
        (ping-Sendable float args state.protocol)
        (SendableAfter-if (bytes_eq name (codes "ECHO")) _ _ w
          (echo-Sendable float args state.protocol)
          (SendableAfter-if (bytes_eq name (codes "HELLO")) _ _ w (hello-Answers float args state) (
            SendableAfter-if (bytes_eq name (codes "INFO")) _ _ w
              (info-Sendable float args state.protocol)
              (SendableAfter-if (bytes_eq name (codes "CONFIG")) _ _ w
                (config-Sendable float host args state.protocol)
                (SendableAfter-if (bytes_eq name (codes "CLIENT")) _ _ w
                  (client-Answers float args state)
                  (SendableAfter-if (bytes_eq name (codes "QUIT")) _ _ w
                    (quit-Sendable state.protocol)
                    (SendableAfter-if (bytes_eq name (codes "SET")) _ _ w
                      (set-Sendable float dash clock args w state.protocol)
                      (SendableAfter-if (bytes_eq name (codes "GET")) _ _ w
                        (get-Sendable float dash clock args w state.protocol)
                        (SendableAfter-if (bytes_eq name (codes "DEL")) _ _ w
                          (del-Sendable float dash clock args w state.protocol)
                          (SendableAfter-if (bytes_eq name (codes "EXISTS")) _ _ w
                            (exists-Sendable float dash clock args w state.protocol)
                            (SendableAfter-if (bytes_eq name (codes "INCR")) _ _ w
                              (incr-Sendable float dash clock args w state.protocol)
                              (SendableAfter-if (bytes_eq name (codes "DECR")) _ _ w
                                (decr-Sendable float dash clock args w state.protocol)
                                (SendableAfter-if (bytes_eq name (codes "MGET")) _ _ w
                                  (mget-Sendable float dash clock args w state.protocol)
                                  (SendableAfter-if (bytes_eq name (codes "MSET")) _ _ w
                                    (mset-Sendable float dash clock args w state.protocol)
                                    (SendableAfter-if (bytes_eq name (codes "EXPIRE")) _ _ w
                                      (expire-Sendable float dash clock args w state.protocol)
                                      (SendableAfter-if (bytes_eq name (codes "TTL")) _ _ w
                                        (ttl-Sendable float dash clock args w state.protocol)
                                        (error_bytes-Sendable float _
                                          state.protocol)))))))))))))))))

  -- The encoder takes every reply of `execute`, attributes included, in the protocol that the
  -- connection speaks when the command is done.
  pub execute-encodes :
      (command : Command) (state : ConnectionState) (w : World dash.Map)
      → (encode_response float
          (execute dash clock host command state w).0.0.response
          (execute dash clock host command state w).0.0.attributes
          (execute dash clock host command state w).0.1.protocol).failure
        ≡ none
  unfolding execute
  execute-encodes command state w = (execute_named-Sendable command.name command.args state w).taken
