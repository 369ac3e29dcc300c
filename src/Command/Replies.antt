-- ===== src/Command/Replies.antt =====
-- The replies of the handlers that do not call the store can be sent in any protocol, or in the one
-- that the connection then speaks.
pub mod Stored
pub mod Executed
use ralphdb.Prelude.{
  ℕ, ◌≡◌, refl, Bool, true, false, Option, none, some, List, [], ◌∷◌, Bytes, codes, bytes_eq,
  if◌then◌else◌, ◌==◌, not,
}
use ralphdb.Protocol.Frame.{Frame, frames, ProtocolVersion, resp2, resp3, Float64}
use ralphdb.Protocol.Encode.{encode_frame, encode_items, encode_response}
use ralphdb.Command.Types.{ConnectionState, CommandResult, ok, failure, error_bytes}
use ralphdb.Command.Config.{Host, config, config_get, entry_frames, select_entries, config_entries}
use ralphdb.Text.Ascii.{to_ascii_uppercase, to_ascii_lowercase}
use ralphdb.Text.Utf8.{from_utf8_lossy, from_utf8}
use ralphdb.Command.Handlers.{
  ping, echo, hello, hello_version, parse_version, info, info_section, bulk_or_null, bulks_or_nulls,
}
use ralphdb.Command.Client.{
  client, client_subcommand, client_setname, client_getname, client_id, client_list,
  client_attribute, list_reply, getname_reply,
}

module _ (float : Float64) where
  -- The encoder takes the reply.
  pub record Sendable (result : CommandResult) (protocol : ProtocolVersion) : Type 0 where
    pub taken : (encode_response float result.response result.attributes protocol).failure ≡ none

  pub error_bytes-Sendable : (m : Bytes) (v : ProtocolVersion) → Sendable (error_bytes m) v
  unfolding encode_response
  error_bytes-Sendable m resp2 = record { taken = refl }
  error_bytes-Sendable m resp3 = record { taken = refl }

  pub bulk_or_null-encodes :
      (o : Option Bytes) (v : ProtocolVersion)
      → (encode_frame float (bulk_or_null o) v).failure ≡ none
  unfolding encode_frame
  bulk_or_null-encodes none resp2 = refl
  bulk_or_null-encodes none resp3 = refl
  bulk_or_null-encodes (some b) v = refl

  pub bulks_or_nulls-encodes :
      (os : List (Option Bytes)) (v : ProtocolVersion)
      → (encode_items float (frames (bulks_or_nulls os)) v).failure ≡ none
  unfolding encode_frame
  bulks_or_nulls-encodes [] v = refl
  bulks_or_nulls-encodes (o ∷ os) v = rw (bulk_or_null-encodes o v) (bulks_or_nulls-encodes os v)

  pub entry_frames-encodes :
      (es : List (Bytes × Bytes)) (v : ProtocolVersion)
      → (encode_items float (frames (entry_frames es)) v).failure ≡ none
  unfolding encode_frame
  entry_frames-encodes [] v = refl
  entry_frames-encodes ((key, value) ∷ es) v = entry_frames-encodes es v

  pub ok-Sendable :
      (x : Frame) (v : ProtocolVersion)
      → (encode_frame float x v).failure ≡ none
      → Sendable (ok x) v
  unfolding encode_response
  ok-Sendable x resp2 h = record { taken = h }
  ok-Sendable x resp3 h = record { taken = h }

  pub if-Sendable :
      (b : Bool) (x y : CommandResult) (v : ProtocolVersion)
      → Sendable x v
      → Sendable y v
      → Sendable (if b then x else y) v
  if-Sendable true x y v h k = h
  if-Sendable false x y v h k = k

  pub ping-Sendable : (args : List Bytes) (v : ProtocolVersion) → Sendable (ping args) v
  unfolding ping encode_response encode_frame
  ping-Sendable [] v = ok-Sendable _ v refl
  ping-Sendable (m ∷ []) v = ok-Sendable _ v refl
  ping-Sendable (m ∷ n ∷ ms) v = error_bytes-Sendable _ v

  pub echo-Sendable : (args : List Bytes) (v : ProtocolVersion) → Sendable (echo args) v
  unfolding echo encode_response encode_frame
  echo-Sendable [] v = error_bytes-Sendable _ v
  echo-Sendable (m ∷ []) v = ok-Sendable _ v refl
  echo-Sendable (m ∷ n ∷ ms) v = error_bytes-Sendable _ v

  pub info_section-Sendable : (s : Bytes) (v : ProtocolVersion) → Sendable (info_section s) v
  unfolding info_section encode_response encode_frame
  info_section-Sendable s v =
      if-Sendable (bytes_eq s (codes "default")) _ _ v (ok-Sendable _ v refl) (
        if-Sendable (bytes_eq s (codes "server")) _ _ v (ok-Sendable _ v refl)
          (error_bytes-Sendable _ v))

  pub info-Sendable : (args : List Bytes) (v : ProtocolVersion) → Sendable (info args) v
  unfolding info
  info-Sendable [] v = info_section-Sendable (codes "default") v
  info-Sendable (m ∷ []) v = info_section-Sendable (to_ascii_lowercase (from_utf8_lossy m)) v
  info-Sendable (m ∷ n ∷ ms) v = error_bytes-Sendable _ v

  pub config_get-Sendable :
      (host : Host) (p : Option Bytes) (v : ProtocolVersion) → Sendable (config_get host p) v
  unfolding encode_response encode_frame
  config_get-Sendable host none v = error_bytes-Sendable _ v
  config_get-Sendable host (some p) v =
      ok-Sendable _ v (entry_frames-encodes (select_entries p (config_entries host)) v)

  pub config-Sendable :
      (host : Host) (args : List Bytes) (v : ProtocolVersion) → Sendable (config host args) v
  unfolding config
  config-Sendable host [] v = error_bytes-Sendable _ v
  config-Sendable host (m ∷ []) v = error_bytes-Sendable _ v
  config-Sendable host (m ∷ n ∷ []) v =
      if-Sendable (not (bytes_eq (to_ascii_uppercase (from_utf8_lossy m)) (codes "GET"))) _ _ v
        (error_bytes-Sendable _ v) (config_get-Sendable host (from_utf8 n) v)
  config-Sendable host (m ∷ n ∷ o ∷ ms) v = error_bytes-Sendable _ v

  -- Handlers that change the connection: the reply goes out in the new protocol.
  abbrev pub Answers : CommandResult × ConnectionState → Type 0
  Answers (result, state) = Sendable result state.protocol

  pub if-Answers :
      (b : Bool) (x y : CommandResult × ConnectionState)
      → Answers x
      → Answers y
      → Answers (if b then x else y)
  if-Answers true x y h k = h
  if-Answers false x y h k = k

  pub hello_version-Answers :
      (version : Option ℕ) (state : ConnectionState) → Answers (hello_version version state)
  unfolding hello_version encode_response encode_frame
  hello_version-Answers none state = error_bytes-Sendable _ state.protocol
  hello_version-Answers (some version) state =
      if-Answers (version == 3) _ _ (ok-Sendable _ resp3 refl) (
        if-Answers (version == 2) _ _ (ok-Sendable _ resp2 refl)
          (error_bytes-Sendable _ state.protocol))

  pub hello-Answers : (args : List Bytes) (state : ConnectionState) → Answers (hello args state)
  unfolding hello
  hello-Answers [] state = hello_version-Answers (some 2) state
  hello-Answers (m ∷ []) state = hello_version-Answers (parse_version m) state
  hello-Answers (m ∷ n ∷ ms) state = error_bytes-Sendable _ state.protocol

  pub client_setname-Answers :
      (args : List Bytes) (state : ConnectionState) → Answers (client_setname args state)
  unfolding client_setname encode_frame
  client_setname-Answers [] state = error_bytes-Sendable _ state.protocol
  client_setname-Answers (m ∷ []) state = ok-Sendable _ state.protocol refl
  client_setname-Answers (m ∷ n ∷ ms) state = error_bytes-Sendable _ state.protocol

  pub getname_reply-Sendable :
      (args : List Bytes) (state : ConnectionState) (v : ProtocolVersion)
      → Sendable (getname_reply args state) v
  unfolding client_getname
  getname_reply-Sendable [] state v = ok-Sendable _ v (bulk_or_null-encodes state.client_name v)
  getname_reply-Sendable (m ∷ ms) state v = error_bytes-Sendable _ v

  pub client_id-Sendable :
      (args : List Bytes) (state : ConnectionState) (v : ProtocolVersion)
      → Sendable (client_id args state) v
  unfolding client_id encode_frame
  client_id-Sendable [] state v = ok-Sendable _ v refl
  client_id-Sendable (m ∷ ms) state v = error_bytes-Sendable _ v

  pub list_reply-Sendable :
      (v : ProtocolVersion) (state : ConnectionState) → Sendable (list_reply v state) v
  unfolding client_attribute encode_response encode_frame
  list_reply-Sendable resp2 state = record { taken = refl }
  list_reply-Sendable resp3 state = record {
    taken = rw (bulk_or_null-encodes state.client_name resp3) refl;
  }

  pub client_list-Sendable :
      (args : List Bytes) (state : ConnectionState)
      → Sendable (client_list args state) state.protocol
  unfolding client_list
  client_list-Sendable [] state = list_reply-Sendable state.protocol state
  client_list-Sendable (m ∷ ms) state = error_bytes-Sendable _ state.protocol

  pub client_subcommand-Answers :
      (s : Bytes) (args : List Bytes) (state : ConnectionState)
      → Answers (client_subcommand s args state)
  unfolding client_subcommand
  client_subcommand-Answers s args state =
      if-Answers (bytes_eq s (codes "SETNAME")) _ _ (client_setname-Answers args state) (
        if-Answers (bytes_eq s (codes "GETNAME")) _ _
          (getname_reply-Sendable args state state.protocol)
          (if-Answers (bytes_eq s (codes "LIST")) _ _ (client_list-Sendable args state) (
            if-Answers (bytes_eq s (codes "ID")) _ _ (client_id-Sendable args state state.protocol)
              (error_bytes-Sendable _ state.protocol))))

  pub client-Answers : (args : List Bytes) (state : ConnectionState) → Answers (client args state)
  unfolding client
  client-Answers [] state = error_bytes-Sendable _ state.protocol
  client-Answers (m ∷ ms) state =
      client_subcommand-Answers (to_ascii_uppercase (from_utf8_lossy m)) ms state
