-- ===== src/Command/Types.antt =====
-- `Command`, `ConnectionState` and `CommandResult`.
use ralphdb.Prelude.{
  ◌-◌, ◌^◌, Bool, false, Option, none, some, List, Bytes, codes, String, if◌then◌else◌,
}
use ralphdb.Prelude.Int.{ℤ, pos, negsuc, ◌+ℤ◌, in_i64}
use ralphdb.Protocol.Frame.{Frame, Pairs, ProtocolVersion, resp2, error}

pub record Command : Type 0 where
  pub name : Bytes
  pub args : List Bytes

pub record ConnectionState : Type 0 where
  pub protocol : ProtocolVersion
  pub client_name : Option Bytes
  pub client_id : ℤ

-- `fetch_add(1)` on the `AtomicI64` wraps around.
abbrev pub next_id : ℤ → ℤ
next_id z = if in_i64 (z +ℤ pos 1) then z +ℤ pos 1 else negsuc (2 ^ 63 - 1)

-- `ConnectionState::default`, and the counter of client ids afterwards.
unfoldable pub new_connection : ℤ → ConnectionState × ℤ
new_connection counter =
    (record { protocol = resp2; client_name = none; client_id = counter }, next_id counter)

pub record CommandResult : Type 0 where
  pub response : Frame
  pub attributes : Option Pairs
  pub close : Bool

abbrev pub ok : Frame → CommandResult
ok response = record { response = response; attributes = none; close = false }

abbrev pub with_attributes : Frame → Pairs → CommandResult
with_attributes response attributes = record {
  response = response;
  attributes = some attributes;
  close = false;
}

abbrev pub error_bytes : Bytes → CommandResult
error_bytes message = record { response = error message; attributes = none; close = false }

-- `CommandResult::error`.
abbrev pub failure : String → CommandResult
failure message = error_bytes (codes message)
