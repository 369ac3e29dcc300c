-- ===== src/Command/Parse.antt =====
-- `Command::from_frame_with_protocol` and `to_arg_bytes`.
use ralphdb.Prelude.{Bool, true, false, Option, none, some, List, [], ◌∷◌, Bytes, codes, String}
use ralphdb.Text.Utf8.{from_utf8}
use ralphdb.Text.Ascii.{to_ascii_uppercase}
use ralphdb.Text.Decimal.{print_i64}
use ralphdb.Protocol.Frame.{
  Frame, Frames, simple_string, integer, bulk_string, array, boolean, double, verbatim_string,
  big_number, nil, cons, ProtocolVersion, resp2, resp3, Float64,
}
use ralphdb.Command.Types.{Command}

-- `Result<_, String>`.
pub data Parsed (A : Type 0) : Type 0 where
  ok : A → Parsed A
  err : Bytes → Parsed A

infixl 5 ◌>>=◌
abbrev pub ◌>>=◌ : {A B : Type 0} → Parsed A → (A → Parsed B) → Parsed B
ok a >>= f = f a
err message >>= f = err message

abbrev pub reject : {A : Type 0} → String → Parsed A
reject message = err (codes message)

abbrev bool_text : Bool → Bytes
bool_text true = codes "true"
bool_text false = codes "false"

abbrev pub name_of_text : Option Bytes → Parsed Bytes
name_of_text none = reject "ERR invalid command name encoding"
name_of_text (some name) = ok name

unfoldable pub command_name : Frame → Parsed Bytes
unfolding from_utf8
command_name (simple_string s) = ok s
command_name (bulk_string (some bytes)) = name_of_text (from_utf8 bytes)
command_name _ = reject "ERR invalid command name"

module _ (float : Float64) where
  unfoldable pub to_arg_bytes : Frame → ProtocolVersion → Parsed Bytes
  unfolding print_i64
  to_arg_bytes (bulk_string (some bytes)) _ = ok bytes
  to_arg_bytes (bulk_string none) _ = reject "ERR null bulk string not allowed"
  to_arg_bytes (simple_string s) _ = ok s
  to_arg_bytes (integer i) _ = ok (print_i64 i)
  to_arg_bytes (boolean value) resp3 = ok (bool_text value)
  to_arg_bytes (double value) resp3 = ok (float.to_string value)
  to_arg_bytes (big_number value) resp3 = ok value
  to_arg_bytes (verbatim_string format payload) resp3 = ok payload
  to_arg_bytes _ _ = reject "ERR unsupported argument type"

  -- The arguments in order, up to the first that is refused.
  unfoldable pub collect_args : Frames → ProtocolVersion → Parsed (List Bytes)
  unfolding to_arg_bytes
  collect_args nil protocol = ok []
  collect_args (cons x xs) protocol = do
    arg ← to_arg_bytes x protocol
    args ← collect_args xs protocol
    ok (arg ∷ args)

  unfoldable pub from_frame_with_protocol : Frame → ProtocolVersion → Parsed Command
  unfolding command_name collect_args to_ascii_uppercase
  from_frame_with_protocol (array nil) protocol = reject "ERR missing command"
  from_frame_with_protocol (array (cons command rest)) protocol = do
    name ← command_name command
    args ← collect_args rest protocol
    ok (record { name = to_ascii_uppercase name; args = args })
  from_frame_with_protocol _ protocol = reject "ERR command must be an array"

  -- `Command::try_from`.
  unfoldable pub try_from : Frame → Parsed Command
  unfolding from_frame_with_protocol
  try_from value = from_frame_with_protocol value resp2
