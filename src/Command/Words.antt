-- ===== src/Command/Words.antt =====
-- A command as clients send it: an array of bulk strings.
use ralphdb.Prelude.{◌≡◌, refl, true, some, List, [], ◌∷◌, Bytes}
use ralphdb.Text.Utf8.{is_utf8, from_utf8}
use ralphdb.Text.Ascii.{to_ascii_uppercase}
use ralphdb.Protocol.Frame.{Frame, bulk_string, array, frames, Float64, ProtocolVersion}
use ralphdb.Command.Parse.{ok, collect_args, command_name, to_arg_bytes, from_frame_with_protocol}

abbrev pub words : List Bytes → List Frame
words [] = []
words (word ∷ rest) = bulk_string (some word) ∷ words rest

module _ (float : Float64) where
  collect_args-words :
      (args : List Bytes) (v : ProtocolVersion)
      → collect_args float (frames (words args)) v ≡ ok args
  unfolding collect_args to_arg_bytes
  collect_args-words [] v = refl
  collect_args-words (arg ∷ args) v = rw (collect_args-words args v) refl

  -- An array of bulk strings whose first is valid UTF-8 is a command in either version: the first is
  -- the name, in upper case, and the others are the arguments, whatever bytes they hold.
  pub from_frame-words :
      (name : Bytes) (args : List Bytes) (v : ProtocolVersion)
      → is_utf8 name ≡ true
      → from_frame_with_protocol float (array (frames (words (name ∷ args)))) v
        ≡ ok (record { name = to_ascii_uppercase name; args = args })
  unfolding from_frame_with_protocol command_name from_utf8
  from_frame-words name args v h = rw (h, collect_args-words args v) refl
