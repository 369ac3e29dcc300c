-- ===== src/Server/Words.antt =====
-- A request as clients send it, through decoder, parser and dispatch.
use ralphdb.Prelude.{ℕ, ◌≤◌, ◌≡◌, refl, true, Option, List, [], ◌∷◌, Bytes, length, arith, ◌∙◌}
use ralphdb.Text.Utf8.{is_utf8}
use ralphdb.Text.Ascii.{to_ascii_uppercase}
use ralphdb.Protocol.Frame.{
  array, frames, count, Float64, IoError, resp3, max_bulk_size, max_collection_size,
}
use ralphdb.Protocol.Reader.{Stream, feed}
use ralphdb.Protocol.Encode.{encode_frame}
use ralphdb.Protocol.Encodable.{EncodableItems}
use ralphdb.Storage.Map.{DashMap}
use ralphdb.Storage.Ops.{Entry}
use ralphdb.Command.Words.{words, from_frame-words}
use ralphdb.Command.Config.{Host}
use ralphdb.Server.Connection.{Connection, round, serve_command, serve_frame}
use ralphdb.Server.Pipeline.{round-request}

-- All of the words are within the size of a bulk string.
abbrev pub AllFit : List Bytes → Type 0
AllFit [] = Unit
AllFit (word ∷ rest) = (length word ≤ max_bulk_size) × AllFit rest

count-words : (ws : List Bytes) → count (frames (words ws)) ≡ length ws
count-words [] = refl
count-words (w ∷ ws) = rw (count-words ws) refl

words-EncodableItems :
    (float : Float64) (ws : List Bytes) → AllFit ws → EncodableItems float resp3 (frames (words ws))
words-EncodableItems float [] h = tt
words-EncodableItems float (w ∷ ws) (h, hs) = (h, words-EncodableItems float ws hs)

-- When a client has sent a command as an array of bulk strings, with a name in UTF-8 and within the
-- limits, the next round of the loop executes exactly the command with that name in upper case and
-- those arguments, and leaves what the client sent behind it.
pub round-words :
    (float : Float64) (dash : DashMap Entry) (clock : ℕ → ℕ) (host : Host)
    (flush : ℕ → Option IoError) (name : Bytes) (args : List Bytes) (s : Stream)
    (c : Connection dash.Map)
    → is_utf8 name ≡ true
    → AllFit (name ∷ args)
    → length (name ∷ args) ≤ max_collection_size
    → c.input ≡ feed (encode_frame float (array (frames (words (name ∷ args)))) resp3).out s
    → round float dash clock host flush c
      ≡ serve_command float dash clock host flush
          (record { name = to_ascii_uppercase name; args = args })
          (record c { input = s })
unfolding serve_frame
round-words float dash clock host flush name args s c utf8 fit few sent =
    round-request float dash clock host flush (array (frames (words (name ∷ args)))) s c
      (omega (arith, count-words (name ∷ args)), words-EncodableItems float (name ∷ args) fit) sent
    ∙ rw (from_frame-words float name args c.session.protocol utf8) refl
