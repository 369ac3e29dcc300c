-- ===== src/Protocol/Encodable.antt =====
-- Which frames a version of the protocol can carry, and what a reader then sees of them.
use ralphdb.Prelude.{
  ℕ, suc, ◌+◌, ◌≤◌, ◌≡◌, ◌≢◌, Bool, true, false, Option, none, some, [], Bytes, All, length,
}
use ralphdb.Prelude.Int.{pos, InI64}
use ralphdb.Text.Utf8.{IsAscii}
use ralphdb.Protocol.Frame.{
  Frame, Frames, Pairs, simple_string, error, integer, bulk_string, array, null_array, null,
  boolean, double, null_map, set, null_set, push, attribute, verbatim_string, big_number, nil, cons,
  end, pair, count, count_pairs, ProtocolVersion, resp2, resp3, Float64, max_bulk_size,
  max_collection_size,
}
use ralphdb.Protocol.Lines.{IsLine}

-- In RESP3 only.
abbrev pub Resp3Only : ProtocolVersion → Type 0 → Type 0
Resp3Only resp3 P = P
Resp3Only resp2 P = ⊥

abbrev pub VerbatimEncodable : Bytes → Bytes → Type 0
VerbatimEncodable format payload =
    (length format ≡ 3) × All IsAscii format × (4 + length payload ≤ max_bulk_size)

abbrev pub BulkFits : Option Bytes → Type 0
BulkFits none = Unit
BulkFits (some bytes) = length bytes ≤ max_bulk_size

abbrev pub view_boolean : ProtocolVersion → Bool → Frame
view_boolean resp3 b = boolean b
view_boolean resp2 true = integer (pos 1)
view_boolean resp2 false = integer (pos 0)

abbrev pub view_null : ProtocolVersion → Frame
view_null resp3 = null
view_null resp2 = bulk_string none

module _ (float : Float64) where
  -- The text of a double, where it can be read back.
  abbrev pub DoubleEncodable : ProtocolVersion → ℕ → Type 0
  DoubleEncodable resp3 x =
      IsLine (float.to_string x) × (float.from_str (float.to_string x) ≡ some x)
  DoubleEncodable resp2 x = length (float.to_string x) ≤ max_bulk_size

  -- Texts in lines are UTF-8 with no line feed, numbers and lengths are in range, collections are
  -- within the limits; maps, sets, pushes, attributes, verbatim strings and big numbers are RESP3's.
  abbrev mutual
    pub Encodable : ProtocolVersion → Frame → Type 0
    Encodable v (simple_string text) = IsLine text
    Encodable v (error text) = IsLine text
    Encodable v (integer z) = InI64 z
    Encodable v (bulk_string bytes) = BulkFits bytes
    Encodable v (array xs) = (count xs ≤ max_collection_size) × EncodableItems v xs
    Encodable v null_array = Unit
    Encodable v null = Unit
    Encodable v (boolean b) = Unit
    Encodable v (double x) = DoubleEncodable v x
    Encodable v (Frame.map ps) =
        Resp3Only v ((count_pairs ps ≤ max_collection_size) × EncodableEntries v ps)
    Encodable v null_map = Resp3Only v Unit
    Encodable v (set xs) = Resp3Only v ((count xs ≤ max_collection_size) × EncodableItems v xs)
    Encodable v null_set = Resp3Only v Unit
    Encodable v (push xs) = Resp3Only v ((count xs ≤ max_collection_size) × EncodableItems v xs)
    Encodable v (attribute ps) =
        Resp3Only v ((count_pairs ps ≤ max_collection_size) × EncodableEntries v ps)
    Encodable v (verbatim_string format payload) = Resp3Only v (VerbatimEncodable format payload)
    Encodable v (big_number text) = Resp3Only v (IsLine text × (text ≢ []))

    pub EncodableItems : ProtocolVersion → Frames → Type 0
    EncodableItems v nil = Unit
    EncodableItems v (cons x xs) = Encodable v x × EncodableItems v xs

    pub EncodableEntries : ProtocolVersion → Pairs → Type 0
    EncodableEntries v end = Unit
    EncodableEntries v (pair key value ps) =
        Encodable v key × Encodable v value × EncodableEntries v ps

  abbrev pub view_double : ProtocolVersion → ℕ → Frame
  view_double resp3 x = double x
  view_double resp2 x = bulk_string (some (float.to_string x))

  -- What is read of a frame: in RESP2 nulls are null bulk strings, booleans are 0 or 1, and doubles
  -- are texts.
  abbrev mutual
    pub view : ProtocolVersion → Frame → Frame
    view v (array xs) = array (view_items v xs)
    view v null = view_null v
    view v (boolean b) = view_boolean v b
    view v (double x) = view_double v x
    view v (Frame.map ps) = Frame.map (view_entries v ps)
    view v (set xs) = set (view_items v xs)
    view v (push xs) = push (view_items v xs)
    view v (attribute ps) = attribute (view_entries v ps)
    view v x = x

    pub view_items : ProtocolVersion → Frames → Frames
    view_items v nil = nil
    view_items v (cons x xs) = cons (view v x) (view_items v xs)

    pub view_entries : ProtocolVersion → Pairs → Pairs
    view_entries v end = end
    view_entries v (pair key value ps) = pair (view v key) (view v value) (view_entries v ps)

-- The collections in a frame, itself included: a bound for the nesting.
abbrev mutual
  pub collections : Frame → ℕ
  collections (array xs) = suc (collections_items xs)
  collections (Frame.map ps) = suc (collections_entries ps)
  collections (set xs) = suc (collections_items xs)
  collections (push xs) = suc (collections_items xs)
  collections (attribute ps) = suc (collections_entries ps)
  collections x = 0

  pub collections_items : Frames → ℕ
  collections_items nil = 0
  collections_items (cons x xs) = collections x + collections_items xs

  pub collections_entries : Pairs → ℕ
  collections_entries end = 0
  collections_entries (pair key value ps) =
      collections key + (collections value + collections_entries ps)
