-- ===== src/Protocol/Frame.antt =====
-- The frames of src/protocol/mod.rs, the protocol versions and the I/O errors.
use ralphdb.Prelude.{ℕ, suc, ◌*◌, Bool, Option, List, [], ◌∷◌, Bytes}
use ralphdb.Prelude.Int.{ℤ}

abbrev pub max_bulk_size : ℕ
max_bulk_size = 32 * 1024 * 1024

abbrev pub max_collection_size : ℕ
max_collection_size = 1_000_000

pub data ProtocolVersion : Type 0 where
  resp2 resp3 : ProtocolVersion

-- Texts and byte strings are their bytes; an `f64` is its 64-bit pattern. `Array(None)`,
-- `Map(None)` and `Set(None)` are the `null_` constructors; `Frames` and `Pairs` are the vectors.
mutual
  pub data Frame : Type 0 where
    simple_string : Bytes → Frame
    error : Bytes → Frame
    integer : ℤ → Frame
    bulk_string : Option Bytes → Frame
    array : Frames → Frame
    null_array : Frame
    null : Frame
    boolean : Bool → Frame
    double : ℕ → Frame
    map : Pairs → Frame
    null_map : Frame
    set : Frames → Frame
    null_set : Frame
    push : Frames → Frame
    attribute : Pairs → Frame
    verbatim_string : Bytes → Bytes → Frame
    big_number : Bytes → Frame

  pub data Frames : Type 0 where
    nil : Frames
    cons : Frame → Frames → Frames

  pub data Pairs : Type 0 where
    end : Pairs
    pair : Frame → Frame → Pairs → Pairs

abbrev pub count : Frames → ℕ
count nil = 0
count (cons x xs) = suc (count xs)

abbrev pub count_pairs : Pairs → ℕ
count_pairs end = 0
count_pairs (pair k v ps) = suc (count_pairs ps)

-- A vector of frames built from a list.
abbrev pub frames : List Frame → Frames
frames [] = nil
frames (x ∷ xs) = cons x (frames xs)

abbrev pub pairs : List (Frame × Frame) → Pairs
pairs [] = end
pairs ((k, v) ∷ ps) = pair k v (pairs ps)

-- The kinds of `io::ErrorKind` that the program tells apart, and `other` for the rest.
pub data ErrorKind : Type 0 where
  unexpected_eof invalid_data invalid_input would_block timed_out other : ErrorKind

pub record IoError : Type 0 where
  pub kind : ErrorKind
  pub message : Bytes

-- The conversions of `f64` are the standard library's: its `FromStr` and its `Display`.
pub record Float64 : Type 0 where
  pub from_str : Bytes → Option ℕ
  pub to_string : ℕ → Bytes
