-- ===== src/Protocol/Refuse.antt =====
-- Which frames a version of the protocol refuses.
use ralphdb.Prelude.{
  ◌≡◌, refl, Bool, true, false, ◌&&◌, Option, none, some, arith, length, ◌==◌, ◌∙◌,
}
use ralphdb.Protocol.Frame.{
  Frame, Frames, Pairs, simple_string, error, integer, bulk_string, array, null_array, null,
  boolean, double, null_map, set, null_set, push, attribute, verbatim_string, big_number, nil, cons,
  end, pair, Float64, IoError, ProtocolVersion, resp2, resp3,
}
use ralphdb.Protocol.Encode.{Written, encode_frame, encode_items, encode_entries, ◌⨾◌}

abbrev pub no_failure : Option IoError → Bool
no_failure none = true
no_failure (some _) = false

abbrev pub succeeds : Written → Bool
succeeds w = no_failure w.failure

abbrev pub is_resp3 : ProtocolVersion → Bool
is_resp3 resp3 = true
is_resp3 resp2 = false

-- Maps, sets, pushes, attributes, verbatim strings and big numbers are RESP3's, at any depth, and
-- the format of a verbatim string has three bytes.
abbrev mutual
  pub carries : ProtocolVersion → Frame → Bool
  carries v (array xs) = carries_items v xs
  carries v (Frame.map ps) = is_resp3 v && carries_entries v ps
  carries v null_map = is_resp3 v
  carries v (set xs) = is_resp3 v && carries_items v xs
  carries v null_set = is_resp3 v
  carries v (push xs) = is_resp3 v && carries_items v xs
  carries v (attribute ps) = is_resp3 v && carries_entries v ps
  carries v (verbatim_string format payload) = is_resp3 v && length format == 3
  carries v (big_number value) = is_resp3 v
  carries v _ = true

  pub carries_items : ProtocolVersion → Frames → Bool
  carries_items v nil = true
  carries_items v (cons x xs) = carries v x && carries_items v xs

  pub carries_entries : ProtocolVersion → Pairs → Bool
  carries_entries v end = true
  carries_entries v (pair key value ps) = carries v key && (carries v value && carries_entries v ps)

and_then-succeeds : (v w : Written) → succeeds (v ⨾ w) ≡ succeeds v && succeeds w
and_then-succeeds v w = ground arith

module _ (float : Float64) where
  mutual
    unfolding encode_frame

    frame-succeeds :
        (x : Frame) (v : ProtocolVersion) → succeeds (encode_frame float x v) ≡ carries v x
    frame-succeeds (simple_string t) v = refl
    frame-succeeds (error t) v = refl
    frame-succeeds (integer z) v = refl
    frame-succeeds (bulk_string none) v = refl
    frame-succeeds (bulk_string (some b)) v = refl
    frame-succeeds (array xs) v = items-succeeds xs v
    frame-succeeds null_array v = refl
    frame-succeeds null resp2 = refl
    frame-succeeds null resp3 = refl
    frame-succeeds (boolean b) resp2 = refl
    frame-succeeds (boolean b) resp3 = refl
    frame-succeeds (double d) resp2 = refl
    frame-succeeds (double d) resp3 = refl
    frame-succeeds (Frame.map ps) resp2 = refl
    frame-succeeds (Frame.map ps) resp3 = entries-succeeds ps resp3
    frame-succeeds null_map resp2 = refl
    frame-succeeds null_map resp3 = refl
    frame-succeeds (set xs) resp2 = refl
    frame-succeeds (set xs) resp3 = items-succeeds xs resp3
    frame-succeeds null_set resp2 = refl
    frame-succeeds null_set resp3 = refl
    frame-succeeds (push xs) resp2 = refl
    frame-succeeds (push xs) resp3 = items-succeeds xs resp3
    frame-succeeds (attribute ps) resp2 = refl
    frame-succeeds (attribute ps) resp3 = entries-succeeds ps resp3
    frame-succeeds (verbatim_string format payload) resp2 = refl
    frame-succeeds (verbatim_string format payload) resp3 = ground arith
    frame-succeeds (big_number t) resp2 = refl
    frame-succeeds (big_number t) resp3 = refl

    items-succeeds :
        (xs : Frames) (v : ProtocolVersion)
        → succeeds (encode_items float xs v) ≡ carries_items v xs
    items-succeeds nil v = refl
    items-succeeds (cons x xs) v =
        and_then-succeeds (encode_frame float x v) (encode_items float xs v)
        ∙ rw (frame-succeeds x v, items-succeeds xs v) refl

    entries-succeeds :
        (ps : Pairs) (v : ProtocolVersion)
        → succeeds (encode_entries float ps v) ≡ carries_entries v ps
    entries-succeeds end v = refl
    entries-succeeds (pair key value ps) v =
        and_then-succeeds (encode_frame float key v)
          (encode_frame float value v ⨾ encode_entries float ps v)
        ∙ rw
            (
              and_then-succeeds (encode_frame float value v) (encode_entries float ps v),
              frame-succeeds key v,
              frame-succeeds value v,
              entries-succeeds ps v,
            )
            refl

  -- `encode_frame` succeeds exactly on the frames that the version carries.
  pub encode_frame-succeeds :
      (x : Frame) (v : ProtocolVersion) → succeeds (encode_frame float x v) ≡ carries v x
  encode_frame-succeeds x v = frame-succeeds x v
