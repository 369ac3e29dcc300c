-- ===== src/Protocol/RoundTrip/Induction.antt =====
-- Encoder and decoder, by induction on the frame.
use ralphdb.Prelude.{suc, refl, true, false, none, some, ◌++◌, arith, length-append}
use ralphdb.Text.Decimal.{decimal}
use ralphdb.Protocol.Frame.{
  Frame, Frames, Pairs, simple_string, error, integer, bulk_string, array, null_array, null,
  boolean, double, null_map, set, null_set, push, attribute, verbatim_string, big_number, nil, cons,
  end, pair, Float64, ProtocolVersion, resp2, resp3, count, count_pairs,
}
use ralphdb.Protocol.Reader.{crlf}
use ralphdb.Protocol.Decode.{decode_items, decode_entries, decode_frame}
use ralphdb.Protocol.Encode.{encode_frame, encode_items, encode_entries}
use ralphdb.Protocol.Lines.{feed-append, read_line-feed}
use ralphdb.Protocol.Encodable.{Encodable, EncodableItems, EncodableEntries}
use ralphdb.Protocol.RoundTrip.Parts.{
  decode_array-feed, decode_set-feed, decode_push-feed, decode_map-feed, decode_attribute-feed,
  decode_bulk-feed, decode_verbatim-feed, decode_integer-feed, decode_bignum-feed,
  decode_boolean-feed, decode_null-feed, decode_double-feed,
}
use ralphdb.Protocol.RoundTrip.Reads.{
  Reads-at, encode_verbatim_lem, after_whole, ReadsFrame, ReadsItems, ReadsEntries,
}

module _ (float : Float64) where
  mutual
    unfolding encode_frame decode_frame decode_items decode_entries

    pub encode_frame-Reads :
        (v : ProtocolVersion) (x : Frame) → Encodable float v x → ReadsFrame float v x
    encode_frame-Reads v (simple_string text) h = record {
      whole = refl;
      small = omega arith;
      read = λ f s _. rw (read_line-feed text s h);
    }
    encode_frame-Reads v (error text) h = record {
      whole = refl;
      small = omega arith;
      read = λ f s _. rw (read_line-feed text s h);
    }
    encode_frame-Reads v (integer z) h = record {
      whole = refl;
      small = omega arith;
      read = λ f s _. decode_integer-feed z s h;
    }
    encode_frame-Reads v (bulk_string none) h = record {
      whole = refl;
      small = omega arith;
      read = λ f s _. refl;
    }
    encode_frame-Reads v (bulk_string (some bytes)) h = record {
      whole = refl;
      small = omega arith;
      read = λ f s _. decode_bulk-feed bytes s h;
    }
    encode_frame-Reads v (array xs) (fits, h) =
        let ih = encode_items-Reads v xs h in
        record {
          whole = ih.whole;
          small = omega (
            arith,
            ih.small,
            length-append (decimal (count xs) ++ crlf) (encode_items float xs v).out,
          );
          read = λ f s lt.
              decode_array-feed (decode_frame float f) _ _ s fits (Reads-at ih f s (omega arith));
        }
    encode_frame-Reads v null_array h = record {
      whole = refl;
      small = omega arith;
      read = λ f s _. refl;
    }
    encode_frame-Reads resp2 null h = record {
      whole = refl;
      small = omega arith;
      read = λ f s _. refl;
    }
    encode_frame-Reads resp3 null h = record {
      whole = refl;
      small = omega arith;
      read = λ f s _. decode_null-feed s;
    }
    encode_frame-Reads resp2 (boolean true) h = record {
      whole = refl;
      small = omega arith;
      read = λ f s _. refl;
    }
    encode_frame-Reads resp2 (boolean false) h = record {
      whole = refl;
      small = omega arith;
      read = λ f s _. refl;
    }
    encode_frame-Reads resp3 (boolean b) h = record {
      whole = refl;
      small = omega arith;
      read = λ f s _. decode_boolean-feed b s;
    }
    encode_frame-Reads resp2 (double x) h = record {
      whole = refl;
      small = omega arith;
      read = λ f s _. decode_bulk-feed (float.to_string x) s h;
    }
    encode_frame-Reads resp3 (double x) (h, h') = record {
      whole = refl;
      small = omega arith;
      read = λ f s _. decode_double-feed float x s h h';
    }
    encode_frame-Reads resp3 (Frame.map ps) (fits, h) =
        let ih = encode_entries-Reads resp3 ps h in
        record {
          whole = ih.whole;
          small = omega (
            arith,
            ih.small,
            length-append (decimal (count_pairs ps) ++ crlf) (encode_entries float ps resp3).out,
          );
          read = λ f s lt.
              decode_map-feed (decode_frame float f) _ _ s fits (Reads-at ih f s (omega arith));
        }
    encode_frame-Reads resp3 null_map h = record {
      whole = refl;
      small = omega arith;
      read = λ f s _. refl;
    }
    encode_frame-Reads resp3 (set xs) (fits, h) =
        let ih = encode_items-Reads resp3 xs h in
        record {
          whole = ih.whole;
          small = omega (
            arith,
            ih.small,
            length-append (decimal (count xs) ++ crlf) (encode_items float xs resp3).out,
          );
          read = λ f s lt.
              decode_set-feed (decode_frame float f) _ _ s fits (Reads-at ih f s (omega arith));
        }
    encode_frame-Reads resp3 null_set h = record {
      whole = refl;
      small = omega arith;
      read = λ f s _. refl;
    }
    encode_frame-Reads resp3 (push xs) (fits, h) =
        let ih = encode_items-Reads resp3 xs h in
        record {
          whole = ih.whole;
          small = omega (
            arith,
            ih.small,
            length-append (decimal (count xs) ++ crlf) (encode_items float xs resp3).out,
          );
          read = λ f s lt.
              decode_push-feed (decode_frame float f) _ _ s fits (Reads-at ih f s (omega arith));
        }
    encode_frame-Reads resp3 (attribute ps) (fits, h) =
        let ih = encode_entries-Reads resp3 ps h in
        record {
          whole = ih.whole;
          small = omega (
            arith,
            ih.small,
            length-append (decimal (count_pairs ps) ++ crlf) (encode_entries float ps resp3).out,
          );
          read = λ f s lt.
              decode_attribute-feed (decode_frame float f) _ _ s fits
                (Reads-at ih f s (omega arith));
        }
    encode_frame-Reads resp3 (verbatim_string format payload) h =
        rw (encode_verbatim_lem format payload h.0) (record {
          whole = refl;
          small = omega arith;
          read = λ f s _. decode_verbatim-feed format payload s h;
        })
    encode_frame-Reads resp3 (big_number text) (h, h') = record {
      whole = refl;
      small = omega arith;
      read = λ f s _. decode_bignum-feed text s h h';
    }
    encode_frame-Reads resp2 (Frame.map ps) h = absurd h
    encode_frame-Reads resp2 null_map h = absurd h
    encode_frame-Reads resp2 (set ps) h = absurd h
    encode_frame-Reads resp2 null_set h = absurd h
    encode_frame-Reads resp2 (push ps) h = absurd h
    encode_frame-Reads resp2 (attribute ps) h = absurd h
    encode_frame-Reads resp2 (verbatim_string format payload) h = absurd h
    encode_frame-Reads resp2 (big_number text) h = absurd h

    encode_items-Reads :
        (v : ProtocolVersion) (xs : Frames) → EncodableItems float v xs → ReadsItems float v xs
    encode_items-Reads v nil h = record { whole = refl; small = omega arith; read = λ f s _. refl }
    encode_items-Reads v (cons x xs) (hx, hxs) =
        let ihx = encode_frame-Reads v x hx in
        let ihxs = encode_items-Reads v xs hxs in
        rw (after_whole (encode_frame float x v) (encode_items float xs v) ihx.whole) (record {
          whole = ihxs.whole;
          small = omega (
            arith,
            ihx.small,
            ihxs.small,
            length-append (encode_frame float x v).out (encode_items float xs v).out,
          );
          read = λ f s lt. rw (
            feed-append (encode_frame float x v).out (encode_items float xs v).out s,
            Reads-at ihx (suc f) _ (omega arith),
            Reads-at ihxs (suc f) s (omega arith),
          );
        })

    encode_entries-Reads :
        (v : ProtocolVersion) (ps : Pairs) → EncodableEntries float v ps → ReadsEntries float v ps
    encode_entries-Reads v end h = record {
      whole = refl;
      small = omega arith;
      read = λ f s _. refl;
    }
    encode_entries-Reads v (pair key value ps) (hk, hv, hps) =
        let ihk = encode_frame-Reads v key hk in
        let ihv = encode_frame-Reads v value hv in
        let ihps = encode_entries-Reads v ps hps in
        rw
          (
            after_whole (encode_frame float value v) (encode_entries float ps v) ihv.whole,
            after_whole (encode_frame float key v) _ ihk.whole,
          )
          (record {
            whole = ihps.whole;
            small = omega (
              arith,
              ihk.small,
              ihv.small,
              ihps.small,
              length-append (encode_frame float value v).out (encode_entries float ps v).out,
              length-append (encode_frame float key v).out
                  ((encode_frame float value v).out ++ (encode_entries float ps v).out),
            );
            read = λ f s lt. rw (
              feed-append (encode_frame float key v).out _ s,
              feed-append (encode_frame float value v).out _ s,
              Reads-at ihk (suc f) _ (omega arith),
              Reads-at ihv (suc f) _ (omega arith),
              Reads-at ihps (suc f) s (omega arith),
            );
          })
