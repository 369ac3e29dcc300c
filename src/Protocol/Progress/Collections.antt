-- ===== src/Protocol/Progress/Collections.antt =====
-- The limits that the decoders of collections enforce.
use ralphdb.Prelude.{ℕ, zero, suc, ◌≡◌, inl, refl, none, some, arith}
use ralphdb.Protocol.Frame.{Frame, Frames, Pairs, count, count_pairs}
use ralphdb.Protocol.Reader.{Reader}
use ralphdb.Protocol.Decode.{
  decode_items, decode_entries, decode_array, decode_map, decode_set, decode_push, decode_attribute,
}
use ralphdb.Protocol.Consume.{Consumes, Consumes-pure, Consumes-bind}
use ralphdb.Protocol.Progress.Parts.{
  Decoded, DecodedItems, DecodedEntries, read_count-Consumes, read_positive_count-Consumes,
}

-- The collections, over a reader of frames that keeps the limits.
module _ (f : ℕ) (self : Reader Frame) (self_Consumes : Consumes f Decoded self) where
  abbrev Items : ℕ → Frames → Type 0
  Items n xs = (count xs ≡ n) × DecodedItems xs

  abbrev Entries : ℕ → Pairs → Type 0
  Entries n ps = (count_pairs ps ≡ n) × DecodedEntries ps

  decode_items-Consumes : (n : ℕ) → Consumes f (Items n) (decode_items self n)
  unfolding decode_items
  decode_items-Consumes zero = Consumes-pure f _ (refl, tt)
  decode_items-Consumes (suc n) = Consumes-bind f _ _ self_Consumes λ x hx.
      Consumes-bind f _ _ (decode_items-Consumes n)
        λ xs hxs. Consumes-pure f _ (omega (arith, hxs.0), (hx, hxs.1))

  decode_entries-Consumes : (n : ℕ) → Consumes f (Entries n) (decode_entries self n)
  unfolding decode_entries
  decode_entries-Consumes zero = Consumes-pure f _ (refl, tt)
  decode_entries-Consumes (suc n) = Consumes-bind f _ _ self_Consumes λ k hk.
      Consumes-bind f _ _ self_Consumes λ v hv.
        Consumes-bind f _ _ (decode_entries-Consumes n)
          λ ps hps. Consumes-pure f _ (omega (arith, hps.0), (hk, hv, hps.1))

  pub decode_array-Consumes : Consumes f Decoded (decode_array self)
  unfolding decode_array
  decode_array-Consumes = Consumes-bind f _ _ (read_count-Consumes f "invalid array length") (elim [
    | none ↦ λ _. Consumes-pure f _ tt
    | some n ↦ λ fits.
        Consumes-bind f _ _ (decode_items-Consumes n)
          λ xs h. Consumes-pure f _ (inl (omega (arith, h.0), h.1))
  ])

  pub decode_set-Consumes : Consumes f Decoded (decode_set self)
  unfolding decode_set
  decode_set-Consumes = Consumes-bind f _ _ (read_count-Consumes f "invalid set length") (elim [
    | none ↦ λ _. Consumes-pure f _ tt
    | some n ↦ λ fits.
        Consumes-bind f _ _ (decode_items-Consumes n)
          λ xs h. Consumes-pure f _ (omega (arith, h.0), h.1)
  ])

  pub decode_map-Consumes : Consumes f Decoded (decode_map self)
  unfolding decode_map
  decode_map-Consumes = Consumes-bind f _ _ (read_count-Consumes f "invalid map length") (elim [
    | none ↦ λ _. Consumes-pure f _ tt
    | some n ↦ λ fits.
        Consumes-bind f _ _ (decode_entries-Consumes n)
          λ ps h. Consumes-pure f _ (omega (arith, h.0), h.1)
  ])

  pub decode_push-Consumes : Consumes f Decoded (decode_push self)
  unfolding decode_push
  decode_push-Consumes =
      Consumes-bind f _ _ (read_positive_count-Consumes f "invalid push length") λ n fits.
        Consumes-bind f _ _ (decode_items-Consumes n)
          λ xs h. Consumes-pure f _ (omega (arith, h.0), h.1)

  pub decode_attribute-Consumes : Consumes f Decoded (decode_attribute self)
  unfolding decode_attribute
  decode_attribute-Consumes =
      Consumes-bind f _ _ (read_positive_count-Consumes f "invalid attribute length") λ n fits.
        Consumes-bind f _ _ (decode_entries-Consumes n)
          λ ps h. Consumes-pure f _ (omega (arith, h.0), h.1)
