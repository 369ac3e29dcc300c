-- ===== src/Command/Replies/Stored.antt =====
-- The replies of the handlers that call the store can be sent in any protocol.
use ralphdb.Prelude.{
  ℕ, refl, Bool, true, false, Option, none, some, List, [], ◌∷◌, Bytes, Bool-cases, inl, inr,
}
use ralphdb.Prelude.Int.{ℤ, pos, ltb_ℤ}
use ralphdb.Protocol.Frame.{ProtocolVersion, Float64}
use ralphdb.Protocol.Encode.{encode_frame}
use ralphdb.Storage.Map.{DashMap}
use ralphdb.Storage.Ops
use ralphdb.Storage.Ops.{Entry, World, Result}
use ralphdb.Command.Types.{ok}
use ralphdb.Text.Utf8.{from_utf8}
use ralphdb.Command.Handlers.{
  set, get, del, exists, incr, decr, mget, mset, mset_pairs, expire, expire_in, ttl, counter_reply,
  bool_integer, chunks_of_two,
}
use ralphdb.Command.Replies.{
  Sendable, error_bytes-Sendable, bulk_or_null-encodes, bulks_or_nulls-encodes, ok-Sendable,
}

module _ (float : Float64) (dash : DashMap Entry) (clock : ℕ → ℕ) where
  pub set-Sendable :
      (args : List Bytes) (w : World dash.Map) (v : ProtocolVersion)
      → Sendable float (set dash clock args w).0 v
  unfolding set encode_frame
  set-Sendable [] w v = error_bytes-Sendable float _ v
  set-Sendable (k ∷ []) w v = error_bytes-Sendable float _ v
  set-Sendable (k ∷ x ∷ xs) w v = ok-Sendable float _ v refl

  pub get-Sendable :
      (args : List Bytes) (w : World dash.Map) (v : ProtocolVersion)
      → Sendable float (get dash clock args w).0 v
  unfolding get
  get-Sendable [] w v = error_bytes-Sendable float _ v
  get-Sendable (k ∷ []) w v =
      ok-Sendable float _ v (bulk_or_null-encodes float (Ops.get dash clock k w).0 v)
  get-Sendable (k ∷ x ∷ xs) w v = error_bytes-Sendable float _ v

  pub del-Sendable :
      (args : List Bytes) (w : World dash.Map) (v : ProtocolVersion)
      → Sendable float (del dash clock args w).0 v
  unfolding del encode_frame
  del-Sendable [] w v = error_bytes-Sendable float _ v
  del-Sendable (k ∷ ks) w v = ok-Sendable float _ v refl

  pub exists-Sendable :
      (args : List Bytes) (w : World dash.Map) (v : ProtocolVersion)
      → Sendable float (exists dash clock args w).0 v
  unfolding exists encode_frame
  exists-Sendable [] w v = error_bytes-Sendable float _ v
  exists-Sendable (k ∷ ks) w v = ok-Sendable float _ v refl

  pub counter_reply-Sendable :
      (r : Result ℤ) (v : ProtocolVersion) → Sendable float (counter_reply r) v
  unfolding encode_frame
  counter_reply-Sendable (Result.ok z) v = ok-Sendable float _ v refl
  counter_reply-Sendable (Result.err e) v = error_bytes-Sendable float _ v

  pub incr-Sendable :
      (args : List Bytes) (w : World dash.Map) (v : ProtocolVersion)
      → Sendable float (incr dash clock args w).0 v
  unfolding incr
  incr-Sendable [] w v = error_bytes-Sendable float _ v
  incr-Sendable (k ∷ []) w v = counter_reply-Sendable (Ops.incr dash clock k w).0 v
  incr-Sendable (k ∷ x ∷ xs) w v = error_bytes-Sendable float _ v

  pub decr-Sendable :
      (args : List Bytes) (w : World dash.Map) (v : ProtocolVersion)
      → Sendable float (decr dash clock args w).0 v
  unfolding decr
  decr-Sendable [] w v = error_bytes-Sendable float _ v
  decr-Sendable (k ∷ []) w v = counter_reply-Sendable (Ops.decr dash clock k w).0 v
  decr-Sendable (k ∷ x ∷ xs) w v = error_bytes-Sendable float _ v

  pub mget-Sendable :
      (args : List Bytes) (w : World dash.Map) (v : ProtocolVersion)
      → Sendable float (mget dash clock args w).0 v
  unfolding mget encode_frame
  mget-Sendable [] w v = error_bytes-Sendable float _ v
  mget-Sendable (k ∷ ks) w v =
      ok-Sendable float _ v (bulks_or_nulls-encodes float (Ops.mget dash clock (k ∷ ks) w).0 v)

  pub mset_pairs-Sendable :
      (ps : Option (List (Bytes × Bytes))) (w : World dash.Map) (v : ProtocolVersion)
      → Sendable float (mset_pairs dash clock ps w).0 v
  unfolding encode_frame
  mset_pairs-Sendable none w v = error_bytes-Sendable float _ v
  mset_pairs-Sendable (some ps) w v = ok-Sendable float _ v refl

  pub mset-Sendable :
      (args : List Bytes) (w : World dash.Map) (v : ProtocolVersion)
      → Sendable float (mset dash clock args w).0 v
  unfolding mset
  mset-Sendable [] w v = error_bytes-Sendable float _ v
  mset-Sendable (k ∷ ks) w v = mset_pairs-Sendable (chunks_of_two (k ∷ ks)) w v

  pub bool_integer-Sendable :
      (b : Bool) (v : ProtocolVersion) → Sendable float (ok (bool_integer b)) v
  unfolding encode_frame
  bool_integer-Sendable true v = ok-Sendable float _ v refl
  bool_integer-Sendable false v = ok-Sendable float _ v refl

  pub expire_in-Sendable :
      (key : Bytes) (seconds : Option ℤ) (w : World dash.Map) (v : ProtocolVersion)
      → Sendable float (expire_in dash clock key seconds w).0 v
  unfolding expire_in
  expire_in-Sendable key none w v = error_bytes-Sendable float _ v
  expire_in-Sendable key (some seconds) w v = elim (Bool-cases (ltb_ℤ (pos 0) seconds)) [
    | inl p ↦ rw p (bool_integer-Sendable _ v)
    | inr p ↦ rw p (bool_integer-Sendable _ v)
  ]

  pub expire-Sendable :
      (args : List Bytes) (w : World dash.Map) (v : ProtocolVersion)
      → Sendable float (expire dash clock args w).0 v
  unfolding expire
  expire-Sendable [] w v = error_bytes-Sendable float _ v
  expire-Sendable (k ∷ []) w v = error_bytes-Sendable float _ v
  expire-Sendable (k ∷ s ∷ []) w v = expire_in-Sendable k (Ops.parse_value (from_utf8 s)) w v
  expire-Sendable (k ∷ s ∷ x ∷ xs) w v = error_bytes-Sendable float _ v

  pub ttl-Sendable :
      (args : List Bytes) (w : World dash.Map) (v : ProtocolVersion)
      → Sendable float (ttl dash clock args w).0 v
  unfolding ttl encode_frame
  ttl-Sendable [] w v = error_bytes-Sendable float _ v
  ttl-Sendable (k ∷ []) w v = ok-Sendable float _ v refl
  ttl-Sendable (k ∷ x ∷ xs) w v = error_bytes-Sendable float _ v
