-- ===== src/Storage/Map.antt =====
-- The `dashmap::DashMap` of the store, which is not part of the repository: a map from byte strings
-- with the operations that the store calls, and what it relies on. An association list shows that
-- the assumptions can be met.
use ralphdb.Prelude.{
  ◌≡◌, refl, Option, none, some, List, [], ◌∷◌, arith, Bytes, bytes_eq, bytes_eq_iff, if◌then◌else◌,
}

-- `remove` returns the old value too. Each call is made under the lock of the key's shard.
pub record DashMap (V : Type 0) : Type 1 where
  pub Map : Type 0
  pub empty : Map
  pub find : Map → Bytes → Option V
  pub insert : Map → Bytes → V → Map
  pub remove : Map → Bytes → Option V × Map
  pub find-empty : (k : Bytes) → find empty k ≡ none
  pub find-insert :
      (m : Map) (k j : Bytes) (v : V)
      → find (insert m k v) j ≡ (if bytes_eq k j then some v else find m j)
  pub remove-found : (m : Map) (k : Bytes) → (remove m k).0 ≡ find m k
  pub find-remove :
      (m : Map) (k j : Bytes) → find (remove m k).1 j ≡ (if bytes_eq k j then none else find m j)

module _ {V : Type 0} where
  pub assoc_find : List (Bytes × V) → Bytes → Option V
  assoc_find [] j = none
  assoc_find ((i, v) ∷ m) j = if bytes_eq i j then some v else assoc_find m j

  pub assoc_without : Bytes → List (Bytes × V) → List (Bytes × V)
  assoc_without k [] = []
  assoc_without k ((i, v) ∷ m) =
      let rest = assoc_without k m in if bytes_eq i k then rest else (i, v) ∷ rest

  pub assoc_find-without :
      (m : List (Bytes × V)) (k j : Bytes)
      → assoc_find (assoc_without k m) j ≡ (if bytes_eq k j then none else assoc_find m j)
  unfolding assoc_find assoc_without
  assoc_find-without [] k j = ground arith
  assoc_find-without ((i, v) ∷ m) k j =
      ground (arith, assoc_find-without m k j, bytes_eq_iff i k, bytes_eq_iff i j, bytes_eq_iff k j)

  pub assoc_find-insert :
      (m : List (Bytes × V)) (k j : Bytes) (v : V)
      → assoc_find ((k, v) ∷ assoc_without k m) j
        ≡ (if bytes_eq k j then some v else assoc_find m j)
  unfolding assoc_find
  assoc_find-insert m k j v = ground (arith, assoc_find-without m k j)

pub assoc_find-nil : {V : Type 0} (k : Bytes) → assoc_find {V = V} [] k ≡ none
unfolding assoc_find
assoc_find-nil k = refl

unfoldable pub assoc_map : (V : Type 0) → DashMap V
unfolding assoc_find assoc_without
assoc_map V = record {
  Map = List (Bytes × V);
  empty = [];
  find = assoc_find;
  insert = λ m k v. (k, v) ∷ assoc_without k m;
  remove = λ m k. (assoc_find m k, assoc_without k m);
  find-empty = assoc_find-nil;
  find-insert = assoc_find-insert;
  remove-found = λ m k. refl;
  find-remove = assoc_find-without;
}
