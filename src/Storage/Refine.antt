-- ===== src/Storage/Refine.antt =====
-- The methods of the store keep the promise of `Storage.Spec`, call by call and in a row.
use ralphdb.Prelude.{
  ℕ, ◌+◌, ◌≤◌, ◌≡◌, refl, Bool, false, Option, none, some, List, [], ◌∷◌, arith, Bytes, bytes_eq,
  if◌then◌else◌, ap, ◌∙◌, map, Option-cases, inl, inr, bytes_eq_iff,
}
use ralphdb.Prelude.Int.{ℤ, pos, negsuc, InI64}
use ralphdb.Storage.Map.{DashMap}
use ralphdb.Storage.Ops
use ralphdb.Storage.Ops.{Entry, World, Result, ok, err, new_entry, new_storage, is_some}
use ralphdb.Storage.View.{live, value_of, view, SameFrom}
use ralphdb.Storage.Reads.{
  get-view, get-SameFrom, exists-view, exists-SameFrom, ttl-view, ttl-SameFrom, mget-view,
  mget-SameFrom,
}
use ralphdb.Storage.Writes.{
  find-set, find-mset, find-del, del-count, expire-view, last_value, listed, count_visible,
}
use ralphdb.Storage.Counters.{deadline_of, stored_by, incr_by-result, view-incr_by}
use ralphdb.Storage.Spec.{
  Call, set, get, del, exists, expire, ttl, incr, decr, mget, mset, value, values, count, flag,
  seconds, counter, Store, empty_store, put, look, seconds_left, spec_call, spec_expire, spec_incr,
  spec_replies, History, Ascending, run_call, run_replies,
}

same_count :
    (keys : List Bytes) (seen seen' : Bytes → Bool)
    → ((j : Bytes) → seen j ≡ seen' j)
    → count_visible seen keys ≡ count_visible seen' keys
same_count [] seen seen' h = refl
same_count (key ∷ keys) seen seen' h =
    let rest =
      same_count keys (λ j. if bytes_eq key j then false else seen j)
        (λ j. if bytes_eq key j then false else seen' j)
        (λ j. ap (λ b. if bytes_eq key j then false else b) (h j)) in
    rw (h key, rest) refl

same_values {ℓ} :
    {A : Type ℓ} {f g : Bytes → A} (keys : List Bytes)
    → ((j : Bytes) → f j ≡ g j)
    → map f keys ≡ map g keys
same_values [] h = refl
same_values (key ∷ keys) h = cc (h key, same_values keys h)

module _ (dash : DashMap Entry) where
  -- From `t` on the store shows what the function holds.
  abbrev pub Shows : ℕ → World dash.Map → Store → Type 0
  Shows t w m = (t' : ℕ) (j : Bytes) → t ≤ t' → view dash w t' j ≡ live t' (m j)

  Shows-SameFrom :
      (t : ℕ) (w w' : World dash.Map) (m : Store)
      → Shows t w m
      → SameFrom dash t w w'
      → Shows t w' m
  Shows-SameFrom t w w' m h same t' j le = same t' j le ∙ h t' j le

  Shows-later : (t t' : ℕ) (w : World dash.Map) (m : Store) → t ≤ t' → Shows t w m → Shows t' w m
  Shows-later t t' w m le h t'' j le' = h t'' j (omega arith)

  module _ (t : ℕ) (w : World dash.Map) (m : Store) (h : Shows t w m) where
    now : (j : Bytes) → view dash w t j ≡ look t m j
    now j = h t j (omega arith)

    Shows-set :
        (key val : Bytes)
        → Shows t (Ops.set dash (λ _. t) key val w).1 (put m key (some (new_entry val)))
    Shows-set key val t' j le = ground (arith, find-set dash (λ _. t) w key j val, h t' j le)

    last_value-live :
        (pairs : List (Bytes × Bytes)) (j : Bytes) (t' : ℕ) (a b : Option Entry)
        → live t' a ≡ live t' b
        → live t' (last_value pairs j a) ≡ live t' (last_value pairs j b)
    last_value-live [] j t' a b e = e
    last_value-live ((key, val) ∷ pairs) j t' a b e = last_value-live pairs j t' _ _ (ground arith)

    Shows-mset :
        (pairs : List (Bytes × Bytes))
        → Shows t (Ops.mset dash (λ _. t) pairs w).1 (λ j. last_value pairs j (m j))
    Shows-mset pairs t' j le =
        ap (live t') (find-mset dash (λ _. t) pairs w j)
        ∙ last_value-live pairs j t' (dash.find w.inner j) (m j) (h t' j le)

    Shows-del :
        (keys : List Bytes)
        → Shows t (Ops.del dash (λ _. t) keys w).1 (λ j. if listed keys j then none else m j)
    Shows-del keys t' j le = ground (arith, find-del dash (λ _. t) keys w j, h t' j le)

    Shows-spec_expire :
        (key : Bytes) (duration : ℕ)
        → Shows t (Ops.expire dash (λ _. t) key duration w).1 (spec_expire t key duration m).1
    unfolding Ops.expire
    Shows-spec_expire key duration t' j le = elim (Option-cases (dash.find w.inner key)) [
      | inl missing ↦ ground (arith, now key, h t' j le, bytes_eq_iff key j)
      | inr (entry, found) ↦
          let again = record entry { expires_at = some (t + duration) } in
          ground (
            arith,
            now key,
            h t' j le,
            bytes_eq_iff key j,
            dash.find-insert w.inner key j again,
            dash.find-remove w.inner key j,
          )
    ]

    flag-expire :
        (key : Bytes) (duration : ℕ)
        → flag (Ops.expire dash (λ _. t) key duration w).0 ≡ (spec_expire t key duration m).0
    flag-expire key duration = ground (arith, expire-view dash (λ _. t) w key duration, now key)

    counter-incr_by :
        (key : Bytes) (delta : ℤ)
        → counter (Ops.incr_by dash (λ _. t) key delta w).0 ≡ (spec_incr t key delta m).0
    counter-incr_by key delta =
        ap counter (incr_by-result dash (λ _. t) w key delta ∙ rw (now key) refl)

    Shows-spec_incr :
        (key : Bytes) (delta : ℤ)
        → InI64 delta
        → Shows t (Ops.incr_by dash (λ _. t) key delta w).1 (spec_incr t key delta m).1
    Shows-spec_incr key delta fits t' j le =
        view-incr_by dash (λ _. t) w key delta t' j fits le
        ∙ rw (incr_by-result dash (λ _. t) w key delta, now key) (stored _)
      where
        stored :
            (r : Result ℤ)
            → live t' (
                if bytes_eq key j
                then stored_by r (deadline_of (look t m key)) (dash.find w.inner j)
                else dash.find w.inner j)
              ≡ live t' (put m key (stored_by r (deadline_of (look t m key)) (m key)) j)
        stored (ok z) = ground (arith, h t' j le)
        stored (err e) = ground (arith, h t' j le, bytes_eq_iff key j)

  -- One call: the reply is the promised one, and so is what the store shows from then on.
  pub run_call-Shows :
      (t : ℕ) (call : Call) (w : World dash.Map) (m : Store)
      → Shows t w m
      → ((run_call dash t call w).0 ≡ (spec_call t call m).0)
        × Shows t (run_call dash t call w).1 (spec_call t call m).1
  unfolding run_call spec_call Ops.incr Ops.decr
  run_call-Shows t (set key val) w m h = (refl, Shows-set t w m h key val)
  run_call-Shows t (get key) w m h = (
    ap value (get-view dash (λ _. t) w key ∙ ap value_of (now t w m h key)),
    Shows-SameFrom t w (Ops.get dash (λ _. t) key w).1 m h (get-SameFrom dash (λ _. t) w key),
  )
  run_call-Shows t (del keys) w m h = (
    ap count (
        del-count dash (λ _. t) t (λ _. refl) keys w
        ∙ same_count keys _ _ (λ j. ap is_some (now t w m h j))),
    Shows-del t w m h keys,
  )
  run_call-Shows t (exists key) w m h = (
    ap flag (exists-view dash (λ _. t) w key ∙ ap is_some (now t w m h key)),
    Shows-SameFrom t w (Ops.exists dash (λ _. t) key w).1 m h (exists-SameFrom dash (λ _. t) w key),
  )
  run_call-Shows t (expire key duration) w m h =
      (flag-expire t w m h key duration, Shows-spec_expire t w m h key duration)
  run_call-Shows t (ttl key) w m h = (
    ap seconds (ttl-view dash (λ _. t) w key ∙ ap (seconds_left t) (now t w m h key)),
    Shows-SameFrom t w (Ops.ttl dash (λ _. t) key w).1 m h (ttl-SameFrom dash (λ _. t) w key),
  )
  run_call-Shows t (incr key) w m h =
      (counter-incr_by t w m h key (pos 1), Shows-spec_incr t w m h key (pos 1) (omega arith))
  run_call-Shows t (decr key) w m h =
      (counter-incr_by t w m h key (negsuc 0), Shows-spec_incr t w m h key (negsuc 0) (omega arith))
  run_call-Shows t (mget keys) w m h = (
    ap values (
        mget-view dash (λ _. t) t (λ _. refl) w keys
        ∙ same_values keys (λ j. ap value_of (now t w m h j))),
    Shows-SameFrom t w (Ops.mget dash (λ _. t) keys w).1 m h
        (mget-SameFrom dash (λ _. t) t (λ _. refl) w keys),
  )
  run_call-Shows t (mset pairs) w m h = (refl, Shows-mset t w m h pairs)

  run-Shows :
      (t : ℕ) (calls : History) (w : World dash.Map) (m : Store)
      → Shows t w m
      → Ascending t calls
      → run_replies dash calls w ≡ spec_replies calls m
  unfolding run_replies spec_replies
  run-Shows t [] w m h up = refl
  run-Shows t ((t', call) ∷ calls) w m h (le, up) =
      let (reply, after) = run_call-Shows t' call w m (Shows-later t t' w m le h) in
      cc (reply, run-Shows t' calls (run_call dash t' call w).1 (spec_call t' call m).1 after up)

  -- On an empty store, any calls at times that do not go back, the clock standing still during each
  -- call, return exactly what the abstract store returns, which keeps late entries and reads them as
  -- absent.
  pub run_replies-eq-spec_replies :
      (calls : History)
      → Ascending 0 calls
      → run_replies dash calls (new_storage dash) ≡ spec_replies calls empty_store
  run_replies-eq-spec_replies calls up =
      run-Shows 0 calls (new_storage dash) empty_store (λ t' j le. ap (live t') (dash.find-empty j))
        up
