-- ===== src/Server/Liveness.antt =====
-- The pool of `serve`: the work that steps do, and the clients that it accounts for.
use ralphdb.Prelude.{
  ℕ, suc, ◌+◌, ◌<◌, ◌≤◌, ◌≡◌, refl, Option, List, [], ◌∷◌, ◌++◌, arith, length, length-append, ◌∙◌,
}
use ralphdb.Prelude.Int.{ℤ}
use ralphdb.Protocol.Frame.{Float64, IoError}
use ralphdb.Protocol.Reader.{Stream}
use ralphdb.Storage.Map.{DashMap}
use ralphdb.Storage.Ops.{Entry}
use ralphdb.Command.Config.{Host}
use ralphdb.Server.Connection.{Connection}
use ralphdb.Server.Ends.{round-again}
use ralphdb.Server.Pool.{
  Incoming, client, accept_error, jobs, Pool, new_pool, Step, start, go_on, finish, Steps, here,
  next,
}

-- What is left to do: an event of the input counts one, the end of it one, and the start one.
abbrev pub waiting_work : List Stream → ℕ
waiting_work [] = 0
waiting_work (input ∷ rest) = length input + 2 + waiting_work rest

-- How many clients the listener accepts.
abbrev pub clients : List Incoming → ℕ
clients [] = 0
clients (client input ∷ incoming) = suc (clients incoming)
clients (accept_error e ∷ incoming) = clients incoming

module _ {M : Type 0} where
  abbrev pub running_work : List (Connection M) → ℕ
  running_work [] = 0
  running_work (c ∷ cs) = length c.input + 1 + running_work cs

  abbrev pub work : Pool M → ℕ
  work p = waiting_work p.waiting + running_work p.running

  -- The connections that were accepted: they wait, run or have ended.
  abbrev pub accepted : Pool M → ℕ
  accepted p = length p.waiting + length p.running + length p.endings

  running_work-append :
      (xs ys : List (Connection M)) → running_work (xs ++ ys) ≡ running_work xs + running_work ys
  running_work-append [] ys = omega arith
  running_work-append (x ∷ xs) ys = omega (arith, running_work-append xs ys)

module _ (float : Float64) (dash : DashMap Entry) (clock : ℕ → ℕ) (host : Host)
    (flush : ℤ → ℕ → Option IoError) (threads : ℕ) where
  -- A step does some of the work, loses no connection, and keeps to the number of threads.
  record Kept (p q : Pool dash.Map) : Type 0 where
    less : work q < work p
    same : accepted q ≡ accepted p
    few : length p.running ≤ threads → length q.running ≤ threads

  Step-Kept : (p q : Pool dash.Map) → Step float dash clock host flush threads p q → Kept p q
  Step-Kept p q (start input rest e room f) =
      rw f (record { less = rw e (omega arith); same = rw e (omega arith); few = λ _. omega arith })
  Step-Kept p q (go_on front back c c' e t f) =
      let lt : length c'.input < length c.input =
        round-again float dash clock host (flush c.session.client_id) (record c { store = p.store })
          c' t in
      let w = running_work-append front (c ∷ back) in
      let w' = running_work-append front (c' ∷ back) in
      let l = length-append front (c ∷ back) in
      let l' = length-append front (c' ∷ back) in
      rw f (record {
        less = rw e (omega (arith, lt, w, w'));
        same = rw e (omega (arith, l, l'));
        few = λ h.
            let h' : length (front ++ c ∷ back) ≤ threads = rw e at h in omega (arith, h', l, l');
      })
  Step-Kept p q (finish front back c c' d e t f) =
      let w = running_work-append front (c ∷ back) in
      let w' = running_work-append front back in
      let l = length-append front (c ∷ back) in
      let l' = length-append front back in
      rw f (record {
        less = rw e (omega (arith, w, w'));
        same = rw e (omega (arith, l, l'));
        few = λ h.
            let h' : length (front ++ c ∷ back) ≤ threads = rw e at h in omega (arith, h', l, l');
      })

  Steps-Kept :
      (p : Pool dash.Map) (n : ℕ) (q : Pool dash.Map)
      → Steps float dash clock host flush threads p n q
      → (n + work q ≤ work p)
        × (accepted q ≡ accepted p)
        × (length p.running ≤ threads → length q.running ≤ threads)
  Steps-Kept p n q here = (omega arith, refl, λ h. h)
  Steps-Kept p n q (next {n = m} {q = o} steps last) =
      let (less, same, few) = Steps-Kept p m o steps in
      let k = Step-Kept o q last in (omega (arith, less, k.less), k.same ∙ same, λ h. k.few (few h))

  -- However the pool schedules the connections, it never runs more of them than it has threads, and
  -- it makes at most one step for each event of their inputs and two for each of them.
  pub serve_bounded :
      (incoming : List Incoming) (n : ℕ) (q : Pool dash.Map)
      → Steps float dash clock host flush threads (new_pool dash incoming) n q
      → (length q.running ≤ threads) × (n ≤ waiting_work (jobs incoming))
  serve_bounded incoming n q steps =
      let (less, same, few) = Steps-Kept (new_pool dash incoming) n q steps in
      (few (omega arith), omega (arith, less))
