-- ===== src/Server/Pool.antt =====
-- `Server::serve`: accepted connections wait for a thread of the pool, and the connections that have
-- one share the store. A step is a connection that starts or a round of one that runs, so rounds of
-- several connections come in any order; within a round this model does not interleave.
use ralphdb.Prelude.{ℕ, suc, ◌<◌, ◌≡◌, Option, List, [], ◌∷◌, ◌++◌, length}
use ralphdb.Prelude.Int.{ℤ}
use ralphdb.Protocol.Frame.{Float64, IoError}
use ralphdb.Protocol.Reader.{Stream}
use ralphdb.Storage.Map.{DashMap}
use ralphdb.Storage.Ops.{Entry, World, new_storage}
use ralphdb.Command.Types.{new_connection}
use ralphdb.Command.Config.{Host}
use ralphdb.Prelude.Int.{pos}
use ralphdb.Server.Connection.{Ending, Connection, Round, again, ended, round}

-- What `listener.incoming()` yields: a client with all that it will send, or an error.
pub data Incoming : Type 0 where
  client : Stream → Incoming
  accept_error : IoError → Incoming

-- The jobs that `serve` gives to the pool, in order; an error is logged and passed over.
unfoldable pub jobs : List Incoming → List Stream
jobs [] = []
jobs (client input ∷ incoming) = input ∷ jobs incoming
jobs (accept_error e ∷ incoming) = jobs incoming

-- The pool: the jobs that wait, the connections that have a thread, the store, the counter of client
-- ids, and how connections ended.
pub record Pool (M : Type 0) : Type 0 where
  pub waiting : List Stream
  pub running : List (Connection M)
  pub store : World M
  pub counter : ℤ
  pub endings : List Ending

-- A connection as its thread begins to serve it, and the counter afterwards.
abbrev pub begin : {M : Type 0} → Stream → ℤ → World M → Connection M
begin input counter store = record {
  input = input;
  session = (new_connection counter).0;
  store = store;
  sent = [];
  flushes = 0;
}

-- The pool of `serve` on a store, before its first step.
abbrev pub pool_on : {M : Type 0} → World M → List Incoming → Pool M
pool_on storage incoming = record {
  waiting = jobs incoming;
  running = [];
  store = storage;
  counter = pos 1;
  endings = [];
}

abbrev pub new_pool : (dash : DashMap Entry) → List Incoming → Pool dash.Map
new_pool dash incoming = pool_on (new_storage dash) incoming

-- `flush id n` is the error that flush number `n` of the client `id` returns, if it returns one.
module _ (float : Float64) (dash : DashMap Entry) (clock : ℕ → ℕ) (host : Host)
    (flush : ℤ → ℕ → Option IoError) (threads : ℕ) where
  -- A round of a connection, on the shared store.
  abbrev pub turn : World dash.Map → Connection dash.Map → Round dash.Map
  turn store c =
      round float dash clock host (flush c.session.client_id) (record c { store = store })

  -- The guard of `start` and the order of the queue are what the threadpool crate documents.
  pub data Step (p q : Pool dash.Map) : Type 0 where
    start :
        (input : Stream) (rest : List Stream)
        → p.waiting ≡ input ∷ rest
        → length p.running < threads
        → q ≡ record p {
          waiting = rest;
          running = begin input p.counter p.store ∷ p.running;
          counter = (new_connection p.counter).1;
        }
        → Step p q
    go_on :
        (front back : List (Connection dash.Map)) (c c' : Connection dash.Map)
        → p.running ≡ front ++ c ∷ back
        → turn p.store c ≡ again c'
        → q ≡ record p { running = front ++ c' ∷ back; store = c'.store }
        → Step p q
    finish :
        (front back : List (Connection dash.Map)) (c c' : Connection dash.Map) (e : Ending)
        → p.running ≡ front ++ c ∷ back
        → turn p.store c ≡ ended e c'
        → q ≡ record p { running = front ++ back; store = c'.store; endings = e ∷ p.endings }
        → Step p q

  -- `n` steps in a row.
  pub data Steps (p : Pool dash.Map) : ℕ → Pool dash.Map → Type 0 where
    here : Steps p 0 p
    next : {n : ℕ} {q r : Pool dash.Map} → Steps p n q → Step q r → Steps p (suc n) r
