-- ===== src/Mailbox.antt =====
-- The exchange of requests and responses over the mailbox (message.h, `Mailbox`; client.cpp,
-- `sendMsg`; server.cpp, `receiveMsg` and `respond`), by any number of clients and server threads.
-- The queue of requests is the queue of slot indices that a `CircularBuffer` implements. What is done
-- under the mutex of a response slot is one step; a wait on its condition variable is over when the
-- test of the loop around it fails, so a step has that test as its premise.
pub mod Matching
pub mod Sending
pub mod Serving
pub mod Receiving
pub mod Preserved
pub mod Service
pub mod Failures
pub mod Construction
mod Examples
use shared_memory_hashtable.Common.{
  ℕ, suc, ◌+◌, ◌%◌, ◌<◌, ◌≡◌, Bool, true, false, Option, none, some, List, [], ◌∷◌, ◌++◌, length,
  update,
}

module _ (Req : Type 0) where
  -- a request in the buffer, with the index of its slot
  pub record Entry : Type 0 where
    pub pid : ℕ
    pub req : Req
    pub idx : ℕ
    pub closing : Bool  -- mode `CLOSE_SHM`, which gets no response

  -- A response slot. `origin` is the request that its data answers.
  pub record Slot : Type 0 where
    pub ready : Bool
    pub client_id : ℕ
    pub origin : Option Req

  -- a client in `sendMsg`, with its request and the index that `push_back` returned
  pub data Client : Type 0 where
    idle : Client
    waiting : (idx : ℕ) (req : Req) → Client
    answered : (req : Req) (origin : Option Req) → Client

  -- a server thread: in `msgs.pop()`, or in `respond` with a request
  pub data Worker : Type 0 where
    polling : Worker
    holding : Entry → Worker

  pub record System : Type 0 where
    pub queue : List Entry
    pub next : ℕ
    pub responses : ℕ → Slot
    pub clients : ℕ → Client
    pub workers : ℕ → Worker

module _ {Req : Type 0} where
  -- `n` slots, `m` server threads; the process ID of client `c` is `suc c`, which is not 0
  pub data Step (n m : ℕ) (s : System Req) : System Req → Type 0 where
    -- `push_back` succeeds
    send :
        (c : ℕ) (r : Req)
        → s.clients c ≡ Client.idle
        → length s.queue < n
        → Step n m s (record s {
          queue = s.queue ++ record { pid = suc c; req = r; idx = s.next; closing = false } ∷ [];
          next = (s.next + 1) % n;
          clients = update s.clients c (Client.waiting s.next r);
        })
    -- `push_back` of a message in mode `CLOSE_SHM`, for which `sendMsg` does not wait
    notify :
        (c : ℕ) (r : Req)
        → s.clients c ≡ Client.idle
        → length s.queue < n
        → Step n m s (record s {
          queue = s.queue ++ record { pid = suc c; req = r; idx = s.next; closing = true } ∷ [];
          next = (s.next + 1) % n;
        })
    -- `pop` returns a request, and `respond` is called
    fetch :
        (w : ℕ) {e : Entry Req} {rest : List (Entry Req)}
        → w < m
        → s.workers w ≡ Worker.polling
        → s.queue ≡ e ∷ rest
        → Step n m s (record s { queue = rest; workers = update s.workers w (Worker.holding e) })
    -- the end of `respond`, once the slot is free
    deliver :
        (w : ℕ) {e : Entry Req}
        → w < m
        → s.workers w ≡ Worker.holding e
        → e.closing ≡ false
        → (s.responses e.idx).ready ≡ false
        → (s.responses e.idx).client_id ≡ 0
        → Step n m s (record s {
          responses =
              update s.responses e.idx
                (record { ready = true; client_id = e.pid; origin = some e.req });
          workers = update s.workers w Worker.polling;
        })
    -- the early return of `respond` in mode `CLOSE_SHM`
    close :
        (w : ℕ) {e : Entry Req}
        → w < m
        → s.workers w ≡ Worker.holding e
        → e.closing ≡ true
        → Step n m s (record s { workers = update s.workers w Worker.polling })
    -- the end of `sendMsg`, once the slot holds a response for this client
    receive :
        (c : ℕ) {i : ℕ} {r : Req}
        → s.clients c ≡ Client.waiting i r
        → (s.responses i).ready ≡ true
        → (s.responses i).client_id ≡ suc c
        → Step n m s (record s {
          responses =
              update s.responses i (record (s.responses i) { ready = false; client_id = 0 });
          clients = update s.clients c (Client.answered r (s.responses i).origin);
        })
    -- the client goes on
    resume :
        (c : ℕ) {r : Req} {o : Option Req}
        → s.clients c ≡ Client.answered r o
        → Step n m s (record s { clients = update s.clients c Client.idle })

  -- the constructor of `Mailbox`, before any request
  abbrev pub init : System Req
  init = record {
    queue = [];
    next = 0;
    responses = λ _. record { ready = false; client_id = 0; origin = none };
    clients = λ _. Client.idle;
    workers = λ _. Worker.polling;
  }

  pub data Reach (n m : ℕ) : System Req → Type 0 where
    start : Reach n m init
    later : {s t : System Req} → Reach n m s → Step n m s t → Reach n m t

  -- any number of steps
  pub data Steps (n m : ℕ) : System Req → System Req → Type 0 where
    rest : {s : System Req} → Steps n m s s
    step : {s t u : System Req} → Step n m s t → Steps n m t u → Steps n m s u

  -- a step of a request that was sent: no client sends or goes on
  abbrev pub IsServing : {n m : ℕ} {s t : System Req} → Step n m s t → Type 0
  IsServing (send c r calm room) = ⊥
  IsServing (notify c r calm room) = ⊥
  IsServing (resume c k) = ⊥
  IsServing _ = Unit

  pub data Serves (n m : ℕ) : System Req → System Req → Type 0 where
    settled : {s : System Req} → Serves n m s s
    serve :
        {s t u : System Req} (st : Step n m s t) → IsServing st → Serves n m t u → Serves n m s u
