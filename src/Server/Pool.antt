-- ===== src/Server/Pool.antt =====
-- The server threads at work together (server.cpp, `receiveMsg` and `respond`): the clients and the
-- threads exchange messages over the mailbox (message.h), and a thread that holds a request calls the
-- table (hashtable.h), which all threads share. A step is one of the exchange (`Mailbox`) or one of a
-- call of the table (`HashTable.Threads`). Server thread `w` is thread `w` of the table.
pub mod Tasks
pub mod AtWork
pub mod History
pub mod Places
pub mod Books
pub mod Working
pub mod Atomic
mod Examples
use shared_memory_hashtable.Common.{
  ℕ, ◌≤◌, ◌<◌, ◌≡◌, ◌≢◌, ◌⊎◌, Bool, true, false, Option, none, some, List, [], ◌∷◌, ◌++◌, map,
  update,
}
use shared_memory_hashtable.Mailbox
use shared_memory_hashtable.Mailbox.{Worker, send, notify, fetch, deliver, close, receive, resume}
use shared_memory_hashtable.HashTable.Keys.{Key}
use shared_memory_hashtable.HashTable.Threads
use shared_memory_hashtable.HashTable.Threads.{
  Pc, look, look_bucket, look_up, list, gather, listed, miss, call, enter, content, ask, settled,
  unsettled, rehash, push, lack, uncount, drop,
}
use shared_memory_hashtable.HashTable.Threads.Atomic.{
  Event, silent, looked_up, bound, unbound, event,
}
use shared_memory_hashtable.HashTable.Dictionary.{Call, Reply, inserted, found}

module _ (K V : Type 0) where
  -- A request in one of the modes `INSERT`, `GET` and `DELETE`, or `READ_BUCKET`: the index that is
  -- read out of its key, or a key of which `std::stoul` throws. Then `respond` exits: there is no step
  -- behind it.
  pub data Request : Type 0 where
    asks : Call K V → Request
    bucket : ℕ → Request
    unreadable : Request

  -- The mailbox, the table, the local variables of `respond` and, for the proofs, what was done.
  pub record Pool : Type 0 where
    pub mail : Mailbox.System Request
    pub table : Threads.System K V
    pub over : ℕ → Bool  -- whether thread `w` is behind the `switch`
    pub said : ℕ → List (Call K V × Reply V)  -- the call of thread `w` that is answered
    pub written : ℕ → List (Call K V × Reply V)  -- what the data of slot `i` answers
    pub heard : ℕ → List (Call K V × Reply V)  -- the calls of client `c`, as it saw them answered
    pub history : List (ℕ × (Call K V × Reply V))  -- the calls in the order in which they happen

module _ {K V : Type 0} where
  -- what a call returns that looks a key up, and does nothing else
  abbrev pub reply : Call K V → Option V → Reply V
  reply (Call.insert k v) o = inserted false
  reply (Call.get k) o = found o
  reply (Call.remove k) o = found o

  -- the call that an event answers, with the reply
  abbrev pub produced : Request K V → Event K V → List (Call K V × Reply V)
  produced (bucket b) e = []
  produced unreadable e = []
  produced (asks c) silent = []
  produced (asks c) (looked_up k o) = (c, reply c o) ∷ []
  produced (asks c) (bound k v) = (c, inserted true) ∷ []
  produced (asks c) (unbound k v) = (c, found (some v)) ∷ []

  -- the same, with the process that the request is from
  abbrev pub signed : ℕ → List (Call K V × Reply V) → List (ℕ × (Call K V × Reply V))
  signed p xs = map (λ x. (p, x)) xs

  -- whether a request is one for this lookup: `GET`, or an `INSERT` that finds its key
  abbrev pub Looks : Request K V → K → Option V → Type 0
  Looks r k (some u) = (r ≡ asks (Call.get k)) ⊎ ((v : V) × (r ≡ asks (Call.insert k v)))
  Looks r k none = r ≡ asks (Call.get k)

module _ {K V : Type 0} ⦃key : Key K⦄ where
  -- Thread `w`, with request `r`, takes the step of the table: the steps that begin a call are those of
  -- the call that `respond` makes for `r`.
  unfoldable pub Takes :
      {m : ℕ} {s t : Threads.System K V} → ℕ → Request K V → Threads.Step m s t → Type 0
  Takes w r (look i k {o} lt e free run) = (i ≡ w) × Looks r k o
  Takes w r (look_bucket i b lt e free run) = (i ≡ w) × (r ≡ bucket b)
  Takes w r (look_up i k lt e free run) = ⊥
  Takes w r (list i lt e) = ⊥
  Takes w r (gather i lt e inside free run) = ⊥
  Takes w r (listed i lt e end) = ⊥
  Takes w r (miss i k v lt e free run) = (i ≡ w) × (r ≡ asks (Call.insert k v))
  Takes w r (call i k lt e) = (i ≡ w) × (r ≡ asks (Call.remove k))
  Takes w r (enter i lt e) = i ≡ w
  Takes w r (content i lt e none_in) = i ≡ w
  Takes w r (ask i lt e some_in) = i ≡ w
  Takes w r (settled i lt e fine) = i ≡ w
  Takes w r (unsettled i lt e wrong) = i ≡ w
  Takes w r (rehash i lt e free run) = i ≡ w
  Takes w r (push i lt e free run) = i ≡ w
  Takes w r (Threads.Step.count i lt e) = i ≡ w
  Takes w r (lack i lt e free run) = i ≡ w
  Takes w r (uncount i lt e free run) = i ≡ w
  Takes w r (drop i lt e run) = i ≡ w

  -- whether a step is the last one of a call
  unfoldable pub ends : {m : ℕ} {s t : Threads.System K V} → Threads.Step m s t → Bool
  ends (look i k lt e free run) = true
  ends (look_bucket i b lt e free run) = true
  ends (Threads.Step.count i lt e) = true
  ends (lack i lt e free run) = true
  ends (drop i lt e run) = true
  ends _ = false

  -- A thread that delivers a response is behind the `switch`.
  unfoldable pub IsReady :
      {n m : ℕ} (s : Pool K V) {x : Mailbox.System (Request K V)}
      → Mailbox.Step n m s.mail x
      → Type 0
  IsReady s (deliver w lt h open_request free unowned) = s.over w ≡ true
  IsReady s _ = Unit

  -- The variables behind a step of the exchange. `respond` begins with a new response.
  unfoldable pub over_after :
      {n m : ℕ} (s : Pool K V) {x : Mailbox.System (Request K V)}
      → Mailbox.Step n m s.mail x
      → ℕ
      → Bool
  over_after s (fetch w lt calm h) = update s.over w false
  over_after s _ = s.over

  unfoldable pub said_after :
      {n m : ℕ} (s : Pool K V) {x : Mailbox.System (Request K V)}
      → Mailbox.Step n m s.mail x
      → ℕ
      → List (Call K V × Reply V)
  said_after s (fetch w lt calm h) = update s.said w []
  said_after s _ = s.said

  unfoldable pub written_after :
      {n m : ℕ} (s : Pool K V) {x : Mailbox.System (Request K V)}
      → Mailbox.Step n m s.mail x
      → ℕ
      → List (Call K V × Reply V)
  written_after s (deliver w {e} lt h open_request free unowned) = update s.written e.idx (s.said w)
  written_after s _ = s.written

  unfoldable pub heard_after :
      {n m : ℕ} (s : Pool K V) {x : Mailbox.System (Request K V)}
      → Mailbox.Step n m s.mail x
      → ℕ
      → List (Call K V × Reply V)
  heard_after s (receive c {i} k set mine) = update s.heard c (s.heard c ++ s.written i)
  heard_after s _ = s.heard

  -- `n` slots, `m` server threads
  pub data Step (n m : ℕ) (s : Pool K V) : Pool K V → Type 0 where
    exchange :
        {x : Mailbox.System (Request K V)} (st : Mailbox.Step n m s.mail x)
        → IsReady s st
        → Step n m s (record s {
          mail = x;
          over = over_after s st;
          said = said_after s st;
          written = written_after s st;
          heard = heard_after s st;
        })
    -- a step of the call that thread `w` makes for its request
    work :
        (w : ℕ) {e : Mailbox.Entry (Request K V)} {t : Threads.System K V}
        → w < m
        → s.mail.workers w ≡ Worker.holding e
        → e.closing ≡ false
        → s.over w ≡ false
        → (st : Threads.Step m s.table t) → Takes w e.req st
        → Step n m s (record s {
          table = t;
          over = update s.over w (ends st);
          said = update s.said w (s.said w ++ produced e.req (event st));
          history = s.history ++ signed e.pid (produced e.req (event st));
        })
    -- `READ_BUCKET` with an index that is past the table
    refuse :
        (w : ℕ) {e : Mailbox.Entry (Request K V)} {b : ℕ}
        → w < m
        → s.mail.workers w ≡ Worker.holding e
        → e.closing ≡ false
        → s.over w ≡ false
        → s.table.pc w ≡ Pc.idle
        → e.req ≡ bucket b
        → s.table.table.capacity ≤ b
        → Step n m s (record s { over = update s.over w true })

  -- the server behind the start of its threads, with a new table of `c` buckets
  unfoldable pub init : ℕ → Bool → Pool K V
  init c resizable = record {
    mail = Mailbox.init;
    table = Threads.init c resizable;
    over = λ _. false;
    said = λ _. [];
    written = λ _. [];
    heard = λ _. [];
    history = [];
  }

  pub data Reach (n m c : ℕ) (resizable : Bool) : Pool K V → Type 0 where
    start : Reach n m c resizable (init c resizable)
    later : {s t : Pool K V} → Reach n m c resizable s → Step n m s t → Reach n m c resizable t

  -- what becomes of the table
  unfoldable pub of_table :
      {n m c : ℕ} {dynamic : Bool} {s : Pool K V}
      → Reach n m c dynamic s
      → Threads.Reach m c dynamic s.table
  unfolding init
  of_table start = Threads.Reach.start
  of_table (later r (exchange st ready)) = of_table r
  of_table (later r (work w lt h open_request running st takes)) =
      Threads.Reach.later (of_table r) st
  of_table (later r (refuse w lt h open_request running calm e past_end)) = of_table r

  -- what becomes of the mailbox
  unfoldable pub of_mail :
      {n m c : ℕ} {dynamic : Bool} {s : Pool K V} → Reach n m c dynamic s → Mailbox.Reach n m s.mail
  unfolding init
  of_mail start = Mailbox.Reach.start
  of_mail (later r (exchange st ready)) = Mailbox.Reach.later (of_mail r) st
  of_mail (later r (work w lt h open_request running st takes)) = of_mail r
  of_mail (later r (refuse w lt h open_request running calm e past_end)) = of_mail r
