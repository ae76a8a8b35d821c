-- ===== src/Server/Pool/Examples.antt =====
-- The theorem on the server threads: client 0 inserts the key `a` and has the response, and client 1, which
-- asked for that key meanwhile, waits for its response, which is written.
use shared_memory_hashtable.Common.{
  ℕ, suc, ◌≤◌, ◌≡◌, refl, inl, true, some, none, [], ◌∷◌, arith, length, total,
}
use shared_memory_hashtable.Mailbox.{send, fetch, deliver, receive}
use shared_memory_hashtable.HashTable.{new_sized, get, hash, at}
use shared_memory_hashtable.HashTable.Chains.{find}
use shared_memory_hashtable.HashTable.Buckets.{view, max_size}
use shared_memory_hashtable.Message.{Bytes}
use shared_memory_hashtable.Client.{same_text}
use shared_memory_hashtable.Server.Examples.{text_key}
use shared_memory_hashtable.HashTable.Threads
use shared_memory_hashtable.HashTable.Threads.{miss, enter, content, push, look, append}
use shared_memory_hashtable.HashTable.Threads.Once.{Along, Alternating}
use shared_memory_hashtable.HashTable.Dictionary.{Call, found, inserted, answers}
use shared_memory_hashtable.HashTable.Threads.Atomic.{event}
use shared_memory_hashtable.Server.Pool.{
  asks, Pool, Takes, ends, IsReady, over_after, said_after, written_after, heard_after, exchange,
  work, init, Reach, start, later, of_table,
}
use shared_memory_hashtable.Server.Pool.History.{calls_of, replies_of}
use shared_memory_hashtable.Server.Pool.Working.{by_client}
use shared_memory_hashtable.Server.Pool.Atomic.{IsTold, pool_is_atomic}

-- what the run below computes with
stepping : ℕ
unfolding init Threads.init new_sized total get hash at find append Takes ends event IsReady
    over_after said_after written_after heard_after same_text
stepping = 0

abbrev a : Bytes
a = 97 ∷ []

abbrev x : Bytes
x = 120 ∷ []

abbrev two_clients : (s : Pool Bytes Bytes) × Reach 2 2 3 true s
unfolding stepping
two_clients = (
  _,
  later
      (later
        (later
          (later
            (later
              (later
                (later
                  (later
                    (later
                      (later
                        (later
                          (later start
                            (exchange (send 0 (asks (Call.insert a x)) refl (omega arith)) tt))
                          (exchange (send 1 (asks (Call.get a)) refl (omega arith)) tt))
                        (exchange (fetch 0 (omega arith) refl refl) tt))
                      (exchange (fetch 1 (omega arith) refl refl) tt))
                    (work 0 (omega arith) refl refl refl (miss 0 a x (omega arith) refl refl refl)
                      (refl, refl)))
                  (work 0 (omega arith) refl refl refl (enter 0 (omega arith) refl) refl))
                (work 0 (omega arith) refl refl refl (content 0 (omega arith) refl refl) refl))
              (work 0 (omega arith) refl refl refl (push 0 (omega arith) refl refl refl) refl))
            (work 0 (omega arith) refl refl refl (Threads.Step.count 0 (omega arith) refl) refl))
          (work 1 (omega arith) refl refl refl (look 1 a (omega arith) refl refl refl)
            (refl, inl refl)))
        (exchange (deliver 0 (omega arith) refl refl refl refl) refl))
      (exchange (receive 0 refl refl refl) tt),
)

client_0_heard : two_clients.0.heard 0 ≡ (Call.insert a x, inserted true) ∷ []
unfolding stepping
client_0_heard = refl

client_1_told : two_clients.0.said 1 ≡ (Call.get a, found (some x)) ∷ []
unfolding stepping
client_1_told = refl

one_put : length two_clients.0.table.put ≤ max_size
unfolding stepping
one_put = omega arith

apart : Along (Alternating 2) (of_table two_clients.1)
unfolding stepping Along of_table
apart = (
  (λ q. ground arith),
  (
    (λ q. ground arith),
    (
      (λ q. ground arith),
      ((λ q. ground arith), ((λ q. ground arith), ((λ q. ground arith), (λ q. ground arith)))),
    ),
  ),
)

pool_is_atomic_example :
    (answers (λ _. none) (calls_of two_clients.0.history)
      ≡ (replies_of two_clients.0.history, view two_clients.0.table.table))
    × ((i : ℕ)
        → IsTold
            (two_clients.0.mail.clients i)
            (by_client (suc i) two_clients.0.history)
            (two_clients.0.heard i))
pool_is_atomic_example =
    pool_is_atomic (omega arith) (omega arith) (omega arith) two_clients.1 (λ _. one_put) apart
