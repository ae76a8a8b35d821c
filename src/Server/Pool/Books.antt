-- ===== src/Server/Pool/Books.antt =====
-- What a client has heard, and what of it is on its way (client.cpp, `sendMsg`; server.cpp, `respond`),
-- against the calls of the client that have happened: behind each step of the exchange.
pub mod Requests
pub mod Responses
use shared_memory_hashtable.Common.{
  ℕ, suc, ◌≤◌, ◌<◌, ◌≡◌, ◌≢◌, inl, inr, refl, sym, ◌∙◌, ap, subst, Bool, true, false, Option, none,
  some, List, [], ◌∷◌, ◌++◌, append-nil, append_assoc, arith, update, update-cases, Bool-cases,
  if◌then◌else◌, ◌==◌,
}
use shared_memory_hashtable.Mailbox
use shared_memory_hashtable.Mailbox.{
  Entry, Client, Worker, send, notify, fetch, deliver, close, receive, resume,
}
use shared_memory_hashtable.Mailbox.Matching.{Inv, InQueue, InQueue-append, awaiting}
use shared_memory_hashtable.Mailbox.Preserved.{Step-Inv}
use shared_memory_hashtable.HashTable.Keys.{Key}
use shared_memory_hashtable.HashTable.Dictionary.{Call, Reply}
use shared_memory_hashtable.Server.Pool.{
  Request, Pool, IsReady, said_after, written_after, heard_after,
}
use shared_memory_hashtable.Server.Pool.Tasks.{IsReply}
use shared_memory_hashtable.Server.Pool.Places.{IsHeld, IsQueued, IsFilled, not_filled}

module _ {K V : Type 0} where
  -- `past c` are the calls of client `c` that have happened
  pub record Books (n m : ℕ) (x : Mailbox.System (Request K V))
      (said written heard past : ℕ → List (Call K V × Reply V)) : Type 0 where
    pub at_queue : (c : ℕ) (e : Entry (Request K V)) → IsQueued x c e → past c ≡ heard c
    pub at_worker :
        (c w : ℕ) (e : Entry (Request K V)) → IsHeld m x c w e → past c ≡ heard c ++ said w
    pub at_slot : (c i : ℕ) → IsFilled n x c i → past c ≡ heard c ++ written i
    pub calm : (c : ℕ) → awaiting (x.clients c) ≡ 0 → past c ≡ heard c
    pub kept :
        (c i : ℕ) (r : Request K V)
        → IsFilled n x c i
        → x.clients c ≡ Client.waiting i r
        → IsReply r (written i)
    pub own :
        (c : ℕ) (r : Request K V) {o : Option (Request K V)}
        → x.clients c ≡ Client.answered r o
        → (g xs : List (Call K V × Reply V)) × (heard c ≡ g ++ xs) × IsReply r xs
