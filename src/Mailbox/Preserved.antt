-- ===== src/Mailbox/Preserved.antt =====
-- Each step of the exchange keeps requests, responses and clients matched (message.h, `Mailbox`;
-- client.cpp, `sendMsg`; server.cpp, `respond`).
use shared_memory_hashtable.Common.{ℕ, ◌≤◌}
use shared_memory_hashtable.Mailbox.{
  System, Step, send, fetch, deliver, receive, resume, notify, close, Reach, start, later,
}
use shared_memory_hashtable.Mailbox.Matching.{Inv, init-Inv}
use shared_memory_hashtable.Mailbox.Sending.{send-Inv, notify-Inv, resume-Inv}
use shared_memory_hashtable.Mailbox.Serving.{fetch-Inv, close-Inv, deliver-Inv}
use shared_memory_hashtable.Mailbox.Receiving.{receive-Inv}

module _ {Req : Type 0} where
  pub Step-Inv : {n m : ℕ} {s t : System Req} → Inv n m s → Step n m s t → Inv n m t
  Step-Inv inv (send c r calm _) = send-Inv inv c r calm
  Step-Inv inv (fetch w lt calm h) = fetch-Inv inv w lt calm h
  Step-Inv inv (notify c r _ _) = notify-Inv inv c r
  Step-Inv inv (close w lt busy c) = close-Inv inv w lt busy c
  Step-Inv inv (deliver w lt busy o free unowned) = deliver-Inv inv w lt busy o free unowned
  Step-Inv inv (receive c k set mine) = receive-Inv inv c k set mine
  Step-Inv inv (resume c k) = resume-Inv inv c k

  pub Reach-Inv : {n m : ℕ} {s : System Req} → 1 ≤ n → Reach n m s → Inv n m s
  Reach-Inv {n} {m} lo start = init-Inv n m lo
  Reach-Inv lo (later r st) = Step-Inv (Reach-Inv lo r) st
