-- ===== src/Server/Main/Joining.antt =====
-- The end of the server while its threads and clients still run (server.cpp, the loops of `main` behind
-- the main loop, and `receiveMsg`). A call of `push_back` or `pop` is one step, and so is the rest of
-- a round of `receiveMsg`, where it ends.
pub mod Books
pub mod Completion
use shared_memory_hashtable.Common.{
  ℕ, ◌+◌, ◌<◌, ◌≡◌, false, true, none, some, update, ℤ, pos, negsuc, ok,
}
use shared_memory_hashtable.Message.{Message, new_message}
use shared_memory_hashtable.CircularBuffer.{CircularBuffer, push_back, pop}
use shared_memory_hashtable.Server.Polling.{is_exit}
use shared_memory_hashtable.Server.Main.{slots, exit_message}

-- Where a thread of `receiveMsg` stands.
pub data Receiver : Type 0 where
  polling : Receiver
  answering : Message → Receiver  -- behind `pop`, with a request
  returned : Receiver

-- The buffer, the threads, the counters of both loops of `main`, and how many of its pushes returned -1.
pub record State : Type 0 where
  pub buffer : CircularBuffer Message
  pub worker : ℕ → Receiver
  pub pushes : ℕ
  pub lost : ℕ
  pub joined : ℕ

-- One step of a client, of a thread, or of `main`.
pub data Step (s : State) : State → Type 0 where
  -- a client pushes a request, or finds the buffer full
  request :
      (m : Message) {i : ℤ} {b : CircularBuffer Message}
      → is_exit m ≡ false
      → push_back s.buffer m ≡ ok (i, b)
      → Step s (record s { buffer = b })
  -- `pop` finds nothing
  poll :
      (t : ℕ) {b : CircularBuffer Message}
      → t < slots
      → s.worker t ≡ polling
      → pop s.buffer ≡ ok (none, b)
      → Step s (record s { buffer = b })
  take :
      (t : ℕ) {m : Message} {i : ℕ} {b : CircularBuffer Message}
      → t < slots
      → s.worker t ≡ polling
      → pop s.buffer ≡ ok (some (m, i), b)
      → is_exit m ≡ false
      → Step s (record s { buffer = b; worker = update s.worker t (answering m) })
  -- The end of a round. Where `respond` exits, or waits for a client that is gone, a run goes no
  -- further, or the thread takes no step.
  answer :
      (t : ℕ) {m : Message}
      → t < slots
      → s.worker t ≡ answering m
      → Step s (record s { worker = update s.worker t polling })
  -- `if(msg.mode == Message::EXIT) return`
  leave :
      (t : ℕ) {m : Message} {i : ℕ} {b : CircularBuffer Message}
      → t < slots
      → s.worker t ≡ polling
      → pop s.buffer ≡ ok (some (m, i), b)
      → is_exit m ≡ true
      → Step s (record s { buffer = b; worker = update s.worker t returned })
  -- the loop of `push_back(exit_msg)`, which goes on whatever the push returns
  push_exit :
      {i : ℕ} {b : CircularBuffer Message}
      → s.pushes < slots
      → push_back s.buffer exit_message ≡ ok (pos i, b)
      → Step s (record s { buffer = b; pushes = s.pushes + 1 })
  lose_exit :
      {b : CircularBuffer Message}
      → s.pushes < slots
      → push_back s.buffer exit_message ≡ ok (negsuc 0, b)
      → Step s (record s { buffer = b; pushes = s.pushes + 1; lost = s.lost + 1 })
  -- `t.join()`, which waits for the thread
  join :
      s.pushes ≡ slots
      → s.joined < slots
      → s.worker s.joined ≡ returned
      → Step s (record s { joined = s.joined + 1 })

pub data Steps (s : State) : State → Type 0 where
  done : Steps s s
  more : {t u : State} → Steps s t → Step t u → Steps s u

-- all threads at their first `pop`, `main` behind its main loop
unfoldable pub ending : CircularBuffer Message → State
ending b = record { buffer = b; worker = λ _. polling; pushes = 0; lost = 0; joined = 0 }
