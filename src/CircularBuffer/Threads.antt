-- ===== src/CircularBuffer/Threads.antt =====
-- Threads that call `push_back` and `pop` of one `CircularBuffer` (circular_buffer.h), interleaved.
-- The mutex makes each of its blocks one step; a wait on a semaphore is another step, which is not
-- enabled while the wait would block.
use shared_memory_hashtable.Common.{ℕ, ◌<◌, ◌≡◌, true, false, List, [], ◌∷◌, ◌++◌, ok, update}
use shared_memory_hashtable.CircularBuffer.{
  CircularBuffer, new, is_empty, is_full, wait_full, wait_open, post_full, post_open, take_head,
  put_tail,
}

module _ {ℓ} (T : Type ℓ) where
  -- Where a thread stands in `push_back` or `pop`, with its local variables.
  pub data Pc : Type ℓ where
    idle : Pc
    want_open : (elem : T) → Pc  -- `isFull()` was false
    placing : (elem : T) → Pc  -- behind `_openSlots.wait()`
    placed : (idx : ℕ) → Pc  -- before `_fullSlots.post()`
    want_full : Pc  -- `isEmpty()` was false
    taking : Pc  -- behind `_fullSlots.wait()`
    took : (elem : T) (idx : ℕ) → Pc  -- before `_openSlots.post()`

-- what a step adds to the history of the queue
pub data Event {ℓ} (T : Type ℓ) : Type ℓ where
  silent : Event T
  enqueued : T → ℕ → Event T
  dequeued : T → ℕ → Event T

-- One step of one thread.
pub data Move {ℓ} {T : Type ℓ} (b : CircularBuffer T)
    : Pc T → Event T → CircularBuffer T → Pc T → Type ℓ where
  refuse : {b' : CircularBuffer T} → is_full b ≡ ok (true, b') → Move b Pc.idle silent b' Pc.idle
  admit :
      {b' : CircularBuffer T} (x : T)
      → is_full b ≡ ok (false, b')
      → Move b Pc.idle silent b' (Pc.want_open x)
  grab_open :
      {b' : CircularBuffer T} {x : T}
      → wait_open b ≡ ok b'
      → Move b (Pc.want_open x) silent b' (Pc.placing x)
  place :
      {b' : CircularBuffer T} {x : T} {i : ℕ}
      → put_tail b x ≡ ok (i, b')
      → Move b (Pc.placing x) (enqueued x i) b' (Pc.placed i)
  publish : {i : ℕ} → Move b (Pc.placed i) silent (post_full b) Pc.idle
  see_none : {b' : CircularBuffer T} → is_empty b ≡ ok (true, b') → Move b Pc.idle silent b' Pc.idle
  see_some :
      {b' : CircularBuffer T} → is_empty b ≡ ok (false, b') → Move b Pc.idle silent b' Pc.want_full
  grab_full :
      {b' : CircularBuffer T} → wait_full b ≡ ok b' → Move b Pc.want_full silent b' Pc.taking
  take :
      {b' : CircularBuffer T} {x : T} {i : ℕ}
      → take_head b ≡ ok (x, i, b')
      → Move b Pc.taking (dequeued x i) b' (Pc.took x i)
  free : {x : T} {i : ℕ} → Move b (Pc.took x i) silent (post_open b) Pc.idle

-- The buffer, the threads, and what was put into and taken out of the buffer so far.
pub record System {ℓ} (T : Type ℓ) : Type ℓ where
  pub shared : CircularBuffer T
  pub pc : ℕ → Pc T
  pub put : List (T × ℕ)
  pub taken : List (T × ℕ)

module _ {ℓ} {T : Type ℓ} where
  abbrev pub log_put : Event T → List (T × ℕ) → List (T × ℕ)
  log_put (enqueued x i) l = l ++ (x, i) ∷ []
  log_put silent l = l
  log_put (dequeued x i) l = l

  abbrev pub log_taken : Event T → List (T × ℕ) → List (T × ℕ)
  log_taken (dequeued x i) l = l ++ (x, i) ∷ []
  log_taken silent l = l
  log_taken (enqueued x i) l = l

  -- one of the `n` threads moves
  pub data Step (n : ℕ) (s : System T) : System T → Type ℓ where
    pick :
        (i : ℕ) {e : Event T} {b' : CircularBuffer T} {p' : Pc T}
        → i < n
        → Move s.shared (s.pc i) e b' p'
        → Step n s (record {
          shared = b';
          pc = update s.pc i p';
          put = log_put e s.put;
          taken = log_taken e s.taken;
        })

  -- `slots` slots, all threads before their first call
  unfoldable pub init : ℕ → T → System T
  init slots blank = record { shared = new slots blank; pc = λ _. Pc.idle; put = []; taken = [] }

  pub data Reach (n slots : ℕ) (blank : T) : System T → Type ℓ where
    start : Reach n slots blank (init slots blank)
    later : {s t : System T} → Reach n slots blank s → Step n s t → Reach n slots blank t
