-- ===== src/CircularBuffer/Examples.antt =====
-- Runs of a buffer, after the cases of hashtable_tests.cpp, and the theorems about it
-- (circular_buffer.h) at concrete buffers.
use shared_memory_hashtable.Common.{
  ℕ, ◌≤◌, ◌+◌, ◌%◌, ◌<◌, ◌≡◌, ◌↔◌, refl, false, not, ◌&&◌, Option, none, some, List, [], ◌∷◌, ◌++◌,
  arith, ◌==◌, leb, get_or, if◌then◌else◌, ℤ, negsuc, Run, ok, fault, blocked, Returns, ◌>>=◌,
  total,
}
use shared_memory_hashtable.CircularBuffer.{
  CircularBuffer, new, is_empty, is_full, wait_full, wait_open, post_full, take_head, put_tail, pop,
  push_back, peek, subscript, update, at,
}
use shared_memory_hashtable.CircularBuffer.Queue
use shared_memory_hashtable.CircularBuffer.Queue.{Call, answers}
use shared_memory_hashtable.CircularBuffer.Shape.{
  IsShaped, Leaves, contents, put_tail-back, take_head-front,
}
use shared_memory_hashtable.CircularBuffer.Fifo.{IsValid, calls, queue_of, buffer_refines}
use shared_memory_hashtable.CircularBuffer.Access.{IsStuck, at-past_end, update_lem}
use shared_memory_hashtable.CircularBuffer.Threads.{
  Pc, admit, grab_open, place, publish, see_some, grab_full, System, pick, init, Reach, start,
  later,
}
use shared_memory_hashtable.CircularBuffer.Effects.{in_open, in_full}
use shared_memory_hashtable.CircularBuffer.Interleaving.{
  interleaved_fifo, place_safe, take_safe, blocks_only_when,
}

-- 8, then 9, round the end of three slots
abbrev wrapped : CircularBuffer ℕ
wrapped = record {
  buffer = 9 ∷ 7 ∷ 8 ∷ [];
  head_idx = 2;
  tail_idx = 1;
  capacity = 3;
  size = 2;
  held = false;
  open_slots = 1;
  full_slots = 2;
}

wrapped-IsShaped : IsShaped wrapped
wrapped-IsShaped = omega arith

wrapped-IsValid : IsValid wrapped
wrapped-IsValid = record { shaped = wrapped-IsShaped; free = refl; full = refl; open_left = refl }

abbrev session : Run (List (Option (ℕ × ℕ)) × ℤ × ℕ)
session = do
  (i, b₁) ← push_back wrapped 5
  (refused, b₂) ← push_back b₁ 6
  (front, b₃) ← peek b₂
  (x, b₄) ← pop b₃
  (y, b₅) ← pop b₄
  (z, b₆) ← pop b₅
  (w, b₇) ← pop b₆
  (s, b₈) ← subscript b₇ 1
  ok (front ∷ x ∷ y ∷ z ∷ w ∷ [], refused, s)

session_results :
    session ≡ ok (some (8, 2) ∷ some (8, 2) ∷ some (9, 0) ∷ some (5, 1) ∷ none ∷ [], negsuc 0, 5)
unfolding push_back pop peek subscript
session_results = refl

abbrev script : List (Call ℕ)
script =
    Queue.push 5 ∷ Queue.push 6 ∷ Queue.peek ∷ Queue.pop ∷ Queue.pop ∷ Queue.pop ∷ Queue.pop ∷ []

buffer_refines_example :
    Returns
      (calls wrapped script)
      λ r. ((r.0, queue_of 0 r.1) ≡ answers 3 (queue_of 0 wrapped) script) × IsValid r.1
buffer_refines_example = buffer_refines 0 script wrapped-IsValid

put_tail-back_example : Returns (put_tail wrapped 5) λ r.
    (r.0 ≡ 1)
    × Leaves 0 wrapped-IsShaped refl r.1
    × (r.1.size ≡ 2 + 1)
    × (r.1.tail_idx ≡ (1 + 1) % 3)
    × (contents 0 r.1 ≡ contents 0 wrapped ++ (5, 1) ∷ [])
put_tail-back_example = put_tail-back 0 wrapped-IsShaped refl 5 (omega arith)

take_head-front_example : Returns (take_head wrapped) λ r.
    (r.1 ≡ 2)
    × Leaves 0 wrapped-IsShaped refl r.2
    × (r.2.size + 1 ≡ 2)
    × (r.2.tail_idx ≡ 1)
    × (contents 0 wrapped ≡ (r.0, r.1) ∷ contents 0 r.2)
take_head-front_example = take_head-front 0 wrapped-IsShaped refl (omega arith)

at-past_end_example : Returns (at wrapped 3) λ r. (r.0 ≡ none) × IsStuck r.1
at-past_end_example = at-past_end 3 wrapped-IsValid (omega arith)

updated_slot : Returns (update wrapped 2 4) λ r.
    (r.0 ≡ not (leb 3 2))
    × ((i : ℕ) → get_or r.1.buffer i 0 ≡ (if r.0 && 2 == i then 4 else get_or wrapped.buffer i 0))
    × IsValid r.1
    × (r.1.size ≡ 2)
    × (r.1.head_idx ≡ 2)
updated_slot = update_lem 0 2 4 wrapped-IsValid

-- Thread 0 has put 5 into slot 0 and posted it; thread 1 is about to take it, and thread 2 to put 6.
abbrev one : CircularBuffer ℕ
one = record {
  buffer = 5 ∷ 0 ∷ [];
  head_idx = 0;
  tail_idx = 1;
  capacity = 2;
  size = 1;
  held = false;
  open_slots = 0;
  full_slots = 0;
}

reached :
    (s : System ℕ) × Reach 3 2 0 s
    × (s.shared ≡ one)
    × (s.pc 1 ≡ Pc.taking)
    × (s.pc 2 ≡ Pc.placing 6)
unfolding init new is_full is_empty wait_open wait_full put_tail take_head post_full
reached = (
  _,
  later
      (later
        (later
          (later
            (later
              (later
                (later (later start (pick 0 (omega arith) (admit 5 refl)))
                  (pick 0 (omega arith) (grab_open refl)))
                (pick 0 (omega arith) (place refl)))
              (pick 0 (omega arith) publish))
            (pick 1 (omega arith) (see_some refl)))
          (pick 1 (omega arith) (grab_full refl)))
        (pick 2 (omega arith) (admit 6 refl)))
      (pick 2 (omega arith) (grab_open refl)),
  refl,
  refl,
  refl,
)

interleaved_fifo_example :
    (reached.0.put ≡ reached.0.taken ++ contents 0 reached.0.shared) × (reached.0.shared.size ≤ 2)
interleaved_fifo_example = interleaved_fifo (omega arith) (omega arith) reached.1

place_safe_example : Returns (put_tail reached.0.shared 6) (λ r. r.0 < 2)
place_safe_example = place_safe 2 (omega arith) (omega arith) reached.1 (omega arith) reached.4

take_safe_example : Returns (take_head reached.0.shared) (λ r. r.1 < 2)
take_safe_example = take_safe 1 (omega arith) (omega arith) reached.1 (omega arith) reached.3

-- Thread 0 has put 5 into the only slot and returned.
filled : (s : System ℕ) × Reach 1 1 0 s × (total in_open 1 s.pc ≡ 0) × (total in_full 1 s.pc ≡ 0)
unfolding init new is_full wait_open put_tail post_full total
filled = (
  _,
  later
      (later
        (later (later start (pick 0 (omega arith) (admit 5 refl)))
          (pick 0 (omega arith) (grab_open refl)))
        (pick 0 (omega arith) (place refl)))
      (pick 0 (omega arith) publish),
  refl,
  refl,
)

blocks_only_when_example :
    ((wait_open filled.0.shared ≡ fault blocked) ↔ (filled.0.shared.size ≡ 1))
    × ((wait_full filled.0.shared ≡ fault blocked) ↔ (filled.0.shared.size ≡ 0))
blocks_only_when_example = blocks_only_when (omega arith) (omega arith) filled.1 filled.2 filled.3
