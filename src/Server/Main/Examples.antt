-- ===== src/Server/Main/Examples.antt =====
-- The theorems on the start and the end of the server: a table of 8 buckets, and a buffer that is full of
-- requests.
use shared_memory_hashtable.Common.{
  ℕ, ◌+◌, ◌≤◌, ◌∙◌, ◌<◌, ◌≡◌, refl, ap, true, ok, ℤ, negsuc, ◌==◌, some, [], ◌∷◌, arith, Returns,
}
use shared_memory_hashtable.HashTable.Buckets.{max_capacity}
use shared_memory_hashtable.Message.{Bytes, Mode, Message, new_message, message_of}
use shared_memory_hashtable.CircularBuffer
use shared_memory_hashtable.CircularBuffer.Fifo.{new-IsValid}
use shared_memory_hashtable.CircularBuffer.Shape.{contents-nil}
use shared_memory_hashtable.CircularBuffer.Filling.{
  push_times, counted, Filled, push_times-Filled, push_back-Pushed,
}
use shared_memory_hashtable.CircularBuffer.{CircularBuffer, push_back}
use shared_memory_hashtable.Server.Main.Joining.{State, lose_exit, Steps, done, more, ending}
use shared_memory_hashtable.Server.Main.Joining.Books.{exits_in}
use shared_memory_hashtable.Server.Main.Joining.Completion.{lost_exit}
use shared_memory_hashtable.Mailbox.Construction.{Codes, BufferCodes, Succeeds, BufferSucceeds}
use shared_memory_hashtable.Server.Examples.{text_key}
use shared_memory_hashtable.Server.Polling.{is_exit}
use shared_memory_hashtable.Server.Main.{slots, exit_message, Host, start}
use shared_memory_hashtable.Server.Main.Startup.{Fate, start-Fate}

abbrev good_codes : ℕ → Codes
good_codes i = record { member_init = 0; temporary_init = 0; temporary_destroy = 0; cond_init = 0 }

good_codes-Succeeds : Succeeds good_codes
good_codes-Succeeds i = (refl, refl, refl, refl)

abbrev good_buffer : BufferCodes
good_buffer = record {
  mutex_init = 0;
  open_mutex_init = 0;
  open_init = 0;
  full_mutex_init = 0;
  full_init = 0;
}

good_buffer-Succeeds : BufferSucceeds good_buffer
good_buffer-Succeeds = record {
  mutex_made = refl;
  open_mutex_made = refl;
  open_made = refl;
  full_mutex_made = refl;
  full_made = refl;
}

abbrev host : Host
host = record {
  stoul = λ _. some 8;
  shm_open = λ _. true;
  ftruncate = λ _ _. true;
  mmap = λ _ _. true;
  page_size = 4096;
  mailbox_size = 20000;
  message_size = 1168;
  codes = good_codes;
  buffer_codes = good_buffer;
  alloc = λ _. true;
}

small_numbers : (number : Bytes) (n : ℕ) → host.stoul number ≡ some n → n ≤ max_capacity
small_numbers number n h = let e : 8 ≡ n = cc in omega (arith, e)

start-Fate_example :
    Returns
      (start host true ((115 ∷ []) ∷ (56 ∷ []) ∷ []))
      (Fate host true ((115 ∷ []) ∷ (56 ∷ []) ∷ []))
start-Fate_example =
    start-Fate host true ((115 ∷ []) ∷ (56 ∷ []) ∷ []) (omega arith) good_buffer-Succeeds
      good_codes-Succeeds small_numbers

-- a buffer of 8 slots with eight requests, on which `main` has tried its first push
full_buffer :
    Returns
      (push_times 8 (message_of Mode.get) (CircularBuffer.new 8 new_message))
      (Filled new_message 8 (message_of Mode.get) (CircularBuffer.new 8 new_message))
full_buffer =
    push_times-Filled new_message 8 (message_of Mode.get)
      (new-IsValid 8 new_message (omega arith) (omega arith))

refused : (b : CircularBuffer Message) × (push_back full_buffer.0 exit_message ≡ ok (negsuc 0, b))
unfolding CircularBuffer.new
refused =
    let ((i, b), run, (index, _)) =
      push_back-Pushed new_message {b = full_buffer.0} exit_message full_buffer.2.valid in
    let full : (full_buffer.0.size == full_buffer.0.capacity) ≡ true =
      ground (arith, full_buffer.2.grown, full_buffer.2.width) in
    let first : i ≡ negsuc 0 = rw full at index in (b, run ∙ ap (λ (j : ℤ). ok (j, b)) first)

after_a_lost_push : (s : State) × Steps (ending full_buffer.0) s × (s.lost ≡ 1)
unfolding ending
after_a_lost_push = (
  record (ending full_buffer.0) { buffer = refused.0; pushes = 1; lost = 1 },
  more done (lose_exit (omega arith) refused.1),
  refl,
)

full_buffer-wide : full_buffer.0.capacity ≡ slots
unfolding CircularBuffer.new
full_buffer-wide = full_buffer.2.width

full_buffer-exits : exits_in full_buffer.0 ≡ 0
unfolding message_of new_message CircularBuffer.new
full_buffer-exits =
    full_buffer.2.added is_exit
    ∙ ap (λ q. counted is_exit q + 0)
        (contents-nil new_message (CircularBuffer.new 8 new_message) refl)

lost_exit_example : after_a_lost_push.0.joined < slots
lost_exit_example =
    lost_exit full_buffer.2.valid full_buffer-wide full_buffer-exits after_a_lost_push.1
      (rw after_a_lost_push.2 (omega arith)) done
