-- ===== src/CircularBuffer/Fifo.antt =====
-- A `CircularBuffer` (circular_buffer.h) used by one thread at a time is a bounded queue whose
-- elements keep the index of their slot.
use shared_memory_hashtable.Common.{
  ℕ, ◌+◌, ◌-◌, ◌^◌, ◌≤◌, ◌<◌, ◌≡◌, refl, sym, ap, true, false, none, some, List, [], ◌∷◌, length,
  length-replicate, arith, ◌==◌, pos, negsuc, Run, ok, Returns, ◌>>=◌, Bool-cases, inl, inr, get_or,
}
use mathlib.Core.Path.{subst}
use shared_memory_hashtable.CircularBuffer
use shared_memory_hashtable.CircularBuffer.{
  CircularBuffer, new, is_empty, is_full, wait_full, wait_open, post_full, post_open, take_head,
  put_tail, pop_some, push_some, push_back, acquire, release, slot,
}
use shared_memory_hashtable.CircularBuffer.Queue.{
  Queue, Call, push, pop, peek, Reply, at_index, taken, answer, answers,
}
use shared_memory_hashtable.CircularBuffer.Shape.{
  IsShaped, contents, length-window, acquire-free, put_tail-back, take_head-front, contents-nil,
  contents-cons, slot-get_or,
}
use shared_memory_hashtable.Sync.{wait-pos}

module _ {ℓ} {T : Type ℓ} where
  unfoldable pub call : CircularBuffer T → Call T → Run (Reply T × CircularBuffer T)
  call b (push x) = push_back b x >>= λ r. ok (at_index r.0, r.1)
  call b pop = CircularBuffer.pop b >>= λ r. ok (taken r.0, r.1)
  call b peek = CircularBuffer.peek b >>= λ r. ok (taken r.0, r.1)

  pub calls : CircularBuffer T → List (Call T) → Run (List (Reply T) × CircularBuffer T)
  calls b [] = ok ([], b)
  calls b (c ∷ cs) = do (r, b₁) ← call b c; (rs, b₂) ← calls b₁ cs; ok (r ∷ rs, b₂)

  -- no thread is inside a member function
  pub record IsValid (b : CircularBuffer T) : Type 0 where
    pub shaped : IsShaped b
    pub free : b.held ≡ false
    pub full : b.full_slots ≡ b.size
    pub open_left : b.open_slots + b.size ≡ b.capacity

  abbrev pub queue_of : T → CircularBuffer T → Queue T
  queue_of blank b = record { items = contents blank b; next = b.tail_idx }

  pub new-IsValid : (n : ℕ) (blank : T) → 1 ≤ n → n < 2 ^ 31 → IsValid (new n blank)
  unfolding new
  new-IsValid n blank lo hi = record {
    shaped = record {
      allocated = length-replicate n blank;
      wide = lo;
      small = hi;
      head_in = lo;
      size_in = omega arith;
      tail_at = omega arith;
    };
    free = refl;
    full = refl;
    open_left = omega arith;
  }

  released : {b : CircularBuffer T} → b.held ≡ false → record b { held = false } ≡ b
  released {b} free = ap (λ h. record b { held = h }) (sym free)

  pub is_empty-free : {b : CircularBuffer T} → b.held ≡ false → is_empty b ≡ ok (b.size == 0, b)
  unfolding is_empty
  is_empty-free {b} free = rw (acquire-free b free) (ap (λ c. ok (b.size == 0, c)) (released free))

  pub is_full-free :
      {b : CircularBuffer T} → b.held ≡ false → is_full b ≡ ok (b.size == b.capacity, b)
  unfolding is_full
  is_full-free {b} free =
      rw (acquire-free b free) (ap (λ c. ok (b.size == b.capacity, c)) (released free))

  -- A call returns what the queue answers, and leaves the buffer with what it leaves.
  pub record Answers (blank : T) (b : CircularBuffer T) (c : Call T)
      (r : Reply T × CircularBuffer T) : Type ℓ where
    pub agrees : (r.0, queue_of blank r.1) ≡ answer b.capacity (queue_of blank b) c
    pub valid : IsValid r.1
    pub width : r.1.capacity ≡ b.capacity

  -- The semaphores are no part of the shape.
  pub reshape :
      {b : CircularBuffer T} (o f : ℕ)
      → IsShaped b
      → IsShaped (record b { open_slots = o; full_slots = f })
  reshape o f s = record {
    allocated = s.allocated;
    wide = s.wide;
    small = s.small;
    head_in = s.head_in;
    size_in = s.size_in;
    tail_at = s.tail_at;
  }

  pub length-contents : (blank : T) (b : CircularBuffer T) → length (contents blank b) ≡ b.size
  length-contents blank b = length-window blank b.buffer b.capacity b.head_idx b.size

  pub push-Answers :
      (blank : T) {b : CircularBuffer T} (x : T)
      → IsValid b
      → Returns (call b (push x)) (Answers blank b (push x))
  unfolding call push_back push_some wait_open post_full answer
  push-Answers blank {b} x valid = elim (Bool-cases (b.size == b.capacity)) [
    | inl full ↦ (
      (at_index (negsuc 0), b),
      rw (is_full-free {b = b} valid.free, ◌>>=◌, full),
      record { agrees = rw (length-contents blank b, full); valid = valid; width = refl },
    )
    | inr room ↦
        let b₁ : CircularBuffer T = record b { open_slots = b.open_slots - 1 } in
        let less : b.size < b.capacity = ground (arith, valid.shaped.size_in) in
        let some_open : 1 ≤ b.open_slots = omega (arith, valid.open_left) in
        let ((i, b₂), run, (e, l, n, t, q)) =
          put_tail-back blank {b = b₁} (reshape (b.open_slots - 1) b.full_slots valid.shaped)
            valid.free x less in
        (
          (at_index (pos i), post_full b₂),
          rw (is_full-free {b = b} valid.free, ◌>>=◌, room, wait-pos b.open_slots some_open, run),
          record {
            agrees = rw (length-contents blank b, room, e, t, q);
            valid = record {
              shaped = reshape b₂.open_slots (b₂.full_slots + 1) l.shaped';
              free = l.free';
              full = omega (arith, l.full', valid.full);
              open_left = omega (arith, l.open', l.capacity', valid.open_left);
            };
            width = l.capacity';
          },
        )
  ]

  pub pop-Answers :
      (blank : T) {b : CircularBuffer T} → IsValid b → Returns (call b pop) (Answers blank b pop)
  unfolding call CircularBuffer.pop pop_some wait_full post_open answer
  pop-Answers blank {b} valid = elim (Bool-cases (b.size == 0)) [
    | inl none_in ↦
        let z : b.size ≡ 0 = ground arith in
        (
          (taken none, b),
          rw (is_empty-free {b = b} valid.free, ◌>>=◌, none_in),
          record { agrees = rw (contents-nil blank b z); valid = valid; width = refl },
        )
    | inr some_in ↦
        let b₁ : CircularBuffer T = record b { full_slots = b.full_slots - 1 } in
        let more : 1 ≤ b.size = ground arith in
        let some_full : 1 ≤ b.full_slots = omega (arith, valid.full) in
        let ((x, i, b₂), run, (e, l, n, t, q)) =
          take_head-front blank {b = b₁} (reshape b.open_slots (b.full_slots - 1) valid.shaped)
            valid.free more in
        (
          (taken (some (x, i)), post_open b₂),
          rw (
            is_empty-free {b = b} valid.free,
            ◌>>=◌,
            some_in,
            wait-pos b.full_slots some_full,
            run,
          ),
          record {
            agrees = rw (q, t);
            valid = record {
              shaped = reshape (b₂.open_slots + 1) b₂.full_slots l.shaped';
              free = l.free';
              full = omega (arith, l.full', valid.full);
              open_left = omega (arith, l.open', l.capacity', valid.open_left);
            };
            width = l.capacity';
          },
        )
  ]

  peek-Answers :
      (blank : T) {b : CircularBuffer T} → IsValid b → Returns (call b peek) (Answers blank b peek)
  unfolding call CircularBuffer.peek answer
  peek-Answers blank {b} valid = elim (Bool-cases (b.size == 0)) [
    | inl none_in ↦
        let z : b.size ≡ 0 = ground arith in
        (
          (taken none, b),
          rw (is_empty-free {b = b} valid.free, ◌>>=◌, none_in),
          record { agrees = rw (contents-nil blank b z); valid = valid; width = refl },
        )
    | inr some_in ↦
        let more : 1 ≤ b.size = ground arith in
        let inside : b.head_idx < length b.buffer =
          omega (arith, valid.shaped.head_in, valid.shaped.allocated) in
        let x : T = get_or b.buffer b.head_idx blank in
        (
          (taken (some (x, b.head_idx)), b),
          rw
              (
                is_empty-free {b = b} valid.free,
                ◌>>=◌,
                some_in,
                acquire-free b valid.free,
                slot-get_or blank (record b { held = true }) b.head_idx inside,
              )
              (ap (λ c. ok (taken (some (x, b.head_idx)), c)) (released {b = b} valid.free)),
          record { agrees = rw (contents-cons blank b more); valid = valid; width = refl },
        )
  ]

  call-Answers :
      (blank : T) {b : CircularBuffer T} (c : Call T)
      → IsValid b
      → Returns (call b c) (Answers blank b c)
  call-Answers blank (push x) valid = push-Answers blank x valid
  call-Answers blank pop valid = pop-Answers blank valid
  call-Answers blank peek valid = peek-Answers blank valid

  answers-cons :
      (n : ℕ) (q : Queue T) (c : Call T) (cs : List (Call T)) {r : Reply T} {q₁ : Queue T}
      {rs : List (Reply T)} {q₂ : Queue T}
      → (r, q₁) ≡ answer n q c
      → (rs, q₂) ≡ answers n q₁ cs
      → (r ∷ rs, q₂) ≡ answers n q (c ∷ cs)
  unfolding answers
  answers-cons n q c cs e f = rw (← e, ← f)

  -- On a valid buffer, no call of a sequence of push_back, pop and peek by one thread blocks or
  -- faults, the replies are those of the queue of its elements, and the buffer is left valid, with
  -- the elements of the queue.
  pub buffer_refines :
      (blank : T) (cs : List (Call T)) {b : CircularBuffer T}
      → IsValid b
      → Returns
          (calls b cs)
          λ r. ((r.0, queue_of blank r.1) ≡ answers b.capacity (queue_of blank b) cs) × IsValid r.1
  unfolding calls answers
  buffer_refines blank [] {b} valid = (([], b), refl, (refl, valid))
  buffer_refines blank (c ∷ cs) {b} valid =
      let (r, run, a) = call-Answers blank c valid in
      let (rs, run', (e, v)) = buffer_refines blank cs a.valid in
      (
        (r.0 ∷ rs.0, rs.1),
        rw (run, ◌>>=◌, run'),
        (
          answers-cons b.capacity (queue_of blank b) c cs a.agrees (
              subst (λ m. (rs.0, queue_of blank rs.1) ≡ answers m (queue_of blank r.1) cs) a.width
                e),
          v,
        ),
      )
