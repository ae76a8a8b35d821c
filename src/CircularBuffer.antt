-- ===== src/CircularBuffer.antt =====
-- The class template `CircularBuffer` (circular_buffer.h). Each member function locks the mutex,
-- works, and unlocks it; the parts that stand between two waits are functions of their own.
pub mod Shape
pub mod Queue
pub mod Fifo
pub mod Access
pub mod Filling
pub mod Popping
pub mod Threads
pub mod Effects
pub mod Interleaving
mod Examples
use shared_memory_hashtable.Common.{
  ℕ, zero, suc, ◌+◌, ◌%◌, ◌^◌, Bool, true, false, Option, none, some, List, [], ◌∷◌, length, set,
  get_elem?, replicate, if◌then◌else◌, ltb, leb, ◌==◌, increment, decrement, ℤ, pos, negsuc, Run,
  ok, fault, out_of_range, exited, ◌>>=◌, codes, ◌++◌,
}
use shared_memory_hashtable.Sync.{lock, unlock, wait, post}

pub record CircularBuffer {ℓ} (T : Type ℓ) : Type ℓ where
  pub buffer : List T
  pub head_idx : ℕ
  pub tail_idx : ℕ
  pub capacity : ℕ
  pub size : ℕ
  pub held : Bool  -- whether `_pmutex` is locked
  pub open_slots : ℕ
  pub full_slots : ℕ

-- `(long long) n < 0`
abbrev pub is_negative : ℕ → Bool
is_negative n = leb (2 ^ 63) n

module _ {ℓ} {T : Type ℓ} where
  -- the constructor, for `N` slots of value-initialised elements `blank`
  unfoldable pub new : ℕ → T → CircularBuffer T
  new n blank = record {
    buffer = replicate n blank;
    head_idx = 0;
    tail_idx = 0;
    capacity = n;
    size = 0;
    held = false;
    open_slots = n;
    full_slots = 0;
  }

  pub acquire : CircularBuffer T → Run (CircularBuffer T)
  unfolding lock
  acquire b = lock b.held >>= λ h. ok (record b { held = h })

  pub release : CircularBuffer T → CircularBuffer T
  unfolding unlock
  release b = record b { held = unlock b.held }

  -- `_buffer[i]`
  pub slot : CircularBuffer T → ℕ → Run T
  slot b i = elim (get_elem? b.buffer i) [ some x ↦ ok x | none ↦ fault out_of_range ]

  pub is_empty : CircularBuffer T → Run (Bool × CircularBuffer T)
  unfolding acquire release
  is_empty b = acquire b >>= λ b₁. ok (b₁.size == 0, release b₁)

  pub is_full : CircularBuffer T → Run (Bool × CircularBuffer T)
  unfolding acquire release
  is_full b = acquire b >>= λ b₁. ok (b₁.size == b₁.capacity, release b₁)

  -- `_fullSlots.wait()` and the other three
  pub wait_full : CircularBuffer T → Run (CircularBuffer T)
  unfolding wait
  wait_full b = wait b.full_slots >>= λ n. ok (record b { full_slots = n })

  pub wait_open : CircularBuffer T → Run (CircularBuffer T)
  unfolding wait
  wait_open b = wait b.open_slots >>= λ n. ok (record b { open_slots = n })

  pub post_full : CircularBuffer T → CircularBuffer T
  unfolding post
  post_full b = record b { full_slots = post b.full_slots }

  pub post_open : CircularBuffer T → CircularBuffer T
  unfolding post
  post_open b = record b { open_slots = post b.open_slots }

  -- the block of `pop` under the mutex: the element, its index, and the buffer
  pub take_head : CircularBuffer T → Run (T × ℕ × CircularBuffer T)
  unfolding acquire release slot
  take_head b = do
    b₁ ← acquire b
    elem ← slot b₁ b₁.head_idx
    let size = decrement b₁.size
    if is_negative size
        then fault exited
        else ok (
          elem,
          b₁.head_idx,
          release (record b₁ { size = size; head_idx = (b₁.head_idx + 1) % b₁.capacity }),
        )

  -- the block of `push_back` under the mutex: the index, and the buffer
  pub put_tail : CircularBuffer T → T → Run (ℕ × CircularBuffer T)
  unfolding acquire release slot
  put_tail b elem = do
    b₁ ← acquire b
    _ ← slot b₁ b₁.tail_idx
    let size = increment b₁.size
    if is_negative size
        then fault exited
        else ok (
          b₁.tail_idx,
          release (record b₁ {
            buffer = set b₁.buffer b₁.tail_idx elem;
            size = size;
            tail_idx = (b₁.tail_idx + 1) % b₁.capacity;
          }),
        )

  -- the rest of `pop`, when the buffer was not empty
  pub pop_some : CircularBuffer T → Run (Option (T × ℕ) × CircularBuffer T)
  unfolding wait_full take_head post_open
  pop_some b = do
    b₁ ← wait_full b
    (elem, idx, b₂) ← take_head b₁
    ok (some (elem, idx), post_open b₂)

  pub pop : CircularBuffer T → Run (Option (T × ℕ) × CircularBuffer T)
  unfolding is_empty pop_some
  pop b = do (empty, b₁) ← is_empty b; if empty then ok (none, b₁) else pop_some b₁

  -- the rest of `push_back`, when the buffer was not full
  pub push_some : CircularBuffer T → T → Run (ℤ × CircularBuffer T)
  unfolding wait_open put_tail post_full
  push_some b elem = do b₁ ← wait_open b; (idx, b₂) ← put_tail b₁ elem; ok (pos idx, post_full b₂)

  -- -1 on failure
  pub push_back : CircularBuffer T → T → Run (ℤ × CircularBuffer T)
  unfolding is_full push_some
  push_back b elem = do
    (full, b₁) ← is_full b
    if full then ok (negsuc 0, b₁) else push_some b₁ elem

  pub peek : CircularBuffer T → Run (Option (T × ℕ) × CircularBuffer T)
  unfolding is_empty acquire release slot
  peek b = do
    (empty, b₁) ← is_empty b
    if empty then ok (none, b₁) else (do
      b₂ ← acquire b₁
      elem ← slot b₂ b₂.head_idx
      ok (some (elem, b₂.head_idx), release b₂))

  -- `operator[]`, as a read
  pub subscript : CircularBuffer T → ℕ → Run (T × CircularBuffer T)
  unfolding acquire release slot
  subscript b idx = do b₁ ← acquire b; x ← slot b₁ idx; ok (x, release b₁)

  -- Where the source throws `std::out_of_range` the result is `false`.
  pub update : CircularBuffer T → ℕ → T → Run (Bool × CircularBuffer T)
  unfolding acquire release slot
  update b idx elem = if leb b.capacity idx then ok (false, b) else (do
    b₁ ← acquire b
    _ ← slot b₁ idx
    ok (true, release (record b₁ { buffer = set b₁.buffer idx elem })))

  -- `at` throws out of `_buffer.at(idx)`, before it unlocks: the result is `none` then.
  pub at : CircularBuffer T → ℕ → Run (Option T × CircularBuffer T)
  unfolding acquire release
  at b idx = do
    b₁ ← acquire b
    elim (get_elem? b₁.buffer idx) [ some x ↦ ok (some x, release b₁) | none ↦ ok (none, b₁) ]

  -- the accessors of the same names
  pub capacity_of : CircularBuffer T → Run (ℕ × CircularBuffer T)
  unfolding acquire release
  capacity_of b = acquire b >>= λ b₁. ok (b₁.capacity, release b₁)

  pub size_of : CircularBuffer T → Run (ℕ × CircularBuffer T)
  unfolding acquire release
  size_of b = acquire b >>= λ b₁. ok (b₁.size, release b₁)

  -- the slots from `i` on, `n` of them, each followed by a space
  pub print_slots : (T → List ℕ) → CircularBuffer T → ℕ → ℕ → Run (List ℕ)
  unfolding slot
  print_slots shown b zero i = ok []
  print_slots shown b (suc n) i = do
    x ← slot b i
    rest ← print_slots shown b n (i + 1)
    ok (shown x ++ 32 ∷ rest)

  -- What `printBuffer` writes, with the printing of numbers and of elements; the slots are read
  -- without the mutex.
  pub print_buffer :
      (ℕ → List ℕ) → (T → List ℕ) → CircularBuffer T → Run (List ℕ × CircularBuffer T)
  unfolding capacity_of size_of print_slots
  print_buffer numeral shown b = do
    (capacity, b₁) ← capacity_of b
    (size, b₂) ← size_of b₁
    slots ← print_slots shown b₂ b₂.capacity 0
    ok (
      codes "Buffer capacity: "
          ++ numeral capacity
          ++ codes " ("
          ++ numeral size
          ++ codes " used); Head: "
          ++ numeral b₂.head_idx
          ++ codes ", Tail: "
          ++ numeral b₂.tail_idx
          ++ 10 ∷ slots
          ++ 10 ∷ [],
      b₂,
    )
