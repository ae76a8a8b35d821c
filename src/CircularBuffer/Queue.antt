-- ===== src/CircularBuffer/Queue.antt =====
-- What a `CircularBuffer` (circular_buffer.h) promises a single thread: a bounded queue whose elements
-- keep the index of their slot.
use shared_memory_hashtable.Common.{
  ℕ, ◌+◌, ◌%◌, Option, none, some, List, [], ◌∷◌, ◌++◌, length, if◌then◌else◌, ◌==◌, ℤ, pos, negsuc,
}

-- The queue that the buffer stands for: what it holds, and the index that comes next.
pub record Queue {ℓ} (T : Type ℓ) : Type ℓ where
  pub items : List (T × ℕ)
  pub next : ℕ

pub data Call {ℓ} (T : Type ℓ) : Type ℓ where
  push : T → Call T
  pop : Call T
  peek : Call T

pub data Reply {ℓ} (T : Type ℓ) : Type ℓ where
  at_index : ℤ → Reply T
  taken : Option (T × ℕ) → Reply T

module _ {ℓ} {T : Type ℓ} where
  -- A full queue refuses with -1; else the element gets the next index.
  answer_push : ℕ → Queue T → T → Reply T × Queue T
  answer_push n q x = if length q.items == n then (at_index (negsuc 0), q) else (
    at_index (pos q.next),
    record { items = q.items ++ (x, q.next) ∷ []; next = (q.next + 1) % n },
  )

  front : List (T × ℕ) → Option (T × ℕ)
  front [] = none
  front (x ∷ _) = some x

  rest : List (T × ℕ) → List (T × ℕ)
  rest [] = []
  rest (_ ∷ xs) = xs

  unfoldable pub answer : ℕ → Queue T → Call T → Reply T × Queue T
  unfolding answer_push front rest
  answer n q (push x) = answer_push n q x
  answer n q pop = (taken (front q.items), record q { items = rest q.items })
  answer n q peek = (taken (front q.items), q)

  unfoldable pub answers : ℕ → Queue T → List (Call T) → List (Reply T) × Queue T
  answers n q [] = ([], q)
  answers n q (c ∷ cs) =
      let (r, q₁) = answer n q c in let (rs, q₂) = answers n q₁ cs in (r ∷ rs, q₂)
