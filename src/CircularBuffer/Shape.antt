-- ===== src/CircularBuffer/Shape.antt =====
-- What a `CircularBuffer` (circular_buffer.h) holds, and what the two blocks under the mutex do to it.
use native.Mathlib.Numerals.{add-one}
use shared_memory_hashtable.Common.{
  ℕ, zero, suc, ◌+◌, ◌-◌, ◌%◌, ◌^◌, ◌≤◌, ◌<◌, ◌≢◌, ◌≡◌, refl, ap, ap₂, ◌∙◌, true, false, List, [],
  ◌∷◌, ◌++◌, length, set, get_or, length-set, get_or-set, arith, if◌then◌else◌, ◌==◌, increment,
  decrement, ok, Returns, ◌>>=◌, blocked, fault, get_elem?-get_or,
}
use native.Mathlib.Nat.{mod-add-mod, mod-eq_of_lt, mod-eq-sub-mod, add-zero}
use native.Mathlib.Decide.{dec_lt}
use shared_memory_hashtable.CircularBuffer.{
  CircularBuffer, acquire, slot, take_head, put_tail, is_negative,
}

-- Fewer than `total` steps from `h` do not lead back to `h`.
step-ne : {total h k : ℕ} → h < total → suc k < total → (h + suc k) % total ≢ h
step-ne {total} {h} {k} lt few = elim (dec_lt (h + suc k) total) [
  | yes below ↦ omega (arith, mod-eq_of_lt below)
  | no above ↦ omega (
    arith,
    mod-eq-sub-mod {n = h + suc k} {m = total} (omega arith),
    mod-eq_of_lt {n = h + suc k - total} {m = total} (omega arith),
  )
]

step-add : (total h n : ℕ) → (h + suc n) % total ≡ ((h + 1) % total + n) % total
step-add total h n = rw mod-add-mod (ap (λ k. k % total) (omega arith))

step-end : (total h n : ℕ) → ((h + n) % total + 1) % total ≡ (h + (n + 1)) % total
step-end total h n = rw mod-add-mod (ap (λ k. k % total) (omega arith))

not_negative : (n : ℕ) → n < 2 ^ 63 → is_negative n ≡ false
not_negative n h = ground arith

module _ {ℓ} {T : Type ℓ} where
  -- the arrays and indices are consistent, whatever the semaphores say
  pub record IsShaped (b : CircularBuffer T) : Type 0 where
    pub allocated : length b.buffer ≡ b.capacity
    pub wide : 1 ≤ b.capacity
    pub small : b.capacity < 2 ^ 31
    pub head_in : b.head_idx < b.capacity
    pub size_in : b.size ≤ b.capacity
    pub tail_at : b.tail_idx ≡ (b.head_idx + b.size) % b.capacity

  -- the `n` slots from `h` on, each with its index, going round at `total`
  unfoldable pub window : T → List T → ℕ → ℕ → ℕ → List (T × ℕ)
  window blank buf total h zero = []
  window blank buf total h (suc n) =
      (get_or buf h blank, h) ∷ window blank buf total ((h + 1) % total) n

  -- the stored elements with the indices of their slots, oldest first
  abbrev pub contents : T → CircularBuffer T → List (T × ℕ)
  contents blank b = window blank b.buffer b.capacity b.head_idx b.size

  pub length-window :
      (blank : T) (buf : List T) (total h n : ℕ) → length (window blank buf total h n) ≡ n
  unfolding window
  length-window blank buf total h zero = refl
  length-window blank buf total h (suc n) =
      ap suc (length-window blank buf total ((h + 1) % total) n)

  -- A write to the slot behind a window adds it to the window.
  window-set :
      (blank : T) (buf : List T) (total : ℕ) (x : T) (n h i : ℕ)
      → length buf ≡ total
      → h < total
      → n < total
      → i ≡ (h + n) % total
      → window blank (set buf i x) total h (suc n) ≡ window blank buf total h n ++ (x, i) ∷ []
  unfolding window
  window-set blank buf total x zero h i full lt few e =
      let same : i ≡ h = e ∙ rw (add-zero, mod-eq_of_lt lt) in
      let hit : (h == h) ≡ true = ground arith in
      rw (same, get_or-set buf h h x blank (omega arith), hit)
  window-set blank buf total x (suc n) h i full lt few e =
      let apart : i ≢ h = rw e (step-ne lt few) in
      let miss : (i == h) ≡ false = ground arith in
      let here : get_or (set buf i x) h blank ≡ get_or buf h blank =
        get_or-set buf i h x blank (omega arith) ∙ rw miss in
      ap₂ (λ y w. (y, h) ∷ w) here
        (window-set blank buf total x n ((h + 1) % total) i full (omega arith) (omega arith)
          (e ∙ step-add total h n))

  window-cons :
      (blank : T) (buf : List T) (total h n : ℕ)
      → 1 ≤ n
      → window blank buf total h n
        ≡ (get_or buf h blank, h) ∷ window blank buf total ((h + 1) % total) (n - 1)
  unfolding window
  window-cons blank buf total h zero p = absurd (omega arith)
  window-cons blank buf total h (suc n) p =
      ap (λ k. (get_or buf h blank, h) ∷ window blank buf total ((h + 1) % total) k) (omega arith)

  pub contents-nil : (blank : T) (b : CircularBuffer T) → b.size ≡ 0 → contents blank b ≡ []
  unfolding window
  contents-nil blank b e = ap (window blank b.buffer b.capacity b.head_idx) e

  pub contents-cons :
      (blank : T) (b : CircularBuffer T)
      → 1 ≤ b.size
      → contents blank b
        ≡ (get_or b.buffer b.head_idx blank, b.head_idx)
          ∷ window blank b.buffer b.capacity ((b.head_idx + 1) % b.capacity) (b.size - 1)
  contents-cons blank b h = window-cons blank b.buffer b.capacity b.head_idx b.size h

  pub slot-get_or :
      (blank : T) (b : CircularBuffer T) (i : ℕ)
      → i < length b.buffer
      → slot b i ≡ ok (get_or b.buffer i blank)
  unfolding slot
  slot-get_or blank b i h = rw (get_elem?-get_or blank b.buffer i h, slot)

  pub acquire-free :
      (b : CircularBuffer T) → b.held ≡ false → acquire b ≡ ok (record b { held = true })
  unfolding acquire
  acquire-free b free =
      ap (λ h. (if h then fault blocked else ok true) >>= λ h'. ok (record b { held = h' })) free

  module _ (blank : T) {b : CircularBuffer T} (shaped : IsShaped b) (free : b.held ≡ false) where
    -- what `put_tail` and `take_head` leave alone
    pub record Leaves (b' : CircularBuffer T) : Type 0 where
      pub shaped' : IsShaped b'
      pub free' : b'.held ≡ false
      pub capacity' : b'.capacity ≡ b.capacity
      pub open' : b'.open_slots ≡ b.open_slots
      pub full' : b'.full_slots ≡ b.full_slots

    -- With room for it, an element goes to the back of the queue, under the index that is returned.
    pub put_tail-back :
        (x : T)
        → b.size < b.capacity
        → Returns (put_tail b x) λ r.
          (r.0 ≡ b.tail_idx)
          × Leaves r.1
          × (r.1.size ≡ b.size + 1)
          × (r.1.tail_idx ≡ (b.tail_idx + 1) % b.capacity)
          × (contents blank r.1 ≡ contents blank b ++ (x, b.tail_idx) ∷ [])
    unfolding put_tail
    put_tail-back x room =
        let last : b.tail_idx < length b.buffer = omega (arith, shaped.tail_at, shaped.allocated) in
        let grown : increment b.size ≡ b.size + 1 = omega (arith, shaped.small, shaped.size_in) in
        let fits : is_negative (increment b.size) ≡ false =
          not_negative (increment b.size) (omega (arith, shaped.small, shaped.size_in)) in
        (
          (
            b.tail_idx,
            record b {
              held = false;
              buffer = set b.buffer b.tail_idx x;
              size = increment b.size;
              tail_idx = (b.tail_idx + 1) % b.capacity;
            },
          ),
          rw (
            acquire-free b free,
            ◌>>=◌,
            get_elem?-get_or blank b.buffer b.tail_idx last,
            ◌>>=◌,
            fits,
          ),
          (
            refl,
            record {
              shaped' = record {
                allocated = rw length-set (shaped.allocated);
                wide = shaped.wide;
                small = shaped.small;
                head_in = shaped.head_in;
                size_in = omega arith;
                tail_at = rw (grown, shaped.tail_at) (step-end b.capacity b.head_idx b.size);
              };
              free' = refl;
              capacity' = refl;
              open' = refl;
              full' = refl;
            },
            grown,
            refl,
            rw (grown, add-one)
                (window-set blank b.buffer b.capacity x b.size b.head_idx b.tail_idx
                  shaped.allocated shaped.head_in room shaped.tail_at),
          ),
        )

    -- A stored element is taken from the front of the queue, with its index.
    pub take_head-front :
        1 ≤ b.size
        → Returns (take_head b) λ r.
          (r.1 ≡ b.head_idx)
          × Leaves r.2
          × (r.2.size + 1 ≡ b.size)
          × (r.2.tail_idx ≡ b.tail_idx)
          × (contents blank b ≡ (r.0, r.1) ∷ contents blank r.2)
    unfolding take_head
    take_head-front some_in =
        let first : b.head_idx < length b.buffer =
          omega (arith, shaped.head_in, shaped.allocated) in
        let less : decrement b.size ≡ b.size - 1 = omega (arith, shaped.small, shaped.size_in) in
        let fits : is_negative (decrement b.size) ≡ false =
          not_negative (decrement b.size) (omega (arith, shaped.small, shaped.size_in)) in
        (
          (
            get_or b.buffer b.head_idx blank,
            b.head_idx,
            record b {
              held = false;
              size = decrement b.size;
              head_idx = (b.head_idx + 1) % b.capacity;
            },
          ),
          rw (
            acquire-free b free,
            ◌>>=◌,
            get_elem?-get_or blank b.buffer b.head_idx first,
            ◌>>=◌,
            fits,
          ),
          (
            refl,
            record {
              shaped' = record {
                allocated = shaped.allocated;
                wide = shaped.wide;
                small = shaped.small;
                head_in = omega (arith, shaped.wide);
                size_in = omega (arith, shaped.size_in);
                tail_at =
                    let n : b.size ≡ suc (decrement b.size) = omega arith in
                    shaped.tail_at
                    ∙ ap (λ k. (b.head_idx + k) % b.capacity) n
                    ∙ step-add b.capacity b.head_idx (decrement b.size);
              };
              free' = refl;
              capacity' = refl;
              open' = refl;
              full' = refl;
            },
            omega arith,
            refl,
            rw less (window-cons blank b.buffer b.capacity b.head_idx b.size some_in),
          ),
        )
