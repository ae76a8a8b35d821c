-- ===== src/CircularBuffer/Access.antt =====
-- Access to a `CircularBuffer` by index (circular_buffer.h, `at`, `update` and `operator[]`).
use shared_memory_hashtable.Common.{
  ℕ, zero, suc, ◌≤◌, ◌<◌, ◌≡◌, refl, true, false, none, List, [], ◌∷◌, length, set, get_elem?,
  get_or, get_or-set, length-set, arith, if◌then◌else◌, leb, ◌==◌, Bool-cases, inl, inr, fault,
  blocked, Returns, ◌>>=◌, not, ◌&&◌, get_elem?-get_or,
}
use shared_memory_hashtable.CircularBuffer.{
  CircularBuffer, acquire, slot, is_empty, is_full, update, at, pop, push_back, peek, subscript,
  capacity_of, size_of, print_buffer,
}
use shared_memory_hashtable.CircularBuffer.Shape.{acquire-free}
use shared_memory_hashtable.CircularBuffer.Fifo.{IsValid}

module _ {ℓ} {T : Type ℓ} where
  get_elem?-none : (xs : List T) (i : ℕ) → length xs ≤ i → get_elem? xs i ≡ none
  get_elem?-none [] i h = refl
  get_elem?-none (x ∷ xs) zero h = absurd (omega arith)
  get_elem?-none (x ∷ xs) (suc i) h = get_elem?-none xs i (omega arith)

  -- no member function that locks the mutex returns
  pub record IsStuck (b : CircularBuffer T) : Type ℓ where
    pub push_back_waits : (x : T) → push_back b x ≡ fault blocked
    pub pop_waits : pop b ≡ fault blocked
    pub peek_waits : peek b ≡ fault blocked
    pub at_waits : (i : ℕ) → at b i ≡ fault blocked
    pub subscript_waits : (i : ℕ) → subscript b i ≡ fault blocked
    pub update_waits : (i : ℕ) (x : T) → i < b.capacity → update b i x ≡ fault blocked
    pub capacity_waits : capacity_of b ≡ fault blocked
    pub size_waits : size_of b ≡ fault blocked
    pub is_empty_waits : is_empty b ≡ fault blocked
    pub is_full_waits : is_full b ≡ fault blocked
    pub lock_waits : acquire b ≡ fault blocked
    pub print_waits :
        (numeral : ℕ → List ℕ) (shown : T → List ℕ) → print_buffer numeral shown b ≡ fault blocked

  held-IsStuck : (b : CircularBuffer T) → b.held ≡ true → IsStuck b
  unfolding push_back pop peek at subscript update capacity_of size_of is_full is_empty acquire
      print_buffer
  held-IsStuck b e = record {
    push_back_waits = λ x. rw e;
    pop_waits = rw e;
    peek_waits = rw e;
    at_waits = λ i. rw e;
    subscript_waits = λ i. rw e;
    update_waits = λ i x lt. let inside : leb b.capacity i ≡ false = ground arith in rw (inside, e);
    capacity_waits = rw e;
    size_waits = rw e;
    is_empty_waits = rw e;
    is_full_waits = rw e;
    lock_waits = rw e;
    print_waits = λ numeral shown. rw e;
  }

  -- On a valid buffer, at past the end throws while it holds the mutex: every later call of
  -- push_back, pop, peek, at, operator[], size, capacity, isEmpty, isFull, lock and printBuffer
  -- blocks, and every later call of update with an index below the capacity.
  pub at-past_end :
      {b : CircularBuffer T} (idx : ℕ)
      → IsValid b
      → b.capacity ≤ idx
      → Returns (at b idx) λ r. (r.0 ≡ none) × IsStuck r.1
  unfolding at
  at-past_end {b} idx valid h =
      let outside = get_elem?-none b.buffer idx (omega (arith, valid.shaped.allocated)) in
      (
        (none, record b { held = true }),
        rw (acquire-free b valid.free, ◌>>=◌, outside),
        (refl, held-IsStuck (record b { held = true }) refl),
      )

  -- On a valid buffer, update past the end throws and changes nothing. Else it replaces one slot,
  -- and no other, and leaves the head index and the size; the buffer stays valid.
  pub update_lem :
      (blank : T) {b : CircularBuffer T} (idx : ℕ) (elem : T)
      → IsValid b
      → Returns (update b idx elem) λ r.
        (r.0 ≡ not (leb b.capacity idx))
        × ((i : ℕ)
            → get_or r.1.buffer i blank
              ≡ (if r.0 && idx == i then elem else get_or b.buffer i blank))
        × IsValid r.1
        × (r.1.size ≡ b.size)
        × (r.1.head_idx ≡ b.head_idx)
  unfolding update
  update_lem blank {b} idx elem valid = elim (Bool-cases (leb b.capacity idx)) [
    | inl past ↦ ((false, b), rw past, (rw past, λ i. refl, valid, refl, refl))
    | inr inside ↦
        let s = valid.shaped in
        let lt : idx < length b.buffer = ground (arith, s.allocated) in
        (
          (true, record b { held = false; buffer = set b.buffer idx elem }),
          rw (
            inside,
            acquire-free b valid.free,
            ◌>>=◌,
            slot,
            get_elem?-get_or blank b.buffer idx lt,
          ),
          (
            rw inside,
            λ i. get_or-set b.buffer idx i elem blank lt,
            record {
              shaped = record {
                allocated = rw length-set s.allocated;
                wide = s.wide;
                small = s.small;
                head_in = s.head_in;
                size_in = s.size_in;
                tail_at = s.tail_at;
              };
              free = refl;
              full = valid.full;
              open_left = valid.open_left;
            },
            refl,
            refl,
          ),
        )
  ]
