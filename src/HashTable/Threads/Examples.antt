-- ===== src/HashTable/Threads/Examples.antt =====
-- The theorems on interleaved calls: two threads that insert the key 1 into a table of 8 buckets, one
-- that makes a resizable table of three buckets grow, and one that lists that table.
use shared_memory_hashtable.Common.{
  ℕ, ◌+◌, ◌≤◌, ◌<◌, ◌≡◌, ◌≢◌, refl, true, false, some, [], ◌∷◌, ◌++◌, arith, length, total, Returns,
  get_or, size_mod, ok,
}
use mathlib.Core.List.{Perm, Mem}
use shared_memory_hashtable.HashTable.Pairs.{flat}
use shared_memory_hashtable.HashTable.{
  remove, new_sized, get, hash, at, load_verdict, load_factor, needs_resize, resize, rebuild,
  collect_pairs, insert_all, insert_unsafe,
}
use shared_memory_hashtable.HashTable.Chains.{Chain, count, find}
use shared_memory_hashtable.HashTable.Buckets.{chain_of, view, home, max_size}
use shared_memory_hashtable.HashTable.Examples.{int_key}
use shared_memory_hashtable.HashTable.Threads.{
  Pc, gathering, list, gather, System, Step, miss, enter, content, ask, settled, unsettled, rehash,
  push, Reach, start, later, init, append,
}
use shared_memory_hashtable.HashTable.Threads.Holding.{busy}
use shared_memory_hashtable.HashTable.Threads.Preserved.{interleaved_count}
use shared_memory_hashtable.HashTable.Threads.Contents.{interleaved_contents}
use shared_memory_hashtable.HashTable.Threads.Once.{Along, Alternating}
use shared_memory_hashtable.HashTable.Threads.Atomic.{Plays, calls_are_atomic}
use shared_memory_hashtable.HashTable.Threads.Gathering.{Steps, done, more}
use shared_memory_hashtable.HashTable.Threads.Listings.{interleaved_listing}
use shared_memory_hashtable.HashTable.Threads.Progress.{Moves, no_deadlock}
use shared_memory_hashtable.HashTable.Threads.Solo.{adds}
use shared_memory_hashtable.HashTable.Threads.Completion.{lists, calls_end}
use shared_memory_hashtable.HashTable.Threads.Going.{Goes}
use shared_memory_hashtable.HashTable.Threads.Race.{duplicate_insert}

-- what the runs below compute with
stepping : ℕ
unfolding init new_sized total get hash at find append load_verdict load_factor needs_resize resize
    rebuild collect_pairs insert_all insert_unsafe
stepping = 0

-- A resizable table of three buckets: thread 0 has inserted the key 1, and is about to grow the table
-- for the key 5.
abbrev about_to_grow : (s : System ℕ ℕ) × Reach 2 3 true s
unfolding stepping
about_to_grow = (
  _,
  later
      (later
        (later
          (later
            (later
              (later
                (later
                  (later (later start (miss 0 1 10 (omega arith) refl refl refl))
                    (enter 0 (omega arith) refl))
                  (content 0 (omega arith) refl refl))
                (push 0 (omega arith) refl refl refl))
              (Step.count 0 (omega arith) refl))
            (miss 0 5 50 (omega arith) refl refl refl))
          (enter 0 (omega arith) refl))
        (ask 0 (omega arith) refl (omega arith)))
      (unsettled 0 (omega arith) refl (omega arith)),
)

-- The table has grown to six buckets, and both keys are in it.
abbrev grown_table : (s : System ℕ ℕ) × Reach 2 3 true s
unfolding stepping
grown_table = (
  _,
  later
      (later
        (later
          (later
            (later (later about_to_grow.1 (rehash 0 (omega arith) refl refl refl))
              (enter 0 (omega arith) refl))
            (ask 0 (omega arith) refl (omega arith)))
          (settled 0 (omega arith) refl refl))
        (push 0 (omega arith) refl refl refl))
      (Step.count 0 (omega arith) refl),
)

one_put : length about_to_grow.0.put ≤ max_size
unfolding stepping
one_put = omega arith

inside : about_to_grow.0.pc 0 ≢ Pc.idle
unfolding stepping
inside h = cc

few_put : length grown_table.0.put ≤ max_size
unfolding stepping
few_put = omega arith

two_put : length grown_table.0.put < size_mod
unfolding stepping
two_put = omega arith

grown_storage :
    grown_table.0.table.storage ≡ [] ∷ ((1, 10) ∷ []) ∷ [] ∷ [] ∷ [] ∷ ((5, 50) ∷ []) ∷ []
unfolding stepping
grown_storage = refl

interleaved_count_example :
    ((q : ℕ)
      → count q (chain_of grown_table.0.table q) + count q grown_table.0.taken
        ≡ count q grown_table.0.put)
    × ((q : ℕ) (i : ℕ)
        → i ≢ home grown_table.0.table q
        → count q (get_or grown_table.0.table.storage i []) ≡ 0)
    × (grown_table.0.table.size
          + total (busy {V = ℕ}) 2 grown_table.0.pc
          + length grown_table.0.taken
        ≡ length grown_table.0.put)
interleaved_count_example =
    interleaved_count (omega arith) (omega arith) grown_table.1 two_put (λ _. few_put)

interleaved_contents_example :
    Perm
      (flat grown_table.0.table.capacity grown_table.0.table.storage ++ grown_table.0.taken)
      grown_table.0.put
    × ((k v : ℕ) → get grown_table.0.table k ≡ ok (some v) → Mem (k, v) grown_table.0.put)
interleaved_contents_example =
    interleaved_contents (omega arith) (omega arith) grown_table.1 (λ _. few_put)

duplicate_insert_example :
    (s : System ℕ ℕ) × Reach 2 8 false s
    × ((i : ℕ) → s.pc i ≡ Pc.idle)
    × (count 1 (chain_of s.table 1) ≡ 2)
    × Returns (remove s.table 1) (λ r. (r.0 ≡ some 10) × (view r.1 1 ≡ some 20))
duplicate_insert_example = duplicate_insert 2 8 1 10 20 (omega arith) (omega arith) (omega arith)

goes_on : (j : ℕ) × Moves {K = ℕ} {V = ℕ} 2 about_to_grow.0 j
goes_on =
    no_deadlock 0 (omega arith) (omega arith) about_to_grow.1 (λ _. one_put) (omega arith) inside

-- Thread 1 lists the table with the keys 1 and 5; thread 0 inserts the key 8 into a bucket that is listed
-- already.
abbrev listing : (t : System ℕ ℕ) × Steps 2 grown_table.0 t
unfolding stepping
listing = (
  _,
  more
      (more
        (more
          (more
            (more
              (more
                (more
                  (more
                    (more
                      (more
                        (more
                          (more (more done (list 1 (omega arith) refl))
                            (gather 1 (omega arith) refl (omega arith) refl refl))
                          (gather 1 (omega arith) refl (omega arith) refl refl))
                        (gather 1 (omega arith) refl (omega arith) refl refl))
                      (miss 0 8 80 (omega arith) refl refl refl))
                    (enter 0 (omega arith) refl))
                  (ask 0 (omega arith) refl (omega arith)))
                (settled 0 (omega arith) refl refl))
              (push 0 (omega arith) refl refl refl))
            (Step.count 0 (omega arith) refl))
          (gather 1 (omega arith) refl (omega arith) refl refl))
        (gather 1 (omega arith) refl (omega arith) refl refl))
      (gather 1 (omega arith) refl (omega arith) refl refl),
)

abbrev pairs_listed : Chain ℕ ℕ
pairs_listed = (1, 10) ∷ (5, 50) ∷ []

at_the_end : listing.0.pc 1 ≡ gathering 6 pairs_listed
unfolding stepping
at_the_end = refl

thread_1_idle : grown_table.0.pc 1 ≡ Pc.idle
unfolding stepping
thread_1_idle = refl

three_put : length listing.0.put ≤ max_size
unfolding stepping
three_put = omega arith

all_read : listing.0.table.capacity ≤ 6
unfolding stepping
all_read = omega arith

interleaved_listing_example :
    (count 5 listing.0.taken ≡ count 5 grown_table.0.taken
      → count 5 (chain_of grown_table.0.table 5) ≤ count 5 pairs_listed)
    × (count 5 pairs_listed ≤ count 5 listing.0.put)
interleaved_listing_example =
    interleaved_listing 1 (omega arith) (omega arith) grown_table.1 (omega arith) thread_1_idle
      listing.1 (λ _. three_put) at_the_end all_read 5

-- Thread 1 has been idle throughout.
growing-Along : Along (Alternating 2) about_to_grow.1
unfolding stepping Along
growing-Along = (
  (λ q. ground arith),
  (
    (λ q. ground arith),
    (
      (λ q. ground arith),
      (
        (λ q. ground arith),
        (
          (λ q. ground arith),
          (
            (λ q. ground arith),
            (
              (λ q. ground arith),
              ((λ q. ground arith), ((λ q. ground arith), (λ q. ground arith))),
            ),
          ),
        ),
      ),
    ),
  ),
)

grown-Along : Along (Alternating 2) grown_table.1
unfolding stepping Along
grown-Along = (
  (λ q. ground arith),
  (
    (λ q. ground arith),
    (
      (λ q. ground arith),
      ((λ q. ground arith), ((λ q. ground arith), ((λ q. ground arith), growing-Along))),
    ),
  ),
)

calls_are_atomic_example : Plays grown_table.1
calls_are_atomic_example =
    calls_are_atomic (omega arith) (omega arith) grown_table.1 (λ _. few_put) grown-Along

grow_room : length about_to_grow.0.put + total adds 2 about_to_grow.0.pc ≤ max_size
unfolding stepping
grow_room = omega arith

none_listing : total lists 2 about_to_grow.0.pc ≡ 0
unfolding stepping
none_listing = refl

calls_end_example :
    (t : System ℕ ℕ) × Goes 2 about_to_grow.0 t × ((i : ℕ) → i < 2 → t.pc i ≡ Pc.idle)
calls_end_example =
    calls_end (omega arith) (omega arith) about_to_grow.1 none_listing (λ _. grow_room)
