-- ===== src/Server/Main/Startup.antt =====
-- The start of the server (server.cpp, `main`), with its failures up to the making of the mailbox.
use shared_memory_hashtable.Common.{
  ℕ, ◌+◌, ◌*◌, ◌/◌, ◌≤◌, ◌≢◌, ◌≡◌, ◌⊎◌, refl, sym, Bool, false, Bool-cases, inl, inr, some,
  Option-cases, List, [], ◌∷◌, ◌==◌, arith, pos, negsuc, Returns,
}
use shared_memory_hashtable.Message.{Bytes}
use shared_memory_hashtable.HashTable.{HashTable, new_default, new_sized}
use shared_memory_hashtable.HashTable.Keys.{Key}
use shared_memory_hashtable.HashTable.Buckets.{max_capacity}
use shared_memory_hashtable.HashTable.Policy.{IsEmpty, new_default-IsEmpty, new_sized-IsEmpty}
use shared_memory_hashtable.Mailbox.Construction.{BufferSucceeds, Succeeds, Made, new_mailbox-Made}
use shared_memory_hashtable.Server.Main.{
  slots, Host, shm_name, make_table, map_size, num_pages, Start, ended, aborted, started, place,
  open_mailbox, start,
}

cover : (a p : ℕ) → 1 ≤ p → (a ≤ (a / p + 1) * p) × ((a / p + 1) * p ≤ a + p)
cover a p some_byte = grind arith

-- The pages are enough for what is mapped, and none is left over but the last.
pages-enough :
    (h : Host)
    → 1 ≤ h.page_size
    → (map_size h ≤ num_pages h * h.page_size)
      × (num_pages h * h.page_size ≤ map_size h + h.page_size)
unfolding num_pages
pages-enough h some_byte = cover (map_size h) h.page_size some_byte

module _ ⦃key : Key Bytes⦄ where
  -- the table of a server that was started with the number `n`
  pub record TableFor (n : ℕ) (t : HashTable Bytes Bytes) : Type 0 where
    pub empty : IsEmpty t
    pub resizable : t.resizable ≡ (n == 0)
    pub capacity : (n ≡ 0) ⊎ (t.capacity ≡ n)

  make_table-TableFor : (n : ℕ) → n ≤ max_capacity → TableFor n (make_table n)
  unfolding make_table
  make_table-TableFor n small = elim (Bool-cases (n == 0)) [
    | inl none_given ↦ rw none_given (record {
      empty = new_default-IsEmpty;
      resizable = unfold new_default in sym none_given;
      capacity = inl (ground arith);
    })
    | inr given ↦
        let (empty, wide) = new_sized-IsEmpty n false (ground arith) small in
        rw given
          (record { empty = empty; resizable = unfold new_sized in sym given; capacity = inr wide })
  ]

  module _ (h : Host) where
    -- what a start comes to
    pub Fate : Bool → List Bytes → Start → Type 0
    Fate before argv (ended status linked) =
        (status ≢ pos 0) × ((linked ≡ false) ⊎ (linked ≡ before))
    Fate before argv (aborted linked) =
        (linked ≡ before)
        × (number : Bytes) × (n : ℕ) × (h.stoul number ≡ some n)
        × (h.alloc n ≡ false)
    Fate before argv (started mb t size) =
        (name : Bytes) × (number : Bytes) × (n : ℕ) × (argv ≡ name ∷ number ∷ [])
        × (h.stoul number ≡ some n)
        × Made slots mb
        × TableFor n t
        × (map_size h ≤ size)
        × (size ≤ map_size h + h.page_size)

    one-ne-zero : pos 1 ≢ pos 0
    one-ne-zero e = cc

    open_mailbox-Fate :
        (before : Bool) (name number : Bytes) (n : ℕ)
        → h.stoul number ≡ some n
        → 1 ≤ h.page_size
        → BufferSucceeds h.buffer_codes
        → Succeeds h.codes
        → n ≤ max_capacity
        → Returns (open_mailbox h before n) (Fate before (name ∷ number ∷ []))
    unfolding open_mailbox place Fate
    open_mailbox-Fate before name number n parsed page made_buffer good small =
        let (mb, run, made) =
          new_mailbox-Made slots h.buffer_codes h.codes (omega arith) (omega arith) made_buffer
            good in
        let (enough, tight) = pages-enough h page in
        elim (Bool-cases (h.shm_open shm_name)) [
          | inr shut ↦ (ended (pos 1) before, rw shut, (one-ne-zero, inr refl))
          | inl opened ↦ elim (Bool-cases (h.ftruncate shm_name (num_pages h * h.page_size))) [
            | inr short ↦ (ended (pos 1) false, rw (opened, short), (one-ne-zero, inl refl))
            | inl sized ↦ elim (Bool-cases (h.mmap shm_name (map_size h))) [
              | inr unmapped ↦
                  (ended (pos 1) false, rw (opened, sized, unmapped), (one-ne-zero, inl refl))
              | inl mapped ↦ (
                started mb (make_table n) (num_pages h * h.page_size),
                rw (opened, sized, mapped, run),
                (name, number, n, refl, parsed, made, make_table-TableFor n small, enough, tight),
              )
            ]
          ]
        ]

    pub start-Fate :
        (before : Bool) (argv : List Bytes)
        → 1 ≤ h.page_size
        → BufferSucceeds h.buffer_codes
        → Succeeds h.codes
        → ((number : Bytes) (n : ℕ) → h.stoul number ≡ some n → n ≤ max_capacity)
        → Returns (start h before argv) (Fate before argv)
    unfolding start Fate
    start-Fate before [] page made_buffer good small =
        (ended (pos 1) before, refl, (one-ne-zero, inr refl))
    start-Fate before (name ∷ []) page made_buffer good small =
        (ended (pos 1) before, refl, (one-ne-zero, inr refl))
    start-Fate before (name ∷ number ∷ more ∷ rest) page made_buffer good small =
        (ended (pos 1) before, refl, (one-ne-zero, inr refl))
    start-Fate before (name ∷ number ∷ []) page made_buffer good small =
        elim (Option-cases (h.stoul number)) [
          | inl thrown ↦ (ended (negsuc 0) before, rw (thrown, start), ((λ e. cc), inr refl))
          | inr (n, parsed) ↦ elim (Bool-cases (h.alloc n)) [
            | inr refused ↦
                (aborted before, rw (parsed, refused, start), (refl, number, n, parsed, refused))
            | inl allocated ↦
                let (s, run, fate) =
                  open_mailbox-Fate before name number n parsed page made_buffer good
                    (small number n parsed) in
                (s, rw (parsed, allocated, start) run, fate)
          ]
        ]
