-- ===== src/HashTable/Threads/Race.antt =====
-- Two calls of `insert` for one key at the same time (hashtable.h, `insert`).
use shared_memory_hashtable.Common.{
  ℕ, ◌≤◌, ◌≡◌, refl, ◌∙◌, ap, true, false, none, some, [], ◌∷◌, ◌++◌, arith, ◌==◌, ok, negsuc,
  Returns, ◌>>=◌, update, inl, inr, Bool-cases,
}
use shared_memory_hashtable.HashTable.{HashTable, new_sized, get, remove, remove_found, make_room}
use shared_memory_hashtable.HashTable.Keys.{Key, equal_refl}
use shared_memory_hashtable.HashTable.Chains.{Chain, find, erase, count}
use shared_memory_hashtable.HashTable.Buckets.{home, chain_of, max_capacity, view}
use shared_memory_hashtable.HashTable.Threads.{
  Pc, calling, entering, working, put_call, System, miss, Reach, start, later, holds, init,
}
use shared_memory_hashtable.HashTable.Threads.Storing.{
  IsWide, get-find, chain-rebucket, hash-home, at-chain,
}
use shared_memory_hashtable.HashTable.Threads.Preserved.{Reach-Inv}
use shared_memory_hashtable.HashTable.Threads.Inserting.{
  total-calm, update-calm, update-twice, chain-new, chain-appended, appended-IsWide, inserted,
  insert_end,
}

module _ {ℓ} {K V : Type ℓ} ⦃key : Key K⦄ where
  -- both threads behind their lookups
  abbrev pub both_absent : ℕ → K → V → V → System K V
  both_absent c k v w = record (init c false) {
    pc =
        update (update (λ _. Pc.idle) 0 (calling entering (put_call k v))) 1
          (calling entering (put_call k w));
  }

  calm-both :
      (t : HashTable K V) (b : ℕ) (k : K) (v w : V) (i : ℕ)
      → holds t b (
          update
            (update (λ _. Pc.idle) 0 (calling entering (put_call k v)))
            1
            (calling entering (put_call k w))
            i)
        ≡ 0
  calm-both t b k v w =
      update-calm (holds t b) (update (λ _. Pc.idle) 0 (calling entering (put_call k v))) 1
        (calling entering (put_call k w))
        (update-calm (holds t b) (λ _. Pc.idle) 0 (calling entering (put_call k v)) (λ i. refl)
          refl)
        refl

  pub both_absent-Reach :
      {n : ℕ} (c : ℕ) (k : K) (v w : V)
      → 2 ≤ n
      → 1 ≤ c
      → c ≤ max_capacity
      → Reach n c false (both_absent c k v w)
  unfolding init find
  both_absent-Reach {n} c k v w two lo hi =
      let t : HashTable K V = new_sized c false in
      let inv = Reach-Inv {n = n} lo hi start (λ d. cc) in
      let unbound : get t k ≡ ok none = get-find inv.shape k ∙ rw (chain-new c k) in
      let b = home t k in
      later
        (later start (
          miss 0 k v (omega arith) refl (total-calm (holds t b) n (λ _. Pc.idle) (λ i. refl))
            unbound))
        (miss 1 k w (omega arith) refl
          (total-calm (holds t b) n (update (λ _. Pc.idle) 0 (calling entering (put_call k v))) (
            update-calm (holds t b) (λ _. Pc.idle) 0 (calling entering (put_call k v)) (λ i. refl)
              refl))
          unbound)

  -- the state when both calls have returned
  abbrev pub both_inserted : ℕ → K → V → V → System K V
  both_inserted c k v w = inserted (inserted (both_absent c k v w) 0 k v) 1 k w

  pub both_inserted-Reach :
      {n : ℕ} (c : ℕ) (k : K) (v w : V)
      → 2 ≤ n
      → 1 ≤ c
      → c ≤ max_capacity
      → Reach n c false (both_inserted c k v w)
  unfolding init
  both_inserted-Reach {n} c k v w two lo hi =
      let first = both_absent-Reach c k v w two lo hi in
      let before = both_absent c k v w in
      let s = inserted before 0 k v in
      let one =
        insert_end 0 k v lo hi first (omega arith) refl (calm-both (new_sized c false) _ k v w) in
      let work = calling working (put_call k v) in
      insert_end 1 k w lo hi one (omega arith) refl (λ i.
        ap (holds s.table (home s.table k))
          (update-twice (update before.pc 0 work) 0 (Pc.pushed k) Pc.idle i)
        ∙ update-calm (holds s.table (home s.table k)) (update before.pc 0 work) 0 Pc.idle
            (update-calm (holds s.table (home s.table k)) before.pc 0 work
              (calm-both s.table (home s.table k) k v w) refl)
            refl i)

  both_inserted-idle : (c : ℕ) (k : K) (v w : V) (i : ℕ) → (both_inserted c k v w).pc i ≡ Pc.idle
  unfolding init
  both_inserted-idle c k v w i = elim (Bool-cases (1 == i)) [
    | inl one ↦ rw one
    | inr other ↦ elim (Bool-cases (0 == i)) [
      | inl first ↦ rw (other, first)
      | inr more ↦ rw (other, more)
    ]
  ]

  both_inserted-chain :
      (c : ℕ) (k : K) (v w : V)
      → 1 ≤ c
      → c ≤ max_capacity
      → chain_of (both_inserted c k v w).table k ≡ (k, v) ∷ (k, w) ∷ []
  unfolding init
  both_inserted-chain c k v w lo hi =
      let first = both_absent-Reach {n = 2} c k v w (omega arith) lo hi in
      let shape = (Reach-Inv lo hi first (λ d. cc)).shape in
      let t : HashTable K V = new_sized c false in
      chain-appended k w (appended-IsWide k v shape)
      ∙ ap (λ es. es ++ (k, w) ∷ []) (chain-appended k v shape)
      ∙ ap (λ es. (es ++ (k, v) ∷ []) ++ (k, w) ∷ []) (chain-new c k)

  remove-fixed :
      {t : HashTable K V} (k : K)
      → IsWide t
      → t.resizable ≡ false
      → remove t k ≡ ok (remove_found t (home t k) (chain_of t k) k (find k (chain_of t k)))
  unfolding remove make_room
  remove-fixed {t} k shape fixed =
      let room : make_room t (negsuc 0) ≡ ok t = rw fixed in
      rw (room, ◌>>=◌, hash-home shape k, ◌>>=◌, at-chain shape k)

  -- a removal of a key that its bucket has twice, from a table that is not resizable
  remove-twice :
      {t : HashTable K V} (k : K) {v w : V}
      → IsWide t
      → t.resizable ≡ false
      → chain_of t k ≡ (k, v) ∷ (k, w) ∷ []
      → Returns (remove t k) λ r. (r.0 ≡ some v) × (view r.1 k ≡ some w)
  unfolding remove make_room remove_found view erase find
  remove-twice {t} k {v} {w} shape fixed chain =
      let same : (home t k == home t k) ≡ true = ground arith in
      let es : Chain K V = (k, v) ∷ (k, w) ∷ [] in
      let first : find k es ≡ some v = rw (equal_refl k) in
      let left : erase k es ≡ (k, w) ∷ [] = rw (equal_refl k) in
      (
        remove_found t (home t k) es k (some v),
        remove-fixed k shape fixed
            ∙ ap (λ c. ok (remove_found t (home t k) c k (find k c))) chain
            ∙ ap (λ o. ok (remove_found t (home t k) es k o)) first,
        (
          refl,
          ap (find k) (chain-rebucket shape k (erase k es) (home t k))
              ∙ rw (same, left, equal_refl k),
        ),
      )

  -- With two threads or more and a new table of 1 to 2 ^ 50 buckets that is not resizable, whatever
  -- the key and the two values: there is a reachable state in which all threads are idle and the bucket
  -- of the key has it twice; a `remove` of the key then returns the first value and leaves the key bound
  -- to the second.
  pub duplicate_insert :
      (n c : ℕ) (k : K) (v w : V)
      → 2 ≤ n
      → 1 ≤ c
      → c ≤ max_capacity
      → (s : System K V) × Reach n c false s
        × ((i : ℕ) → s.pc i ≡ Pc.idle)
        × (count k (chain_of s.table k) ≡ 2)
        × Returns (remove s.table k) (λ r. (r.0 ≡ some v) × (view r.1 k ≡ some w))
  unfolding count init new_sized
  duplicate_insert n c k v w two lo hi =
      let s = both_inserted c k v w in
      let chain = both_inserted-chain c k v w lo hi in
      let reach = both_inserted-Reach c k v w two lo hi in
      let shape = (Reach-Inv lo hi reach (λ d. cc)).shape in
      (
        s,
        reach,
        both_inserted-idle c k v w,
        rw (chain, equal_refl k),
        remove-twice k shape refl chain,
      )
