-- ===== src/HashTable/Threads/Contents.antt =====
-- Which pairs a table holds in an interleaving of `get`, `insert` and `remove` (hashtable.h).
use shared_memory_hashtable.Common.{
  ℕ, ◌≤◌, ◌<◌, ◌≡◌, ◌∙◌, sym, subst, Bool, true, some, [], ◌∷◌, ◌++◌, arith, length, ok,
  ok-injective, total, ltb, Bool-cases, inl, inr,
}
use mathlib.Core.List.{
  Perm, Mem, mem-cons_self, mem-append_left, perm_append_singleton, perm_middle,
}
use mathlib.Core.List.Perm
use shared_memory_hashtable.HashTable.{HashTable, new_sized, get, resize}
use shared_memory_hashtable.HashTable.Keys.{Key}
use shared_memory_hashtable.HashTable.Chains.{find, erase}
use shared_memory_hashtable.HashTable.Buckets.{home, chain_of, max_capacity, max_size}
use shared_memory_hashtable.HashTable.Pairs.{
  flat, flat-set_more, flat-set_less, flat-replicate, erase-Perm,
}
use shared_memory_hashtable.HashTable.Threads.{
  look_bucket, look_up, list, gather, listed, calling, resizing, Call, delta, shares, System, Step,
  look, miss, call, enter, content, ask, settled, unsettled, rehash, push, lack, uncount, drop,
  Reach, start, later, init,
}
use shared_memory_hashtable.HashTable.Threads.Storing.{
  IsWide, rebucket, append-rebucket, discard-rebucket, get-find,
}
use shared_memory_hashtable.HashTable.Threads.Invariant.{Inv}
use shared_memory_hashtable.HashTable.Threads.Exclusive.{Fits, exclusive}
use shared_memory_hashtable.HashTable.Threads.Preserved.{Step-Fits, Reach-Inv}

module _ {ℓ} {K V : Type ℓ} ⦃key : Key K⦄ where
  -- Up to their order, the pairs in the table and those taken out are the pairs that were put in.
  abbrev pub IsAccounted : System K V → Type ℓ
  IsAccounted s = Perm (flat s.table.capacity s.table.storage ++ s.taken) s.put

  push-Perm :
      {t : HashTable K V} (k : K) (v : V)
      → IsWide t
      → Perm
          (flat t.capacity (rebucket t k (chain_of t k ++ (k, v) ∷ [])).storage)
          ((k, v) ∷ flat t.capacity t.storage)
  push-Perm {t} k v shape =
      flat-set_more t.capacity t.storage (home t k) (chain_of t k ++ (k, v) ∷ []) (k, v)
        (omega (arith, shape.wide)) shape.allocated (perm_append_singleton (k, v) (chain_of t k))

  -- A pair that is found is among all pairs, and `erase` leaves the others.
  found-Perm :
      {t : HashTable K V} (k : K) {v : V}
      → IsWide t
      → find k (chain_of t k) ≡ some v
      → Perm
          (flat t.capacity t.storage)
          ((k, v) ∷ flat t.capacity (rebucket t k (erase k (chain_of t k))).storage)
  found-Perm {t} k {v} shape there =
      flat-set_less t.capacity t.storage (home t k) (erase k (chain_of t k)) (k, v)
        (omega (arith, shape.wide)) shape.allocated (erase-Perm k (chain_of t k) there)

  push-IsAccounted :
      (s : System K V) {t' : HashTable K V} (k : K) (v : V)
      → IsWide s.table
      → rebucket s.table k (chain_of s.table k ++ (k, v) ∷ []) ≡ t'
      → IsAccounted s
      → Perm (flat t'.capacity t'.storage ++ s.taken) ((k, v) ∷ s.put)
  push-IsAccounted s k v shape made all =
      subst (λ (t : HashTable K V). Perm (flat t.capacity t.storage ++ s.taken) ((k, v) ∷ s.put))
        made (Perm.trans (Perm.append_right s.taken (push-Perm k v shape)) (Perm.cons (k, v) all))

  drop-IsAccounted :
      (s : System K V) {t' : HashTable K V} (k : K) {v : V}
      → IsWide s.table
      → find k (chain_of s.table k) ≡ some v
      → rebucket s.table k (erase k (chain_of s.table k)) ≡ t'
      → IsAccounted s
      → Perm (flat t'.capacity t'.storage ++ (k, v) ∷ s.taken) s.put
  drop-IsAccounted s k {v} shape there made all =
      let left = rebucket s.table k (erase k (chain_of s.table k)) in
      subst (λ (t : HashTable K V). Perm (flat t.capacity t.storage ++ (k, v) ∷ s.taken) s.put) made
        (Perm.trans (perm_middle (flat left.capacity left.storage) s.taken)
          (Perm.trans (Perm.symm (Perm.append_right s.taken (found-Perm k shape there))) all))

  rehash-IsAccounted :
      {n : ℕ} {dynamic : Bool} {s : System K V} {t' : HashTable K V} (i : ℕ) (op : Call K V)
      → Inv n dynamic s
      → Fits dynamic s
      → i < n
      → s.pc i ≡ calling resizing op
      → total shares n s.pc ≡ 0
      → resize s.table (delta op) ≡ ok t'
      → IsAccounted s
      → Perm (flat t'.capacity t'.storage ++ s.taken) s.put
  rehash-IsAccounted {s = s} i op inv fits lt e free run all =
      let (exact, (t₁, run₁, h)) = exclusive i op inv fits lt e free in
      subst (λ (t : HashTable K V). Perm (flat t.capacity t.storage ++ s.taken) s.put)
        (ok-injective (sym run₁ ∙ run)) (Perm.trans (Perm.append_right s.taken h.pairs) all)

  Step-IsAccounted :
      {n : ℕ} {dynamic : Bool} {s t : System K V}
      → Step n s t
      → Fits dynamic s
      → Inv n dynamic s
      → IsAccounted s
      → IsAccounted t
  Step-IsAccounted (look i k lt e free run) fits inv all = all
  Step-IsAccounted (look_bucket i b lt e free run) fits inv all = all
  Step-IsAccounted (look_up i k lt e free run) fits inv all = all
  Step-IsAccounted (list i lt e) fits inv all = all
  Step-IsAccounted (gather i lt e inside free run) fits inv all = all
  Step-IsAccounted (listed i lt e end) fits inv all = all
  Step-IsAccounted (miss i k v lt e free run) fits inv all = all
  Step-IsAccounted (call i k lt e) fits inv all = all
  Step-IsAccounted (enter i lt e) fits inv all = all
  Step-IsAccounted (content i lt e none_in) fits inv all = all
  Step-IsAccounted (ask i lt e some_in) fits inv all = all
  Step-IsAccounted (settled i lt e fine) fits inv all = all
  Step-IsAccounted (unsettled i lt e wrong) fits inv all = all
  Step-IsAccounted (rehash i {op} lt e free run) fits inv all =
      rehash-IsAccounted i op inv fits lt e free run all
  Step-IsAccounted {s = s} (push i {k} {v} lt e free run) fits inv all =
      push-IsAccounted s k v inv.shape (ok-injective (sym (append-rebucket inv.shape k v) ∙ run))
        all
  Step-IsAccounted (Step.count i lt e) fits inv all = all
  Step-IsAccounted (lack i lt e free run) fits inv all = all
  Step-IsAccounted (uncount i lt e free run) fits inv all = all
  Step-IsAccounted {s = s} (drop i {k} lt e run) fits inv all =
      drop-IsAccounted s k inv.shape (inv.found i lt e)
        (ok-injective (sym (discard-rebucket inv.shape k) ∙ run)) all

  flat-new :
      (c : ℕ) (dynamic : Bool)
      → let t : HashTable K V = new_sized c dynamic in flat t.capacity t.storage ≡ []
  unfolding new_sized
  flat-new c dynamic = elim (Bool-cases (ltb c 4)) [
    | inl few ↦ rw few (flat-replicate c 4)
    | inr enough ↦ rw enough (flat-replicate c c)
  ]

  Reach-IsAccounted :
      {n c : ℕ} {dynamic : Bool} {s : System K V}
      → 1 ≤ c
      → c ≤ max_capacity
      → Reach n c dynamic s
      → Fits dynamic s
      → IsAccounted s
  unfolding init
  Reach-IsAccounted {c = c} {dynamic = dynamic} lo hi start fits =
      rw (flat-new c dynamic) (Perm.refl [])
  Reach-IsAccounted lo hi (later r st) fits =
      let before = Step-Fits st fits in
      Step-IsAccounted st before (Reach-Inv lo hi r before) (Reach-IsAccounted lo hi r before)

  -- Whatever the threads do on a new table of 1 to 2 ^ 50 buckets, resizable or not, with at most
  -- 2 ^ 48 insertions if it is resizable: the pairs in its buckets and those that were removed are, up
  -- to their order, the pairs that were inserted; and a `get` that finds its key returns a value that
  -- was inserted under this key.
  pub interleaved_contents :
      {n c : ℕ} {dynamic : Bool} {s : System K V}
      → 1 ≤ c
      → c ≤ max_capacity
      → Reach n c dynamic s
      → (dynamic ≡ true → length s.put ≤ max_size)
      → Perm (flat s.table.capacity s.table.storage ++ s.taken) s.put
        × ((k : K) (v : V) → get s.table k ≡ ok (some v) → Mem (k, v) s.put)
  interleaved_contents {s = s} lo hi r fits =
      let inv = Reach-Inv lo hi r fits in
      let all = Reach-IsAccounted lo hi r fits in
      (
        all,
        λ k v run.
            let there : find k (chain_of s.table k) ≡ some v =
              ok-injective (sym (get-find inv.shape k) ∙ run) in
            let inside : Mem (k, v) (flat s.table.capacity s.table.storage) =
              (Perm.mem_iff (found-Perm k inv.shape there)).1 mem-cons_self in
            (Perm.mem_iff all).0 (mem-append_left s.taken inside),
      )
