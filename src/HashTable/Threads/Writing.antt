-- ===== src/HashTable/Threads/Writing.antt =====
-- What `push_back` of an `insert` and `erase` of a `remove` (hashtable.h) do to the invariant of
-- interleaved calls.
use shared_memory_hashtable.Common.{
  ℕ, suc, ◌+◌, ◌≤◌, ◌<◌, ◌≡◌, refl, Bool, ◌∙◌, ap, false, List, [], ◌∷◌, ◌++◌, arith, length,
  length-append, get_or, if◌then◌else◌, ◌==◌, update, inl, inr, total, Bool-cases, subst,
}
use shared_memory_hashtable.HashTable.{HashTable}
use shared_memory_hashtable.HashTable.Keys.{Key}
use shared_memory_hashtable.HashTable.Chains.{Chain, erase, count, count-append, length-erase}
use shared_memory_hashtable.HashTable.Buckets.{home, chain_of}
use shared_memory_hashtable.HashTable.Threads.{
  Pc, calling, working, put_call, System, holds, Unlocked,
}
use shared_memory_hashtable.HashTable.Threads.Storing.{
  rebucket, count-erase, pushed-IsHome, erased-IsHome,
}
use shared_memory_hashtable.HashTable.Threads.Invariant.{
  Inv, Unlocked-Alone, held-Alone, Rebucketed,
}

pub same_bucket {ℓ} :
    {A : Type ℓ} (bs : List (List A)) (a b : ℕ)
    → (if a == b then get_or bs a [] else get_or bs b []) ≡ get_or bs b []
same_bucket bs a b = elim (Bool-cases (a == b)) [
  | inl same ↦ let e : a ≡ b = ground arith in rw e (ground arith)
  | inr other ↦ rw other
]

module _ {ℓ} {K V : Type ℓ} ⦃key : Key K⦄ where
  -- Taking the lock of an unheld bucket that is going to hold `c`, which is not empty.
  pub taking :
      {n : ℕ} {dynamic : Bool} {s : System K V} (k : K) (c : Chain K V)
      → Inv n dynamic s
      → Unlocked n s k
      → 1 ≤ length c
      → (b : ℕ)
      → (total (holds s.table b) n s.pc + (if home s.table k == b then 1 else 0) ≤ 1 + 0)
        × (total (holds s.table b) n s.pc + (if home s.table k == b then 1 else 0)
            ≤ length (if home s.table k == b then c else get_or s.table.storage b []) + 0)
  taking {n} {s = s} k c inv free filled b = elim (Bool-cases (home s.table k == b)) [
    | inl same ↦
        let e : home s.table k ≡ b = ground arith in
        let none_held : total (holds s.table b) n s.pc ≡ 0 =
          subst (λ x. total (holds s.table x) n s.pc ≡ 0) e free in
        rw same (omega arith, omega arith)
    | inr other ↦ rw other (omega (arith, inv.locked b), omega (arith, inv.backed b))
  ]

  -- Giving up the lock of a bucket that holds one entry less.
  pub giving :
      {n : ℕ} {dynamic : Bool} {s : System K V} (k : K) (c : Chain K V)
      → Inv n dynamic s
      → suc (length c) ≡ length (chain_of s.table k)
      → (b : ℕ)
      → (total (holds s.table b) n s.pc + 0 ≤ 1 + (if home s.table k == b then 1 else 0))
        × (total (holds s.table b) n s.pc + 0
            ≤ length (if home s.table k == b then c else get_or s.table.storage b [])
              + (if home s.table k == b then 1 else 0))
  giving {s = s} k c inv shorter b = elim (Bool-cases (home s.table k == b)) [
    | inl same ↦ rw same (omega (arith, inv.locked b), omega (arith, inv.locked b))
    | inr other ↦ rw other (omega (arith, inv.locked b), omega (arith, inv.backed b))
  ]

  -- how often a key occurs in its bucket, when the bucket of `k` is written
  pub recount :
      (t : HashTable K V) (k : K) (c : Chain K V) (q : K) (x y : ℕ)
      → count q c + y ≡ count q (chain_of t k) + x
      → x + y ≤ (if key.equal k q then 1 else 0)
      → count q (if home t k == home t q then c else chain_of t q) + y ≡ count q (chain_of t q) + x
  recount t k c q x y here other_key = elim (Bool-cases (home t k == home t q)) [
    | inl same ↦
        let e : home t k ≡ home t q = ground arith in
        rw same (here ∙ ap (λ b. count q (get_or t.storage b []) + x) e)
    | inr other ↦
        let ne : key.equal k q ≡ false = ground (arith, key.equal_iff k q) in
        let none_of_it = rw ne at other_key in rw other (omega (arith, none_of_it))
  ]

  pub push-Inv :
      {n : ℕ} {dynamic : Bool} {s : System K V} (i : ℕ) (k : K) (v : V)
      → Inv n dynamic s
      → i < n
      → s.pc i ≡ calling working (put_call k v)
      → Unlocked n s k
      → Inv n dynamic (record s {
        table = rebucket s.table k (chain_of s.table k ++ (k, v) ∷ []);
        pc = update s.pc i (Pc.pushed k);
        put = (k, v) ∷ s.put;
      })
  unfolding count
  push-Inv {n} {s = s} i k v inv lt e free =
      let c = chain_of s.table k ++ (k, v) ∷ [] in
      let longer : length c ≡ length (chain_of s.table k) + 1 = rw length-append in
      Rebucketed i (Pc.pushed k) k c ((k, v) ∷ s.put) s.taken inv lt e (Unlocked-Alone n s i k free)
        (taking k c inv free (omega arith)) (λ q w h. cc)
        (λ q.
          let more : count q c ≡ count q (chain_of s.table k) + (if key.equal k q then 1 else 0) =
            rw count-append (omega arith) in
          let done =
            recount s.table k c q (if key.equal k q then 1 else 0) 0 (omega (arith, more))
              (omega arith) in
          omega (arith, done, inv.kept q))
        (omega (arith, inv.logged)) (λ few. omega (arith, inv.sized (omega arith)))
        (pushed-IsHome inv.shape k v inv.placed) refl

  pub drop-Inv :
      {n : ℕ} {dynamic : Bool} {s : System K V} (i : ℕ) (k : K) (v : V)
      → Inv n dynamic s
      → i < n
      → s.pc i ≡ Pc.uncounted k v
      → Inv n dynamic (record s {
        table = rebucket s.table k (erase k (chain_of s.table k));
        pc = update s.pc i Pc.idle;
        taken = (k, v) ∷ s.taken;
      })
  unfolding count
  drop-Inv {n} {s = s} i k v inv lt e =
      let c = erase k (chain_of s.table k) in
      let there = inv.found i lt e in
      let shorter = length-erase k (chain_of s.table k) there in
      let mine : holds s.table (home s.table k) (s.pc i) ≡ 1 = rw e (ground arith) in
      Rebucketed i Pc.idle k c s.put ((k, v) ∷ s.taken) inv lt e (held-Alone i k inv lt mine)
        (λ b. giving k c inv shorter b) (λ q w h. cc)
        (λ q.
          let done =
            recount s.table k c q 0 (if key.equal k q then 1 else 0)
              (omega (arith, count-erase k q (chain_of s.table k) there)) (omega arith) in
          omega (arith, done, inv.kept q))
        (omega (arith, inv.logged)) (λ few. omega (arith, inv.sized few))
        (erased-IsHome inv.shape k inv.placed) refl
