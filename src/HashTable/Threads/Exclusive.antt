-- ===== src/HashTable/Threads/Exclusive.antt =====
-- `resize` and the counting of a removal (hashtable.h), among interleaved calls.
use shared_memory_hashtable.Common.{
  ℕ, ◌≤◌, ◌<◌, ◌≡◌, refl, ok, Returns, Bool, true, ◌∙◌, sym, some, arith, length, decrement,
  ok-injective, update, inl, inr, total, total-pos, Bool-cases, subst,
}
use shared_memory_hashtable.HashTable.{HashTable, get, resize}
use shared_memory_hashtable.HashTable.Keys.{Key}
use shared_memory_hashtable.HashTable.Chains.{find, count, length-erase}
use shared_memory_hashtable.HashTable.Buckets.{home, chain_of, max_size, entries}
use shared_memory_hashtable.HashTable.Threads.{
  Pc, calling, entering, resizing, working, Call, put_call, cut_call, delta, shares, System,
  Unlocked, count_down,
}
use shared_memory_hashtable.HashTable.Threads.Holding.{
  busy, looping, busy-entries, total-le, busy-le-shares,
}
use shared_memory_hashtable.HashTable.Threads.Storing.{get-find, IsSpread}
use shared_memory_hashtable.HashTable.Threads.Invariant.{Inv, Repointed, Rehashed}
use shared_memory_hashtable.HashTable.Threads.Writing.{same_bucket, taking}
use shared_memory_hashtable.HashTable.Threads.Rehashing.{Copies, resize-Copies}
use shared_memory_hashtable.HashTable.Pairs.{flat}
use shared_memory_hashtable.HashTable.Resizing.{judged}
use shared_memory_hashtable.HashTable.Verdict.{next_capacity, IsUnit, one-IsUnit, minus_one-IsUnit}

module _ {ℓ} {K V : Type ℓ} ⦃key : Key K⦄ where
  -- A resizable table takes at most 2 ^ 48 insertions.
  abbrev pub Fits : Bool → System K V → Type 0
  Fits dynamic s = dynamic ≡ true → length s.put ≤ max_size

  pub delta-IsUnit : (op : Call K V) → IsUnit (delta op)
  delta-IsUnit (put_call k v) = one-IsUnit
  delta-IsUnit (cut_call k) = minus_one-IsUnit

  -- A thread in the loop works on a resizable table.
  pub looping-dynamic :
      {n : ℕ} {dynamic : Bool} {s : System K V} (i : ℕ)
      → Inv n dynamic s
      → i < n
      → 1 ≤ looping (s.pc i)
      → dynamic ≡ true
  looping-dynamic {n} {dynamic} {s} i inv lt here = elim (Bool-cases dynamic) [
    | inl yes_dynamic ↦ yes_dynamic
    | inr static ↦ absurd (omega (arith, here, inv.unasked static, total-pos looping n s.pc i lt))
  ]

  -- `resize`, when no thread holds `glock`
  pub exclusive :
      {n : ℕ} {dynamic : Bool} {s : System K V} (i : ℕ) (op : Call K V)
      → Inv n dynamic s
      → Fits dynamic s
      → i < n
      → s.pc i ≡ calling resizing op
      → total shares n s.pc ≡ 0
      → (s.table.size ≡ entries s.table.capacity s.table.storage)
        × Returns (resize s.table (delta op)) (λ t'.
          Copies s.table.size
            (next_capacity (judged (delta op) (delta-IsUnit op) s.table) s.table.capacity)
            s.table.resizable
            (λ q. count q (chain_of s.table q))
            (λ q. find q (chain_of s.table q))
            (flat s.table.capacity s.table.storage)
            t')
  exclusive {n} {dynamic} {s} i op inv fits lt e free =
      let few = fits (looping-dynamic i inv lt (rw e (omega arith))) in
      let calm = total-le busy shares n s.pc busy-le-shares in
      let exact : s.table.size ≡ entries s.table.capacity s.table.storage =
        omega (arith, inv.sized (omega arith), free, calm) in
      let spread : IsSpread s.table = record {
        shape = inv.shape;
        bounded = inv.bounded;
        placed = inv.placed;
        counted = exact;
      } in
      (
        exact,
        resize-Copies (delta op) (delta-IsUnit op) spread (omega (arith, exact, inv.logged, few)),
      )

  pub rehash-Inv :
      {n : ℕ} {dynamic : Bool} {s : System K V} {t' : HashTable K V} (i : ℕ) (op : Call K V)
      → Inv n dynamic s
      → Fits dynamic s
      → i < n
      → s.pc i ≡ calling resizing op
      → total shares n s.pc ≡ 0
      → resize s.table (delta op) ≡ ok t'
      → Inv n dynamic (record s { table = t'; pc = update s.pc i (calling entering op) })
  rehash-Inv {n} {dynamic} {s} i op inv fits lt e free run =
      let (exact, (t₁, run₁, h)) = exclusive i op inv fits lt e free in
      let made = ok-injective (sym run₁ ∙ run) in
      subst
        (λ t. Inv n dynamic (record {
          table = t;
          pc = update s.pc i (calling entering op);
          put = s.put;
          taken = s.taken;
        }))
        made (Rehashed i (calling entering op) inv lt e free refl refl exact h)

  pub uncount-Inv :
      {n : ℕ} {dynamic : Bool} {s : System K V} (i : ℕ) (k : K) (v : V)
      → Inv n dynamic s
      → i < n
      → s.pc i ≡ calling working (cut_call k)
      → Unlocked n s k
      → get s.table k ≡ ok (some v)
      → Inv n dynamic
          (record s { table = count_down s.table; pc = update s.pc i (Pc.uncounted k v) })
  uncount-Inv {n} {s = s} i k v inv lt e free run =
      let there : find k (chain_of s.table k) ≡ some v =
        ok-injective (sym (get-find inv.shape k) ∙ run) in
      let filled = length-erase k (chain_of s.table k) there in
      let left =
        busy-entries s.table n s.pc (home s.table k) inv.shape.wide inv.shape.allocated inv.backed
          free (omega (arith, inv.shape.wide)) in
      Repointed i (Pc.uncounted k v) (decrement s.table.size) inv lt e
        (λ b.
          rw (same_bucket s.table.storage (home s.table k) b) at
            (taking k (chain_of s.table k) inv free (omega arith) b))
        (λ q w h.
          let same_key : k ≡ q = cc in
          let same_val : v ≡ w = cc in rw (sym same_key, sym same_val) there)
        (λ few. let sized = inv.sized few in omega (arith, sized, inv.logged, left, filled))
        (λ d. refl)
