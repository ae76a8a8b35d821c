-- ===== src/HashTable/Threads/Once.antt =====
-- When a key is in the table once at most, among interleaved calls (hashtable.h, `insert`).
use shared_memory_hashtable.Common.{
  ℕ, suc, ◌+◌, ◌≤◌, ◌<◌, ◌≡◌, refl, ◌∙◌, sym, subst, Bool, none, [], ◌++◌, arith, ok-injective,
  update, inl, inr, total, total-update, total-zero, Bool-cases, if◌then◌else◌,
}
use shared_memory_hashtable.HashTable.Keys.{Key}
use shared_memory_hashtable.HashTable.Chains.{find, count, count-eq-zero}
use shared_memory_hashtable.HashTable.Buckets.{chain_of, max_capacity}
use shared_memory_hashtable.HashTable.Threads.{
  Pc, calling, gathering, entering, working, measuring, resizing, Call, put_call, cut_call,
  first_stage, System, Step, look, look_bucket, look_up, list, gather, listed, miss, call, enter,
  content, ask, settled, unsettled, rehash, push, lack, uncount, drop, Reach, start, later, init,
}
use shared_memory_hashtable.HashTable.Threads.Storing.{get-find}
use shared_memory_hashtable.HashTable.Threads.Invariant.{Inv}
use shared_memory_hashtable.HashTable.Threads.Exclusive.{Fits}
use shared_memory_hashtable.HashTable.Threads.Preserved.{Step-Fits, Reach-Inv}

module _ {ℓ} {K V : Type ℓ} ⦃key : Key K⦄ where
  -- A predicate holds of every state on the way.
  unfoldable pub Along :
      {n c : ℕ} {dynamic : Bool} {s : System K V}
      → (System K V → Type ℓ)
      → Reach n c dynamic s
      → Type ℓ
  Along {s = s} P start = P s
  Along {s = s} P (later r st) = P s × Along P r

  -- whether a call inserts `q`, and whether a thread is in such an `insert` behind its lookup
  abbrev pub brings : K → Call K V → ℕ
  brings q (put_call k v) = if key.equal k q then 1 else 0
  brings q (cut_call k) = 0

  abbrev pub bringing : K → Pc K V → ℕ
  bringing q Pc.idle = 0
  bringing q (calling st op) = brings q op
  bringing q (gathering b pairs) = 0
  bringing q (Pc.pushed k) = 0
  bringing q (Pc.uncounted k v) = 0

  -- At most one thread is in an `insert` of `q` behind its lookup.
  abbrev pub IsAlternating : ℕ → K → System K V → Type 0
  IsAlternating n q s = total (bringing q) n s.pc ≤ 1

  -- The same for all keys.
  abbrev pub Alternating : ℕ → System K V → Type ℓ
  Alternating n s = (q : K) → IsAlternating n q s

  -- the insertions of `q`, done and to come
  abbrev pub near : ℕ → K → System K V → ℕ
  near n q s = count q s.put + total (bringing q) n s.pc

  abbrev pub Few : ℕ → K → System K V → Type 0
  Few n q s = near n q s ≤ count q s.taken + 1

  moved :
      {n : ℕ} (q : K) (pc : ℕ → Pc K V) (i : ℕ) {p : Pc K V} (a : Pc K V)
      → i < n
      → pc i ≡ p
      → total (bringing q) n (update pc i a) + bringing q p ≡ total (bringing q) n pc + bringing q a
  moved {n} q pc i a lt e = rw e at (total-update (bringing q) n pc i a lt)

  Step-Few :
      {n : ℕ} {dynamic : Bool} {s t : System K V} (q : K)
      → Step n s t
      → Inv n dynamic s
      → IsAlternating n q t
      → Few n q s
      → Few n q t
  unfolding count
  Step-Few q (look i k lt e free run) inv one few = few
  Step-Few q (look_bucket i b lt e free run) inv one few = few
  Step-Few q (look_up i k lt e free run) inv one few = few
  Step-Few {s = s} q (list i lt e) inv one few =
      omega (arith, few, moved q s.pc i (gathering 0 []) lt e)
  Step-Few {s = s} q (gather i {b} {pairs} {es} lt e inside free run) inv one few =
      omega (arith, few, moved q s.pc i (gathering (suc b) (pairs ++ es)) lt e)
  Step-Few {s = s} q (listed i lt e end) inv one few =
      omega (arith, few, moved q s.pc i Pc.idle lt e)
  Step-Few {n} {s = s} q (miss i k v lt e free run) inv one few =
      let absent : find k (chain_of s.table k) ≡ none =
        ok-injective (sym (get-find inv.shape k) ∙ run) in
      elim (Bool-cases (key.equal k q)) [
        | inl same ↦
            let here : k ≡ q = (key.equal_iff k q).0 same in
            let none_here : count q (chain_of s.table q) ≡ 0 =
              subst (λ x. count x (chain_of s.table x) ≡ 0) here
                (count-eq-zero k (chain_of s.table k) absent) in
            omega (arith, one, none_here, inv.kept q)
        | inr other ↦
            let step = rw other at (moved q s.pc i (calling entering (put_call k v)) lt e) in
            omega (arith, few, step)
      ]
  Step-Few {s = s} q (call i k lt e) inv one few =
      omega (arith, few, moved q s.pc i (calling entering (cut_call k)) lt e)
  Step-Few {s = s} q (enter i {op} lt e) inv one few =
      omega (arith, few, moved q s.pc i (calling (first_stage s.table) op) lt e)
  Step-Few {s = s} q (content i {op} lt e none_in) inv one few =
      omega (arith, few, moved q s.pc i (calling working op) lt e)
  Step-Few {s = s} q (ask i {op} lt e some_in) inv one few =
      omega (arith, few, moved q s.pc i (calling measuring op) lt e)
  Step-Few {s = s} q (settled i {op} lt e fine) inv one few =
      omega (arith, few, moved q s.pc i (calling working op) lt e)
  Step-Few {s = s} q (unsettled i {op} lt e wrong) inv one few =
      omega (arith, few, moved q s.pc i (calling resizing op) lt e)
  Step-Few {s = s} q (rehash i {op} lt e free run) inv one few =
      omega (arith, few, moved q s.pc i (calling entering op) lt e)
  Step-Few {s = s} q (push i {k} {v} lt e free run) inv one few =
      omega (arith, few, moved q s.pc i (Pc.pushed k) lt e)
  Step-Few {s = s} q (Step.count i lt e) inv one few =
      omega (arith, few, moved q s.pc i Pc.idle lt e)
  Step-Few {s = s} q (lack i lt e free run) inv one few =
      omega (arith, few, moved q s.pc i Pc.idle lt e)
  Step-Few {s = s} q (uncount i {k} {v} lt e free run) inv one few =
      omega (arith, few, moved q s.pc i (Pc.uncounted k v) lt e)
  Step-Few {s = s} q (drop i {k} {v} lt e run) inv one few =
      omega (arith, few, moved q s.pc i Pc.idle lt e)

  pub Reach-Few :
      {n c : ℕ} {dynamic : Bool} {s : System K V} (q : K)
      → 1 ≤ c
      → c ≤ max_capacity
      → (r : Reach n c dynamic s) → Fits dynamic s
      → Along (Alternating n) r
      → Few n q s
  unfolding init count Along
  Reach-Few {n} q lo hi start fits alternating =
      omega (arith, total-zero (bringing q) n Pc.idle refl)
  Reach-Few q lo hi (later r st) fits (one, alternating) =
      let before = Step-Fits st fits in
      Step-Few q st (Reach-Inv lo hi r before) (one q) (Reach-Few q lo hi r before alternating)

  -- If at no time two threads were in an `insert` of one key behind its lookup, a key is in its bucket
  -- once at most.
  pub held_once :
      {n c : ℕ} {dynamic : Bool} {s : System K V} (q : K)
      → 1 ≤ c
      → c ≤ max_capacity
      → (r : Reach n c dynamic s) → Fits dynamic s
      → Along (Alternating n) r
      → count q (chain_of s.table q) ≤ 1
  held_once q lo hi r fits alternating =
      let inv = Reach-Inv lo hi r fits in
      omega (arith, inv.kept q, Reach-Few q lo hi r fits alternating)
