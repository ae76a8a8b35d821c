-- ===== src/HashTable/Threads/Preserved.antt =====
-- Every interleaving of `get`, `insert` and `remove` (hashtable.h) keeps the invariant.
use shared_memory_hashtable.Common.{
  ℕ, ◌+◌, ◌≤◌, ◌<◌, ◌≡◌, refl, suc, ◌++◌, ◌≢◌, Bool, true, ◌∙◌, sym, false, [], ◌∷◌, arith, length,
  get_or, increment, size_mod, ◌==◌, ok-injective, update, total, total-pos, total-zero, subst,
}
use shared_memory_hashtable.HashTable.{HashTable, new_sized}
use shared_memory_hashtable.HashTable.Keys.{Key}
use shared_memory_hashtable.HashTable.Chains.{count, count-eq-zero}
use shared_memory_hashtable.HashTable.Buckets.{home, chain_of, max_capacity, max_size, view}
use shared_memory_hashtable.HashTable.Threads.{
  Pc, calling, gathering, look_bucket, look_up, list, gather, listed, entering, measuring, resizing,
  working, Call, put_call, cut_call, System, Step, look, miss, call, enter, content, ask, settled,
  unsettled, rehash, push, lack, uncount, drop, Reach, start, later, holds, init, first_stage,
}
use shared_memory_hashtable.HashTable.Threads.Holding.{busy, looping}
use shared_memory_hashtable.HashTable.Threads.Storing.{append-rebucket, discard-rebucket}
use shared_memory_hashtable.HashTable.Threads.Invariant.{Inv, Walked, Repointed}
use shared_memory_hashtable.HashTable.Threads.Writing.{push-Inv, drop-Inv}
use shared_memory_hashtable.HashTable.Policy.{new_sized-IsEmpty}
use shared_memory_hashtable.HashTable.Threads.Exclusive.{
  Fits, looping-dynamic, rehash-Inv, uncount-Inv,
}

module _ {ℓ} {K V : Type ℓ} ⦃key : Key K⦄ where
  -- What `first_stage` is on a table that is not resizable.
  unasked-first :
      {n : ℕ} {dynamic : Bool} {s : System K V} (op : Call K V)
      → Inv n dynamic s
      → dynamic ≡ false
      → looping (calling (first_stage s.table) op) ≡ 0
  unasked-first op inv static = let kind = inv.kind ∙ static in rw kind

  pub Step-Inv :
      {n : ℕ} {dynamic : Bool} {s t : System K V}
      → Step n s t
      → Fits dynamic s
      → Inv n dynamic s
      → Inv n dynamic t
  Step-Inv (look i k lt e free run) fits inv = inv
  Step-Inv (look_bucket i b lt e free run) fits inv = inv
  Step-Inv (look_up i k lt e free run) fits inv = inv
  Step-Inv (list i lt e) fits inv = Walked i (gathering 0 []) inv lt e refl refl (λ d. refl)
  Step-Inv (gather i {b} {pairs} {es} lt e inside free run) fits inv =
      Walked i (gathering (suc b) (pairs ++ es)) inv lt e refl refl (λ d. refl)
  Step-Inv (listed i lt e end) fits inv = Walked i Pc.idle inv lt e refl refl (λ d. refl)
  Step-Inv (miss i k v lt e free run) fits inv =
      Walked i (calling entering (put_call k v)) inv lt e refl refl (λ d. refl)
  Step-Inv (call i k lt e) fits inv =
      Walked i (calling entering (cut_call k)) inv lt e refl refl (λ d. refl)
  Step-Inv {s = s} (enter i {op} lt e) fits inv =
      Walked i (calling (first_stage s.table) op) inv lt e refl refl (unasked-first op inv)
  Step-Inv (content i {op} lt e none_in) fits inv =
      Walked i (calling working op) inv lt e refl refl (λ d. refl)
  Step-Inv (ask i {op} lt e some_in) fits inv =
      Walked i (calling measuring op) inv lt e refl refl
        (λ d. let clash = looping-dynamic i inv lt (rw e (omega arith)) in cc)
  Step-Inv (settled i {op} lt e fine) fits inv =
      Walked i (calling working op) inv lt e refl refl (λ d. refl)
  Step-Inv (unsettled i {op} lt e wrong) fits inv =
      Walked i (calling resizing op) inv lt e refl refl
        (λ d. let clash = looping-dynamic i inv lt (rw e (omega arith)) in cc)
  Step-Inv (rehash i {op} lt e free run) fits inv = rehash-Inv i op inv fits lt e free run
  Step-Inv {n} {dynamic} {s} (push i {k} {v} lt e free run) fits inv =
      let made = ok-injective (sym (append-rebucket inv.shape k v) ∙ run) in
      subst
        (λ t. Inv n dynamic (record {
          table = t;
          pc = update s.pc i (Pc.pushed k);
          put = (k, v) ∷ s.put;
          taken = s.taken;
        }))
        made (push-Inv i k v inv lt e free)
  Step-Inv {n} {s = s} (Step.count i {k} lt e) fits inv =
      let mine : busy (s.pc i) ≡ 1 = rw e in
      let enough = total-pos busy n s.pc i lt in
      Repointed i Pc.idle (increment s.table.size) inv lt e
        (λ b. (omega (arith, inv.locked b), omega (arith, inv.backed b))) (λ q w h. cc)
        (λ few. let sized = inv.sized few in omega (arith, sized, inv.logged, mine, enough))
        (λ d. refl)
  Step-Inv (lack i {k} lt e free run) fits inv = Walked i Pc.idle inv lt e refl refl (λ d. refl)
  Step-Inv (uncount i {k} {v} lt e free run) fits inv = uncount-Inv i k v inv lt e free run
  Step-Inv {n} {dynamic} {s} (drop i {k} {v} lt e run) fits inv =
      let made = ok-injective (sym (discard-rebucket inv.shape k) ∙ run) in
      subst
        (λ t.
          Inv n dynamic (record {
            table = t;
            pc = update s.pc i Pc.idle;
            put = s.put;
            taken = (k, v) ∷ s.taken;
          }))
        made (drop-Inv i k v inv lt e)

  -- What fits after a step fits before it.
  pub Step-Fits :
      {n : ℕ} {dynamic : Bool} {s t : System K V} → Step n s t → Fits dynamic t → Fits dynamic s
  Step-Fits (look i k lt e free run) fits = fits
  Step-Fits (look_bucket i b lt e free run) fits = fits
  Step-Fits (look_up i k lt e free run) fits = fits
  Step-Fits (list i lt e) fits = fits
  Step-Fits (gather i lt e inside free run) fits = fits
  Step-Fits (listed i lt e end) fits = fits
  Step-Fits (miss i k v lt e free run) fits = fits
  Step-Fits (call i k lt e) fits = fits
  Step-Fits (enter i lt e) fits = fits
  Step-Fits (content i lt e none_in) fits = fits
  Step-Fits (ask i lt e some_in) fits = fits
  Step-Fits (settled i lt e fine) fits = fits
  Step-Fits (unsettled i lt e wrong) fits = fits
  Step-Fits (rehash i lt e free run) fits = fits
  Step-Fits (push i lt e free run) fits = λ d. let all = fits d in omega arith
  Step-Fits (Step.count i lt e) fits = fits
  Step-Fits (lack i lt e free run) fits = fits
  Step-Fits (uncount i lt e free run) fits = fits
  Step-Fits (drop i lt e run) fits = fits

  pub Reach-Inv :
      {n c : ℕ} {dynamic : Bool} {s : System K V}
      → 1 ≤ c
      → c ≤ max_capacity
      → Reach n c dynamic s
      → Fits dynamic s
      → Inv n dynamic s
  unfolding init view new_sized
  Reach-Inv {n} {c} {dynamic} lo hi start fits =
      let (valid, none_yet, unbound) = (new_sized-IsEmpty {K = K} {V = V} c dynamic lo hi).0 in
      let t : HashTable K V = new_sized c dynamic in
      let idle_count : (b : ℕ) → total (holds t b) n (λ _. Pc.idle) ≡ 0 =
        λ b. total-zero (holds t b) n Pc.idle refl in
      record {
        kind = refl;
        shape = record { wide = valid.wide; allocated = valid.allocated };
        bounded = hi;
        placed = λ q i ne.
            let apart : (i == home t q) ≡ false = ground arith in
            let few = rw apart at (valid.placed q i) in omega (arith, few);
        unasked = λ d. total-zero (looping {K = K} {V = V}) n Pc.idle refl;
        locked = λ b. omega (arith, idle_count b);
        backed = λ b. omega (arith, idle_count b);
        found = λ i lt h. cc;
        kept = λ q. omega (arith, count-eq-zero q (chain_of t q) (unbound q));
        logged = omega (arith, valid.counted, none_yet);
        sized = λ few.
            omega
              (arith, valid.counted, none_yet, total-zero (busy {K = K} {V = V}) n Pc.idle refl);
      }
  Reach-Inv lo hi (later r st) fits =
      let before = Step-Fits st fits in Step-Inv st before (Reach-Inv lo hi r before)

  -- Whatever the threads do on a new table of 1 to 2 ^ 50 buckets, resizable or not, as long as fewer
  -- than 2 ^ 64 entries were inserted, and at most 2 ^ 48 if the table is resizable: each key occurs in
  -- its bucket as often as it was inserted and not removed, and in no other bucket; `size` is the
  -- number of entries less the number of threads between `push_back` and `++_size` or between
  -- `--_size` and `erase`.
  pub interleaved_count :
      {n c : ℕ} {dynamic : Bool} {s : System K V}
      → 1 ≤ c
      → c ≤ max_capacity
      → Reach n c dynamic s
      → length s.put < size_mod
      → (dynamic ≡ true → length s.put ≤ max_size)
      → ((q : K) → count q (chain_of s.table q) + count q s.taken ≡ count q s.put)
        × ((q : K) (i : ℕ) → i ≢ home s.table q → count q (get_or s.table.storage i []) ≡ 0)
        × (s.table.size + total busy n s.pc + length s.taken ≡ length s.put)
  interleaved_count lo hi r few fits =
      let inv = Reach-Inv lo hi r fits in
      let sized = inv.sized few in (inv.kept, inv.placed, omega (arith, sized, inv.logged))
