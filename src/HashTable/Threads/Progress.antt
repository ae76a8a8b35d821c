-- ===== src/HashTable/Threads/Progress.antt =====
-- No interleaving of `get`, `insert` and `remove` (hashtable.h) ends in a deadlock.
use shared_memory_hashtable.Common.{
  ℕ, suc, ◌++◌, [], get_or, ap, ◌≤◌, ◌<◌, ◌≡◌, ◌≢◌, ◌⊎◌, refl, ◌∙◌, sym, Bool, true, none, some,
  arith, length, update, update_self, total, total-cases, inl, inr, Bool-cases, ◌==◌, Option, ok,
}
use native.Mathlib.Decide.{dec_lt}
use shared_memory_hashtable.HashTable.{get, load_verdict}
use shared_memory_hashtable.HashTable.Keys.{Key}
use shared_memory_hashtable.HashTable.Chains.{Chain, find}
use shared_memory_hashtable.HashTable.Buckets.{max_capacity, max_size, home, chain_of, at-get_or}
use shared_memory_hashtable.HashTable.Threads.{
  Pc, calling, gathering, gather, listed, Stage, entering, asking, measuring, resizing, working,
  Call, put_call, cut_call, delta, sharing, shares, System, Step, enter, content, ask, settled,
  unsettled, rehash, push, lack, uncount, drop, Reach, holds, IsFree, Unlocked,
}
use shared_memory_hashtable.HashTable.Threads.Holding.{busy, next_bucket, total-le, holds-le-busy}
use shared_memory_hashtable.HashTable.Threads.Storing.{append-rebucket, discard-rebucket, get-find}
use shared_memory_hashtable.HashTable.Threads.Invariant.{Inv}
use shared_memory_hashtable.HashTable.Threads.Exclusive.{Fits, exclusive}
use shared_memory_hashtable.HashTable.Threads.Preserved.{Reach-Inv}

module _ {ℓ} {K V : Type ℓ} ⦃key : Key K⦄ where
  -- a step of thread `j`, which is inside a call, to another place
  abbrev pub Moves : ℕ → System K V → ℕ → Type ℓ
  Moves n s j = (j < n) × (s.pc j ≢ Pc.idle) × (t : System K V) × Step n s t × (t.pc j ≢ s.pc j)

  -- a step to another place `a`
  moving :
      {n : ℕ} {s t : System K V} (i : ℕ) {p : Pc K V} (a : Pc K V)
      → i < n
      → s.pc i ≡ p
      → p ≢ Pc.idle
      → a ≢ p
      → Step n s t
      → t.pc i ≡ update s.pc i a i
      → Moves n s i
  moving {s = s} {t = t} i a lt e inside other step moved = (
    lt,
    (λ h. inside (sym e ∙ h)),
    t,
    step,
    (λ h. other (sym (moved ∙ update_self s.pc i a) ∙ h ∙ e)),
  )

  count-Moves :
      {n : ℕ} (s : System K V) (i : ℕ) (k : K) → i < n → s.pc i ≡ Pc.pushed k → Moves n s i
  count-Moves s i k lt e = moving i Pc.idle lt e (λ h. cc) (λ h. cc) (Step.count i lt e) refl

  drop-Moves :
      {n : ℕ} {dynamic : Bool} (s : System K V) (i : ℕ) (k : K) (v : V)
      → Inv n dynamic s
      → i < n
      → s.pc i ≡ Pc.uncounted k v
      → Moves n s i
  drop-Moves s i k v inv lt e =
      moving i Pc.idle lt e (λ h. cc) (λ h. cc) (drop i lt e (discard-rebucket inv.shape k)) refl

  -- a thread that holds a bucket
  holder-Moves :
      {n : ℕ} {dynamic : Bool} (s : System K V) (j : ℕ) (p : Pc K V)
      → Inv n dynamic s
      → j < n
      → s.pc j ≡ p
      → 1 ≤ busy p
      → Moves n s j
  holder-Moves s j Pc.idle inv lt e here = absurd (omega arith)
  holder-Moves s j (calling st op) inv lt e here = absurd (omega arith)
  holder-Moves s j (gathering b pairs) inv lt e here = absurd (omega arith)
  holder-Moves s j (Pc.pushed k) inv lt e here = count-Moves s j k lt e
  holder-Moves s j (Pc.uncounted k v) inv lt e here = drop-Moves s j k v inv lt e

  pub calm-Unlocked : (n : ℕ) (s : System K V) (k : K) → total busy n s.pc ≡ 0 → Unlocked n s k
  calm-Unlocked n s k calm = omega (
    arith,
    calm,
    total-le (holds s.table (home s.table k)) busy n s.pc (holds-le-busy s.table (home s.table k)),
  )

  -- a `remove` that has looked for its key
  cutting-Moves :
      {n : ℕ} (s : System K V) (i : ℕ) (k : K) (o : Option V)
      → i < n
      → s.pc i ≡ calling working (cut_call k)
      → Unlocked n s k
      → get s.table k ≡ ok o
      → Moves n s i
  cutting-Moves s i k none lt e free run =
      moving i Pc.idle lt e (λ h. cc) (λ h. cc) (lack i lt e free run) refl
  cutting-Moves s i k (some v) lt e free run =
      moving i (Pc.uncounted k v) lt e (λ h. cc) (λ h. cc) (uncount i lt e free run) refl

  -- a thread behind the loop, when no bucket is held
  working-Moves :
      {n : ℕ} {dynamic : Bool} (s : System K V) (i : ℕ) (op : Call K V)
      → Inv n dynamic s
      → i < n
      → s.pc i ≡ calling working op
      → total busy n s.pc ≡ 0
      → Moves n s i
  working-Moves {n} s i (put_call k v) inv lt e calm =
      moving i (Pc.pushed k) lt e (λ h. cc) (λ h. cc)
        (push i lt e (calm-Unlocked n s k calm) (append-rebucket inv.shape k v)) refl
  working-Moves {n} s i (cut_call k) inv lt e calm =
      cutting-Moves s i k (find k (chain_of s.table k)) lt e (calm-Unlocked n s k calm)
        (get-find inv.shape k)

  -- A thread up to the work on its bucket, when no bucket is held: a thread before `resize` can go on
  -- if none holds `glock`.
  calling-Moves :
      {n : ℕ} {dynamic : Bool} (s : System K V) (i : ℕ) (st : Stage) (op : Call K V)
      → Inv n dynamic s
      → Fits dynamic s
      → i < n
      → s.pc i ≡ calling st op
      → total busy n s.pc ≡ 0
      → (1 ≤ sharing st) ⊎ (total shares n s.pc ≡ 0)
      → Moves n s i
  calling-Moves s i entering op inv fits lt e calm alone = elim (Bool-cases s.table.resizable) [
    | inl dynamic ↦
        moving i (calling asking op) lt e (λ h. cc) (λ h. cc) (enter i lt e) (rw dynamic)
    | inr static ↦ moving i (calling working op) lt e (λ h. cc) (λ h. cc) (enter i lt e) (rw static)
  ]
  calling-Moves s i asking op inv fits lt e calm alone = elim (Bool-cases (s.table.size == 0)) [
    | inl empty ↦
        moving i (calling working op) lt e (λ h. cc) (λ h. cc) (content i lt e (ground arith)) refl
    | inr filled ↦
        moving i (calling measuring op) lt e (λ h. cc) (λ h. cc) (ask i lt e (ground arith)) refl
  ]
  calling-Moves s i measuring op inv fits lt e calm alone =
      elim (Bool-cases (load_verdict s.table (delta op) == 0)) [
        | inl fine ↦
            moving i (calling working op) lt e (λ h. cc) (λ h. cc) (settled i lt e (ground arith))
              refl
        | inr wrong ↦
            moving i (calling resizing op) lt e (λ h. cc) (λ h. cc)
              (unsettled i lt e (ground arith)) refl
      ]
  calling-Moves s i resizing op inv fits lt e calm (inl holding) = absurd (omega arith)
  calling-Moves s i resizing op inv fits lt e calm (inr free) =
      let (exact, (t', run, made)) = exclusive i op inv fits lt e free in
      moving i (calling entering op) lt e (λ h. cc) (λ h. cc) (rehash i lt e free run) refl
  calling-Moves s i working op inv fits lt e calm alone = working-Moves s i op inv lt e calm

  -- a thread in the loop of `getKeys` or `getValues`, when no bucket is held
  gathering-Moves :
      {n : ℕ} {dynamic : Bool} (s : System K V) (i b : ℕ) (pairs : Chain K V)
      → Inv n dynamic s
      → i < n
      → s.pc i ≡ gathering b pairs
      → total busy n s.pc ≡ 0
      → Moves n s i
  gathering-Moves {n} s i b pairs inv lt e calm = elim (dec_lt b s.table.capacity) [
    | yes inside ↦
        let free : IsFree n s b =
          omega (arith, calm, total-le (holds s.table b) busy n s.pc (holds-le-busy s.table b)) in
        let run = at-get_or s.table.storage b [] (omega (arith, inside, inv.shape.allocated)) in
        moving i (gathering (suc b) (pairs ++ get_or s.table.storage b [])) lt e (λ h. cc)
          (λ h. let same = ap next_bucket h in omega (arith, same)) (gather i lt e inside free run)
          refl
    | no past ↦ moving i Pc.idle lt e (λ h. cc) (λ h. cc) (listed i lt e (omega arith)) refl
  ]

  -- a thread inside a call, when no bucket is held
  waiting-Moves :
      {n : ℕ} {dynamic : Bool} (s : System K V) (i : ℕ) (p : Pc K V)
      → Inv n dynamic s
      → Fits dynamic s
      → i < n
      → s.pc i ≡ p
      → p ≢ Pc.idle
      → total busy n s.pc ≡ 0
      → (1 ≤ shares p) ⊎ (total shares n s.pc ≡ 0)
      → Moves n s i
  waiting-Moves s i Pc.idle inv fits lt e inside calm alone = absurd (inside refl)
  waiting-Moves s i (calling st op) inv fits lt e inside calm alone =
      calling-Moves s i st op inv fits lt e calm alone
  waiting-Moves s i (gathering b pairs) inv fits lt e inside calm alone =
      gathering-Moves s i b pairs inv lt e calm
  waiting-Moves s i (Pc.pushed k) inv fits lt e inside calm alone = count-Moves s i k lt e
  waiting-Moves s i (Pc.uncounted k v) inv fits lt e inside calm alone = drop-Moves s i k v inv lt e

  -- On a new table of 1 to 2 ^ 50 buckets, resizable or not, and with at most 2 ^ 48 insertions if it
  -- is resizable: in every reachable state in which a thread is inside a call, a thread inside a call
  -- can go on.
  pub no_deadlock :
      {n c : ℕ} {dynamic : Bool} {s : System K V} (i : ℕ)
      → 1 ≤ c
      → c ≤ max_capacity
      → Reach n c dynamic s
      → (dynamic ≡ true → length s.put ≤ max_size)
      → i < n
      → s.pc i ≢ Pc.idle
      → (j : ℕ) × Moves n s j
  no_deadlock {n} {s = s} i lo hi r fits lt inside =
      let inv = Reach-Inv lo hi r fits in
      elim (total-cases busy n s.pc) [
        | inr (j, ltj, here) ↦ (j, holder-Moves s j (s.pc j) inv ltj refl here)
        | inl calm ↦ elim (total-cases shares n s.pc) [
          | inl free ↦ (i, waiting-Moves s i (s.pc i) inv fits lt refl inside calm (inr free))
          | inr (j, ltj, here) ↦
              let entered : s.pc j ≢ Pc.idle = λ h. let out = rw h at here in omega arith in
              (j, waiting-Moves s j (s.pc j) inv fits ltj refl entered calm (inl here))
        ]
      ]
