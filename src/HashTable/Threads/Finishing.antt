-- ===== src/HashTable/Threads/Finishing.antt =====
-- Calls (hashtable.h) of which a thread can finish a part while others hold the lock of the table.
use shared_memory_hashtable.Common.{
  ℕ, zero, suc, ◌+◌, ◌≤◌, ◌<◌, ◌≡◌, refl, Bool, Option, none, some, [], ◌++◌, arith, length, ok,
  get_or, update, update_self, total, total-update,
}
use native.Mathlib.Decide.{dec_lt}
use shared_memory_hashtable.HashTable.{get}
use shared_memory_hashtable.HashTable.Keys.{Key}
use shared_memory_hashtable.HashTable.Chains.{Chain, find}
use shared_memory_hashtable.HashTable.Buckets.{chain_of, at-get_or}
use shared_memory_hashtable.HashTable.Threads.{
  Pc, calling, gathering, entering, asking, measuring, resizing, working, Call, put_call, cut_call,
  shares, sharing, holds, IsFree, System, Step, gather, listed, push, lack, uncount, drop,
}
use shared_memory_hashtable.HashTable.Threads.Holding.{busy, total-le, holds-le-busy}
use shared_memory_hashtable.HashTable.Threads.Storing.{append-rebucket, discard-rebucket, get-find}
use shared_memory_hashtable.HashTable.Threads.Invariant.{Inv}
use shared_memory_hashtable.HashTable.Threads.Preserved.{Step-Inv}
use shared_memory_hashtable.HashTable.Threads.Progress.{calm-Unlocked}
use shared_memory_hashtable.HashTable.Threads.Going.{Continues, stay}
use shared_memory_hashtable.HashTable.Threads.Solo.{adds, burden, HasRoom, Below, first}

-- whether a thread holds the lock of the table and no bucket, as a number
abbrev pub outside {ℓ} : {K V : Type ℓ} → Pc K V → ℕ
outside Pc.idle = 0
outside (calling st op) = sharing st
outside (gathering b pairs) = 1
outside (Pc.pushed k) = 0
outside (Pc.uncounted k v) = 0

module _ {ℓ} {K V : Type ℓ} ⦃key : Key K⦄ where
  pub shares-split : (p : Pc K V) → shares p ≡ outside p + busy p
  shares-split Pc.idle = refl
  shares-split (calling st op) = omega arith
  shares-split (gathering b pairs) = refl
  shares-split (Pc.pushed k) = refl
  shares-split (Pc.uncounted k v) = refl

  pub unburdened : (p : Pc K V) → burden p ≡ 0 → p ≡ Pc.idle
  unburdened Pc.idle h = refl
  unburdened (calling entering op) h = absurd (omega arith)
  unburdened (calling asking op) h = absurd (omega arith)
  unburdened (calling measuring op) h = absurd (omega arith)
  unburdened (calling resizing op) h = absurd (omega arith)
  unburdened (calling working op) h = absurd (omega arith)
  unburdened (gathering b pairs) h = absurd (omega arith)
  unburdened (Pc.pushed k) h = absurd (omega arith)
  unburdened (Pc.uncounted k v) h = absurd (omega arith)

  module _ {n : ℕ} {dynamic : Bool} where
    -- a step of thread `i` to a place with less to do
    pub lighten :
        {s t : System K V} {m : ℕ} (i : ℕ) {p : Pc K V} (a : Pc K V)
        → Inv n dynamic s
        → HasRoom n dynamic s
        → i < n
        → s.pc i ≡ p
        → (st : Step n s t) → Continues st
        → t.pc ≡ update s.pc i a
        → length t.put + adds a ≡ length s.put + adds p
        → burden a < burden p
        → total burden n s.pc ≤ m
        → Below n dynamic s m
    lighten {s} {t} i a inv room lt e st c eq same less all =
        let up = rw e at (total-update burden n s.pc i a lt) in
        let up' = rw e at (total-update adds n s.pc i a lt) in
        first st c (
          t,
          stay,
          Step-Inv st (λ d. omega (arith, room d)) inv,
          (λ d. rw eq (omega (arith, room d, same, up'))),
          rw eq (omega (arith, up, less, all)),
        )

    -- a thread that holds a bucket
    pub holder :
        {s : System K V} (i : ℕ) (p : Pc K V)
        → Inv n dynamic s
        → HasRoom n dynamic s
        → i < n
        → s.pc i ≡ p
        → 1 ≤ busy p
        → Below n dynamic s (total burden n s.pc)
    holder i Pc.idle inv room lt e here = absurd (omega arith)
    holder i (calling st op) inv room lt e here = absurd (omega arith)
    holder i (gathering b pairs) inv room lt e here = absurd (omega arith)
    holder i (Pc.pushed k) inv room lt e here =
        lighten i Pc.idle inv room lt e (Step.count i lt e) tt refl refl (omega arith) (omega arith)
    holder i (Pc.uncounted k v) inv room lt e here =
        lighten i Pc.idle inv room lt e (drop i lt e (discard-rebucket inv.shape k)) tt refl refl
          (omega arith) (omega arith)

    -- a `remove` that has looked for its key
    cutter :
        {s : System K V} (i : ℕ) (k : K) (o : Option V)
        → Inv n dynamic s
        → HasRoom n dynamic s
        → i < n
        → s.pc i ≡ calling working (cut_call k)
        → total busy n s.pc ≡ 0
        → get s.table k ≡ ok o
        → Below n dynamic s (total burden n s.pc)
    cutter {s} i k none inv room lt e calm run =
        lighten i Pc.idle inv room lt e (lack i lt e (calm-Unlocked n s k calm) run) tt refl refl
          (omega arith) (omega arith)
    cutter {s} i k (some v) inv room lt e calm run =
        lighten i (Pc.uncounted k v) inv room lt e (uncount i lt e (calm-Unlocked n s k calm) run)
          tt refl refl (omega arith) (omega arith)

    -- a thread behind the loop, when no bucket is held
    pub worker :
        {s : System K V} (i : ℕ) (op : Call K V)
        → Inv n dynamic s
        → HasRoom n dynamic s
        → i < n
        → s.pc i ≡ calling working op
        → total busy n s.pc ≡ 0
        → Below n dynamic s (total burden n s.pc)
    worker {s} i (put_call k v) inv room lt e calm =
        lighten i (Pc.pushed k) inv room lt e
          (push i lt e (calm-Unlocked n s k calm) (append-rebucket inv.shape k v)) tt refl
          (omega arith) (omega arith) (omega arith)
    worker {s} i (cut_call k) inv room lt e calm =
        cutter i k (find k (chain_of s.table k)) inv room lt e calm (get-find inv.shape k)

    -- a thread in a listing, when no bucket is held
    pub lister :
        (rounds : ℕ) {s : System K V} {m : ℕ} (i b : ℕ) (pairs : Chain K V)
        → Inv n dynamic s
        → HasRoom n dynamic s
        → i < n
        → s.pc i ≡ gathering b pairs
        → total busy n s.pc ≡ 0
        → s.table.capacity < b + rounds
        → total burden n s.pc ≤ m
        → Below n dynamic s m
    lister zero i b pairs inv room lt e calm enough all =
        lighten i Pc.idle inv room lt e (listed i lt e (omega arith)) tt refl refl (omega arith) all
    lister (suc rounds) {s} i b pairs inv room lt e calm enough all =
        elim (dec_lt b s.table.capacity) [
          | no past ↦
              lighten i Pc.idle inv room lt e (listed i lt e (omega arith)) tt refl refl
                (omega arith) all
          | yes inside ↦
              let free : IsFree n s b =
                omega
                  (arith, calm, total-le (holds s.table b) busy n s.pc (holds-le-busy s.table b)) in
              let run =
                at-get_or s.table.storage b [] (omega (arith, inside, inv.shape.allocated)) in
              let a : Pc K V = gathering (suc b) (pairs ++ get_or s.table.storage b []) in
              let st = gather i lt e inside free run in
              let up = rw e at (total-update burden n s.pc i a lt) in
              let up' = rw e at (total-update adds n s.pc i a lt) in
              let up'' = rw e at (total-update busy n s.pc i a lt) in
              first st tt (
                lister rounds i (suc b) (pairs ++ get_or s.table.storage b [])
                  (Step-Inv st (λ d. omega (arith, room d)) inv) (λ d. omega (arith, room d, up'))
                  lt (update_self s.pc i a) (omega (arith, calm, up'')) (omega arith)
                  (omega (arith, all, up)))
        ]
