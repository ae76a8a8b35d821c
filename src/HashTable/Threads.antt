-- ===== src/HashTable/Threads.antt =====
-- Threads that call member functions of one `HashTable` (hashtable.h), interleaved. The table's lock
-- `_mutex` is held in read mode during a call, except while the call resizes the table. A bucket that
-- a thread holds in write mode excludes all other accesses to it; `_size` is atomic.
pub mod Holding
pub mod Storing
pub mod Rehashing
pub mod Invariant
pub mod Writing
pub mod Exclusive
pub mod Preserved
pub mod Contents
pub mod Once
pub mod Atomic
pub mod Gathering
pub mod Listings
pub mod Progress
pub mod Going
pub mod Solo
pub mod Rounds
pub mod Finishing
pub mod Completion
pub mod Inserting
pub mod Race
mod Examples
use shared_memory_hashtable.Common.{
  ℕ, suc, ◌≤◌, ◌<◌, ◌≡◌, ◌≢◌, refl, Bool, true, false, ℤ, pos, negsuc, Option, none, some, List, [],
  ◌∷◌, ◌++◌, set, increment, decrement, if◌then◌else◌, ◌==◌, Run, ok, ◌>>=◌, update, total,
}
use shared_memory_hashtable.HashTable.{
  HashTable, new_sized, hash, at, get, insert_unsafe, load_verdict, resize, get_bucket, subscript,
}
use shared_memory_hashtable.HashTable.Keys.{Key}
use shared_memory_hashtable.HashTable.Chains.{Chain, find, erase}
use shared_memory_hashtable.HashTable.Buckets.{home}

-- Where a call stands up to the work on its bucket.
pub data Stage : Type 0 where
  entering : Stage  -- before `glock` is locked
  asking : Stage  -- before the loop's `needsResize`, with `glock`
  measuring : Stage  -- in `needsResize`, behind its test of `_size`, with `glock`
  resizing : Stage  -- before `resize`, without `glock`
  working : Stage  -- behind the loop, with `glock`

module _ {ℓ} (K V : Type ℓ) where
  -- An `insert`, behind `get(key)`, which found nothing, or a `remove`.
  pub data Call : Type ℓ where
    put_call : (k : K) (v : V) → Call
    cut_call : (k : K) → Call

  -- Where a thread stands, with its local variables.
  pub data Pc : Type ℓ where
    idle : Pc
    calling : Stage → Call → Pc
    -- `getKeys` or `getValues`, before bucket `i`, with `glock` and the pairs of the buckets before
    gathering : (i : ℕ) (pairs : Chain K V) → Pc
    pushed : (k : K) → Pc  -- `insert`, before `++_size`, with `glock` and the lock of the bucket
    uncounted : (k : K) (v : V) → Pc  -- `remove`, behind `--_size`, with `glock` and that lock

  -- The table, the threads, and what was put into and taken out of the table so far.
  pub record System : Type ℓ where
    pub table : HashTable K V
    pub pc : ℕ → Pc
    pub put : Chain K V
    pub taken : Chain K V

-- whether a thread holds `glock`, as a number
abbrev pub sharing : Stage → ℕ
sharing entering = 0
sharing asking = 1
sharing measuring = 1
sharing resizing = 0
sharing working = 1

module _ {ℓ} {K V : Type ℓ} where
  -- the argument of `needsResize` and `resize`
  abbrev pub delta : Call K V → ℤ
  delta (put_call k v) = pos 1
  delta (cut_call k) = negsuc 0

  abbrev pub shares : Pc K V → ℕ
  shares Pc.idle = 0
  shares (calling st op) = sharing st
  shares (gathering i pairs) = 1
  shares (Pc.pushed k) = 1
  shares (Pc.uncounted k v) = 1

  -- `if(_resizable) while …`
  abbrev pub first_stage : HashTable K V → Stage
  first_stage t = if t.resizable then asking else working

module _ {ℓ} {K V : Type ℓ} ⦃key : Key K⦄ where
  -- `bucket.l.push_back`
  unfoldable pub append : HashTable K V → K → V → Run (HashTable K V)
  unfolding hash at
  append t k v = do
    i ← hash t k
    c ← at t.storage i
    ok (record t { storage = set t.storage i (c ++ (k, v) ∷ []) })

  -- `bucket.l.erase(result)`
  pub discard : HashTable K V → K → Run (HashTable K V)
  unfolding hash at
  discard t k = do
    i ← hash t k
    c ← at t.storage i
    ok (record t { storage = set t.storage i (erase k c) })

  -- `++_size` and `--_size`
  abbrev pub count_up : HashTable K V → HashTable K V
  count_up t = record t { size = increment t.size }

  abbrev pub count_down : HashTable K V → HashTable K V
  count_down t = record t { size = decrement t.size }

  -- whether a thread holds bucket `b` in write mode, as a number
  abbrev pub holds : HashTable K V → ℕ → Pc K V → ℕ
  holds t b Pc.idle = 0
  holds t b (calling st op) = 0
  holds t b (gathering i pairs) = 0
  holds t b (Pc.pushed k) = if home t k == b then 1 else 0
  holds t b (Pc.uncounted k v) = if home t k == b then 1 else 0

  -- none of the `n` threads holds bucket `b`, or the bucket of `k`, in write mode
  abbrev pub IsFree : ℕ → System K V → ℕ → Type 0
  IsFree n s b = total (holds s.table b) n s.pc ≡ 0

  abbrev pub Unlocked : ℕ → System K V → K → Type 0
  Unlocked n s k = IsFree n s (home s.table k)

  -- One step of one of `n` threads. What a thread does under the lock of a bucket in read mode, or
  -- under `_mutex` in write mode, is one step.
  pub data Step (n : ℕ) (s : System K V) : System K V → Type ℓ where
    -- a `get`, an `insert` that finds its key
    look :
        (i : ℕ) (k : K) {o : Option V}
        → i < n
        → s.pc i ≡ Pc.idle
        → Unlocked n s k
        → get s.table k ≡ ok o
        → Step n s s
    -- a `getBucket`
    look_bucket :
        (i b : ℕ) {es : Chain K V}
        → i < n
        → s.pc i ≡ Pc.idle
        → IsFree n s b
        → get_bucket s.table b ≡ ok es
        → Step n s s
    -- `operator[]`, with the lock of the bucket in write mode
    look_up :
        (i : ℕ) (k : K) {v : V}
        → i < n
        → s.pc i ≡ Pc.idle
        → Unlocked n s k
        → subscript s.table k ≡ ok v
        → Step n s s
    -- The call of `getKeys` or `getValues`, up to its second lock of `_mutex` in read mode. What may
    -- keep a thread between the two locks, a writer that waits, is not in here: the step is taken
    -- when both have succeeded.
    list :
        (i : ℕ)
        → i < n
        → s.pc i ≡ Pc.idle
        → Step n s (record s { pc = update s.pc i (gathering 0 []) })
    -- a round of its loop
    gather :
        (i : ℕ) {b : ℕ} {pairs es : Chain K V}
        → i < n
        → s.pc i ≡ gathering b pairs
        → b < s.table.capacity
        → IsFree n s b
        → at s.table.storage b ≡ ok es
        → Step n s (record s { pc = update s.pc i (gathering (suc b) (pairs ++ es)) })
    -- the end of the loop, and the return
    listed :
        (i : ℕ) {b : ℕ} {pairs : Chain K V}
        → i < n
        → s.pc i ≡ gathering b pairs
        → s.table.capacity ≤ b
        → Step n s (record s { pc = update s.pc i Pc.idle })
    -- an `insert` that does not find its key, up to the end of `get`
    miss :
        (i : ℕ) (k : K) (v : V)
        → i < n
        → s.pc i ≡ Pc.idle
        → Unlocked n s k
        → get s.table k ≡ ok none
        → Step n s (record s { pc = update s.pc i (calling entering (put_call k v)) })
    -- the call of `remove`
    call :
        (i : ℕ) (k : K)
        → i < n
        → s.pc i ≡ Pc.idle
        → Step n s (record s { pc = update s.pc i (calling entering (cut_call k)) })
    -- `glock` is locked in read mode
    enter :
        (i : ℕ) {op : Call K V}
        → i < n
        → s.pc i ≡ calling entering op
        → Step n s (record s { pc = update s.pc i (calling (first_stage s.table) op) })
    -- `needsResize` returns 0 for an empty table
    content :
        (i : ℕ) {op : Call K V}
        → i < n
        → s.pc i ≡ calling asking op
        → s.table.size ≡ 0
        → Step n s (record s { pc = update s.pc i (calling working op) })
    ask :
        (i : ℕ) {op : Call K V}
        → i < n
        → s.pc i ≡ calling asking op
        → s.table.size ≢ 0
        → Step n s (record s { pc = update s.pc i (calling measuring op) })
    -- the rest of `needsResize`; the loop ends, or `glock` is unlocked
    settled :
        (i : ℕ) {op : Call K V}
        → i < n
        → s.pc i ≡ calling measuring op
        → load_verdict s.table (delta op) ≡ 0
        → Step n s (record s { pc = update s.pc i (calling working op) })
    unsettled :
        (i : ℕ) {op : Call K V}
        → i < n
        → s.pc i ≡ calling measuring op
        → load_verdict s.table (delta op) ≢ 0
        → Step n s (record s { pc = update s.pc i (calling resizing op) })
    -- `resize`, which needs `_mutex` in write mode
    rehash :
        (i : ℕ) {op : Call K V} {t' : HashTable K V}
        → i < n
        → s.pc i ≡ calling resizing op
        → total shares n s.pc ≡ 0
        → resize s.table (delta op) ≡ ok t'
        → Step n s (record s { table = t'; pc = update s.pc i (calling entering op) })
    -- the lock of its bucket, and `push_back`
    push :
        (i : ℕ) {k : K} {v : V} {t' : HashTable K V}
        → i < n
        → s.pc i ≡ calling working (put_call k v)
        → Unlocked n s k
        → append s.table k v ≡ ok t'
        → Step n s (record s { table = t'; pc = update s.pc i (Pc.pushed k); put = (k, v) ∷ s.put })
    -- `++_size`, and the end of `insert`
    count :
        (i : ℕ) {k : K}
        → i < n
        → s.pc i ≡ Pc.pushed k
        → Step n s (record s { table = count_up s.table; pc = update s.pc i Pc.idle })
    -- a `remove` that does not find its key
    lack :
        (i : ℕ) {k : K}
        → i < n
        → s.pc i ≡ calling working (cut_call k)
        → Unlocked n s k
        → get s.table k ≡ ok none
        → Step n s (record s { pc = update s.pc i Pc.idle })
    -- a `remove` that finds its key, up to `--_size`
    uncount :
        (i : ℕ) {k : K} {v : V}
        → i < n
        → s.pc i ≡ calling working (cut_call k)
        → Unlocked n s k
        → get s.table k ≡ ok (some v)
        → Step n s (record s { table = count_down s.table; pc = update s.pc i (Pc.uncounted k v) })
    -- `erase`, and the end of `remove`
    drop :
        (i : ℕ) {k : K} {v : V} {t' : HashTable K V}
        → i < n
        → s.pc i ≡ Pc.uncounted k v
        → discard s.table k ≡ ok t'
        → Step n s (record s { table = t'; pc = update s.pc i Pc.idle; taken = (k, v) ∷ s.taken })

  -- a new table of `c` buckets, all threads before their first call
  unfoldable pub init : ℕ → Bool → System K V
  init c resizable = record {
    table = new_sized c resizable;
    pc = λ _. Pc.idle;
    put = [];
    taken = [];
  }

  pub data Reach (n c : ℕ) (resizable : Bool) : System K V → Type ℓ where
    start : Reach n c resizable (init c resizable)
    later : {s t : System K V} → Reach n c resizable s → Step n s t → Reach n c resizable t
