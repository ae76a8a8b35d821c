-- ===== src/HashTable/Threads/Completion.antt =====
-- The calls of `get`, `insert` and `remove` (hashtable.h) can still come to their ends.
use shared_memory_hashtable.Common.{
  ℕ, zero, suc, ◌+◌, ◌≤◌, ◌<◌, ◌≡◌, refl, ap, Bool, true, ◌⊎◌, arith, length, total, total-pos,
  total-cases, Bool-cases, inl, inr, ◌==◌,
}
use shared_memory_hashtable.HashTable.{load_verdict}
use shared_memory_hashtable.HashTable.Keys.{Key}
use shared_memory_hashtable.HashTable.Buckets.{max_capacity, max_size}
use shared_memory_hashtable.HashTable.Threads.{
  Pc, calling, gathering, Stage, entering, asking, measuring, resizing, working, Call, delta,
  shares, sharing, System, content, ask, settled, unsettled, rehash, Reach,
}
use shared_memory_hashtable.HashTable.Threads.Holding.{busy, total-split}
use shared_memory_hashtable.HashTable.Threads.Invariant.{Inv}
use shared_memory_hashtable.HashTable.Threads.Exclusive.{exclusive}
use shared_memory_hashtable.HashTable.Threads.Preserved.{Reach-Inv}
use shared_memory_hashtable.HashTable.Threads.Going.{Goes, stay, Goes-append}
use shared_memory_hashtable.HashTable.Threads.Solo.{
  adds, burden, adds-stage, HasRoom, Below, IsSolo, onward,
}
use shared_memory_hashtable.HashTable.Threads.Rounds.{solo_entering}
use shared_memory_hashtable.HashTable.Threads.Finishing.{
  outside, shares-split, unburdened, lighten, holder, worker, lister,
}

-- whether a thread is in `getKeys` or `getValues`, as a number
abbrev pub lists {ℓ} : {K V : Type ℓ} → Pc K V → ℕ
lists (gathering b pairs) = 1
lists _ = 0

module _ {ℓ} {K V : Type ℓ} ⦃key : Key K⦄ {n : ℕ} {dynamic : Bool} where
  -- a thread in the loop that holds the lock of the table, or behind it, when no bucket is held
  inside :
      {s : System K V} (i : ℕ) (st : Stage) (op : Call K V)
      → Inv n dynamic s
      → HasRoom n dynamic s
      → i < n
      → s.pc i ≡ calling st op
      → total busy n s.pc ≡ 0
      → 1 ≤ sharing st
      → Below n dynamic s (total burden n s.pc)
  inside i entering op inv room lt e calm here = absurd (omega arith)
  inside i resizing op inv room lt e calm here = absurd (omega arith)
  inside i working op inv room lt e calm here = worker i op inv room lt e calm
  inside {s} i asking op inv room lt e calm here = elim (Bool-cases (s.table.size == 0)) [
    | inl empty ↦
        lighten i (calling working op) inv room lt e (content i lt e (ground arith)) tt refl
          (ap (λ x. length s.put + x) (adds-stage op asking working)) (omega arith) (omega arith)
    | inr filled ↦
        lighten i (calling measuring op) inv room lt e (ask i lt e (ground arith)) tt refl
          (ap (λ x. length s.put + x) (adds-stage op asking measuring)) (omega arith) (omega arith)
  ]
  inside {s} i measuring op inv room lt e calm here =
      elim (Bool-cases (load_verdict s.table (delta op) == 0)) [
        | inl fine ↦
            lighten i (calling working op) inv room lt e (settled i lt e (ground arith)) tt refl
              (ap (λ x. length s.put + x) (adds-stage op measuring working)) (omega arith)
              (omega arith)
        | inr wrong ↦
            lighten i (calling resizing op) inv room lt e (unsettled i lt e (ground arith)) tt refl
              (ap (λ x. length s.put + x) (adds-stage op measuring resizing)) (omega arith)
              (omega arith)
      ]

  -- a thread that holds the lock of the table, when no bucket is held
  sharer :
      {s : System K V} (i : ℕ) (p : Pc K V)
      → Inv n dynamic s
      → HasRoom n dynamic s
      → i < n
      → s.pc i ≡ p
      → total busy n s.pc ≡ 0
      → 1 ≤ outside p
      → Below n dynamic s (total burden n s.pc)
  sharer i Pc.idle inv room lt e calm here = absurd (omega arith)
  sharer i (calling st op) inv room lt e calm here = inside i st op inv room lt e calm here
  sharer {s} i (gathering b pairs) inv room lt e calm here =
      lister (suc s.table.capacity) i b pairs inv room lt e calm (omega arith) (omega arith)
  sharer i (Pc.pushed k) inv room lt e calm here = absurd (omega arith)
  sharer i (Pc.uncounted k v) inv room lt e calm here = absurd (omega arith)

  alone :
      {s : System K V} (i : ℕ) (st : Stage) (op : Call K V)
      → Inv n dynamic s
      → HasRoom n dynamic s
      → s.pc i ≡ calling st op
      → total busy n s.pc ≡ 0
      → total shares n s.pc ≡ 0
      → shares (calling st op) ≡ 0
      → burden (calling st op) ≡ 10
      → IsSolo n dynamic i (total burden n s.pc) s
  alone i st op inv room e calm free out light = record {
    inv = inv;
    room = room;
    owes = omega (arith, ap burden e, light);
    alone = omega (arith, free, ap shares e, out);
    calm = omega (arith, calm, ap busy e);
  }

  -- a thread that holds no lock, when no thread does
  outsider :
      {s : System K V} (i : ℕ) (p : Pc K V)
      → Inv n dynamic s
      → HasRoom n dynamic s
      → i < n
      → s.pc i ≡ p
      → total busy n s.pc ≡ 0
      → total shares n s.pc ≡ 0
      → 1 ≤ burden p
      → Below n dynamic s (total burden n s.pc)
  outsider i Pc.idle inv room lt e calm free here = absurd (omega arith)
  outsider {s} i (calling entering op) inv room lt e calm free here =
      solo_entering i (total burden n s.pc) lt op
        (alone i entering op inv room e calm free refl refl) e
  outsider {s} i (calling resizing op) inv room lt e calm free here =
      let (exact, (t', run, h)) = exclusive i op inv (λ d. omega (arith, room d)) lt e free in
      onward i (total burden n s.pc) lt op resizing entering
        (alone i resizing op inv room e calm free refl refl) e (rehash i lt e free run) tt refl refl
        (λ solo e'. solo_entering i (total burden n s.pc) lt op solo e')
  outsider {s} i (calling asking op) inv room lt e calm free here =
      absurd (omega (arith, free, ap shares e, total-pos shares n s.pc i lt))
  outsider {s} i (calling measuring op) inv room lt e calm free here =
      absurd (omega (arith, free, ap shares e, total-pos shares n s.pc i lt))
  outsider {s} i (calling working op) inv room lt e calm free here =
      absurd (omega (arith, free, ap shares e, total-pos shares n s.pc i lt))
  outsider {s} i (gathering b pairs) inv room lt e calm free here =
      absurd (omega (arith, free, ap shares e, total-pos shares n s.pc i lt))
  outsider {s} i (Pc.pushed k) inv room lt e calm free here =
      absurd (omega (arith, free, ap shares e, total-pos shares n s.pc i lt))
  outsider {s} i (Pc.uncounted k v) inv room lt e calm free here =
      absurd (omega (arith, free, ap shares e, total-pos shares n s.pc i lt))

  -- All threads are idle, or there are steps after which there is less to do.
  less_to_do :
      {s : System K V}
      → Inv n dynamic s
      → HasRoom n dynamic s
      → (total burden n s.pc ≡ 0) ⊎ Below n dynamic s (total burden n s.pc)
  less_to_do {s} inv room = elim (total-cases busy n s.pc) [
    | inr (i, lt, here) ↦ inr (holder i (s.pc i) inv room lt refl here)
    | inl calm ↦ elim (total-cases outside n s.pc) [
      | inr (i, lt, here) ↦ inr (sharer i (s.pc i) inv room lt refl calm here)
      | inl none_in ↦
          let free : total shares n s.pc ≡ 0 =
            omega (arith, calm, none_in, total-split shares outside busy n s.pc shares-split) in
          elim (total-cases burden n s.pc) [
            | inl nothing ↦ inl nothing
            | inr (i, lt, here) ↦ inr (outsider i (s.pc i) inv room lt refl calm free here)
          ]
    ]
  ]

  pub finished :
      (fuel : ℕ) {s : System K V}
      → Inv n dynamic s
      → HasRoom n dynamic s
      → total burden n s.pc < fuel
      → (t : System K V) × Goes n s t × (total burden n t.pc ≡ 0)
  finished zero inv room enough = absurd (omega arith)
  finished (suc fuel) {s} inv room enough = elim (less_to_do inv room) [
    | inl nothing ↦ (s, stay, nothing)
    | inr (t, r, inv', room', less) ↦
        let (u, r', nothing) = finished fuel inv' room' (omega arith) in
        (u, Goes-append r r', nothing)
  ]

  -- On a new table of 1 to 2 ^ 50 buckets, resizable or not, with at most 2 ^ 48 insertions, those
  -- to come included, if it is resizable: from every reachable state in which no thread is in getKeys
  -- or getValues, which lock the table twice, there are steps after which all threads are idle, and
  -- none of these steps begins a call.
  pub calls_end :
      {c : ℕ} {s : System K V}
      → 1 ≤ c
      → c ≤ max_capacity
      → Reach n c dynamic s
      → total lists n s.pc ≡ 0
      → (dynamic ≡ true → length s.put + total adds n s.pc ≤ max_size)
      → (t : System K V) × Goes n s t × ((i : ℕ) → i < n → t.pc i ≡ Pc.idle)
  calls_end {s = s} lo hi r unlisted room =
      let inv = Reach-Inv lo hi r (λ d. omega (arith, room d)) in
      let (t, steps, nothing) = finished (suc (total burden n s.pc)) inv room (omega arith) in
      (t, steps, λ i lt. unburdened (t.pc i) (omega (arith, nothing, total-pos burden n t.pc i lt)))
