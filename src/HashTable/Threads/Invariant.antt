-- ===== src/HashTable/Threads/Invariant.antt =====
-- What holds in every interleaving of `get`, `insert` and `remove` (hashtable.h).
use shared_memory_hashtable.Common.{
  ℕ, zero, ◌+◌, ◌≤◌, ◌<◌, ◌≡◌, ◌≢◌, refl, Option, ◌∙◌, ap, Bool, false, some, [], arith, length,
  length-set, get_or, size_mod, if◌then◌else◌, ◌==◌, update, update-cases, inl, inr, total,
  total-update, total-pos,
}
use shared_memory_hashtable.HashTable.{HashTable}
use shared_memory_hashtable.HashTable.Keys.{Key}
use shared_memory_hashtable.HashTable.Chains.{Chain, find, count}
use shared_memory_hashtable.HashTable.Buckets.{home, chain_of, entries, max_capacity}
use shared_memory_hashtable.HashTable.Threads.{Pc, System, holds, shares, Unlocked}
use shared_memory_hashtable.HashTable.Threads.Holding.{
  busy, looping, total-pair, total-le, holds-le-busy, busy-le-shares,
}
use shared_memory_hashtable.HashTable.Threads.Storing.{
  IsWide, IsHome, rebucket, chain-rebucket, entries-rebucket,
}
use shared_memory_hashtable.HashTable.Threads.Rehashing.{Copies}

apart-of : (a b : ℕ) → (if a == b then 1 else 0) ≡ zero → (b == a) ≡ false
apart-of a b h = ground arith

module _ {ℓ} {K V : Type ℓ} ⦃key : Key K⦄ where
  pub record Inv (n : ℕ) (dynamic : Bool) (s : System K V) : Type ℓ where
    pub kind : s.table.resizable ≡ dynamic
    pub shape : IsWide s.table
    pub bounded : s.table.capacity ≤ max_capacity
    pub placed : IsHome s.table
    pub unasked : dynamic ≡ false → total looping n s.pc ≡ 0
    pub locked : (b : ℕ) → total (holds s.table b) n s.pc ≤ 1
    pub backed : (b : ℕ) → total (holds s.table b) n s.pc ≤ length (get_or s.table.storage b [])
    pub found :
        (i : ℕ) {k : K} {v : V}
        → i < n
        → s.pc i ≡ Pc.uncounted k v
        → find k (chain_of s.table k) ≡ some v
    pub kept : (q : K) → count q (chain_of s.table q) + count q s.taken ≡ count q s.put
    pub logged : entries s.table.capacity s.table.storage + length s.taken ≡ length s.put
    pub sized :
        length s.put < size_mod
        → s.table.size + total busy n s.pc ≡ entries s.table.capacity s.table.storage

  -- no thread but `i` holds the bucket of `k`
  abbrev pub Alone : ℕ → System K V → ℕ → K → Type 0
  Alone n s i k = (j : ℕ) → j < n → i ≢ j → holds s.table (home s.table k) (s.pc j) ≡ 0

  pub Unlocked-Alone : (n : ℕ) (s : System K V) (i : ℕ) (k : K) → Unlocked n s k → Alone n s i k
  Unlocked-Alone n s i k free j lt ne =
      omega (arith, free, total-pos (holds s.table (home s.table k)) n s.pc j lt)

  pub held-Alone :
      {n : ℕ} {dynamic : Bool} {s : System K V} (i : ℕ) (k : K)
      → Inv n dynamic s
      → i < n
      → holds s.table (home s.table k) (s.pc i) ≡ 1
      → Alone n s i k
  held-Alone {n} {s} i k inv lt mine j ltj ne = omega (
    arith,
    mine,
    inv.locked (home s.table k),
    total-pair (holds s.table (home s.table k)) n s.pc i j Pc.idle lt ltj ne refl,
  )

  -- what the step of thread `i` does to a count over the threads
  moved :
      {n : ℕ} (pc : ℕ → Pc K V) (w : Pc K V → ℕ) (i : ℕ) {p : Pc K V} (a : Pc K V)
      → i < n
      → pc i ≡ p
      → total w n (update pc i a) + w p ≡ total w n pc + w a
  moved {n} pc w i a lt e = rw e at (total-update w n pc i a lt)

  -- A step that leaves the buckets as they are.
  pub Repointed :
      {n : ℕ} {dynamic : Bool} {s : System K V} (i : ℕ) {p : Pc K V} (a : Pc K V) (size : ℕ)
      → Inv n dynamic s
      → i < n
      → s.pc i ≡ p
      → ((b : ℕ)
          → (total (holds s.table b) n s.pc + holds s.table b a ≤ 1 + holds s.table b p)
            × (total (holds s.table b) n s.pc + holds s.table b a
                ≤ length (get_or s.table.storage b []) + holds s.table b p))
      → ((k : K) (v : V) → a ≡ Pc.uncounted k v → find k (chain_of s.table k) ≡ some v)
      → (length s.put < size_mod
          → size + total busy n s.pc + busy a ≡ entries s.table.capacity s.table.storage + busy p)
      → (dynamic ≡ false → looping a ≡ 0)
      → Inv n dynamic (record s { table = record (s.table) { size = size }; pc = update s.pc i a })
  Repointed {s = s} i a size inv lt e free own sized unasked = record {
    kind = inv.kind;
    bounded = inv.bounded;
    placed = inv.placed;
    unasked = λ d. omega (arith, unasked d, inv.unasked d, moved s.pc looping i a lt e);
    shape = record { wide = inv.shape.wide; allocated = inv.shape.allocated };
    locked = λ b. omega (arith, (free b).0, moved s.pc (holds s.table b) i a lt e);
    backed = λ b. omega (arith, (free b).1, moved s.pc (holds s.table b) i a lt e);
    found = λ j {k} {v} ltj h. elim (update-cases s.pc i a h) [
      | inl (same, mine) ↦ own k v mine
      | inr (other, theirs) ↦ inv.found j ltj theirs
    ];
    kept = inv.kept;
    logged = inv.logged;
    sized = λ few. omega (arith, sized few, moved s.pc busy i a lt e);
  }

  -- A step of a thread that holds no bucket before or after it, and leaves the table as it is.
  pub Walked :
      {n : ℕ} {dynamic : Bool} {s : System K V} (i : ℕ) {p : Pc K V} (a : Pc K V)
      → Inv n dynamic s
      → i < n
      → s.pc i ≡ p
      → busy p ≡ 0
      → busy a ≡ 0
      → (dynamic ≡ false → looping a ≡ 0)
      → Inv n dynamic (record s { pc = update s.pc i a })
  Walked {s = s} i {p} a inv lt e before after unasked =
      Repointed i a s.table.size inv lt e
        (λ b.
          let none_after = holds-le-busy s.table b a in
          (
            omega (arith, inv.locked b, after, none_after),
            omega (arith, inv.backed b, after, none_after),
          ))
        (λ k v h. let held = ap busy h in absurd (omega (arith, held, after)))
        (λ few. omega (arith, inv.sized few, before, after)) unasked

  -- `resize` of a thread, when no thread holds `glock`
  pub Rehashed :
      {n : ℕ} {dynamic : Bool} {s : System K V} {c : ℕ} {g : K → Option V} {es : Chain K V}
      {t' : HashTable K V} (i : ℕ) {p : Pc K V} (a : Pc K V)
      → Inv n dynamic s
      → i < n
      → s.pc i ≡ p
      → total shares n s.pc ≡ 0
      → shares a ≡ 0
      → looping a ≡ 0
      → s.table.size ≡ entries s.table.capacity s.table.storage
      → Copies s.table.size c s.table.resizable (λ q. count q (chain_of s.table q)) g es t'
      → Inv n dynamic (record s { table = t'; pc = update s.pc i a })
  Rehashed {n} {s = s} {t' = t'} i a inv lt e free out done exact h =
      let outside : total shares n (update s.pc i a) ≡ 0 =
        omega (arith, free, out, moved s.pc shares i a lt e) in
      let calm : total busy n (update s.pc i a) ≡ 0 =
        omega (arith, outside, total-le busy shares n (update s.pc i a) busy-le-shares) in
      let unheld : (b : ℕ) → total (holds t' b) n (update s.pc i a) ≡ 0 = λ b.
        omega (arith, calm, total-le (holds t' b) busy n (update s.pc i a) (holds-le-busy t' b)) in
      record {
        kind = h.resizable ∙ inv.kind;
        bounded = h.spread.bounded;
        placed = h.spread.placed;
        shape = h.spread.shape;
        unasked = λ d. omega (arith, done, inv.unasked d, moved s.pc looping i a lt e);
        locked = λ b. omega (arith, unheld b);
        backed = λ b. omega (arith, unheld b);
        found = λ j {k} {v} ltj here.
            let weight = ap busy here in
            absurd (omega (arith, weight, calm, total-pos busy n (update s.pc i a) j ltj));
        kept = λ q. omega (arith, h.copies q, inv.kept q);
        logged = omega (arith, inv.logged, h.size, h.spread.counted, exact);
        sized = λ few. omega (arith, calm, h.spread.counted);
      }

  -- A step that writes the bucket of `k`, which no other thread holds.
  pub Rebucketed :
      {n : ℕ} {dynamic : Bool} {s : System K V} (i : ℕ) {p : Pc K V} (a : Pc K V) (k : K)
      (c put taken : Chain K V)
      → Inv n dynamic s
      → i < n
      → s.pc i ≡ p
      → Alone n s i k
      → ((b : ℕ)
          → (total (holds s.table b) n s.pc + holds s.table b a ≤ 1 + holds s.table b p)
            × (total (holds s.table b) n s.pc + holds s.table b a
                ≤ length (if home s.table k == b then c else get_or s.table.storage b [])
                  + holds s.table b p))
      → ((q : K) (v : V) → a ≢ Pc.uncounted q v)
      → ((q : K)
          → count q (if home s.table k == home s.table q then c else chain_of s.table q)
              + count q taken
            ≡ count q put)
      → entries s.table.capacity s.table.storage + length c + length taken
        ≡ length put + length (chain_of s.table k)
      → (length put < size_mod
          → s.table.size + total busy n s.pc + busy a + length (chain_of s.table k)
            ≡ entries s.table.capacity s.table.storage + length c + busy p)
      → IsHome (rebucket s.table k c)
      → looping a ≡ 0
      → Inv n dynamic
          (record { table = rebucket s.table k c; pc = update s.pc i a; put = put; taken = taken })
  Rebucketed {s = s} i a k c put taken inv lt e alone free own kept logged sized placed done =
      let shape = inv.shape in
      let grown = entries-rebucket shape k c in
      record {
        kind = inv.kind;
        bounded = inv.bounded;
        placed = placed;
        unasked = λ d. omega (arith, done, inv.unasked d, moved s.pc looping i a lt e);
        shape = record { wide = shape.wide; allocated = rw length-set shape.allocated };
        locked = λ b. omega (arith, (free b).0, moved s.pc (holds s.table b) i a lt e);
        backed = λ b.
            rw (chain-rebucket shape k c b)
              (omega (arith, (free b).1, moved s.pc (holds s.table b) i a lt e));
        found = λ j {k = q} {v = v} ltj h. elim (update-cases s.pc i a h) [
          | inl (same, mine) ↦ absurd (own q v mine)
          | inr (other, theirs) ↦
              let apart =
                apart-of (home s.table q) (home s.table k) (rw theirs at (alone j ltj other)) in
              rw (chain-rebucket shape k c (home s.table q), apart) (inv.found j ltj theirs)
        ];
        kept = λ q. rw (chain-rebucket shape k c (home s.table q)) (kept q);
        logged = omega (arith, logged, grown);
        sized = λ few. omega (arith, sized few, grown, moved s.pc busy i a lt e);
      }
