-- ===== src/HashTable/Verdict.antt =====
-- The decision of `needsResize` (hashtable.h) as a function of three numbers.
use shared_memory_hashtable.Common.{
  ℕ, ◌+◌, ◌*◌, ◌/◌, ◌%◌, ◌≤◌, ◌<◌, ◌≢◌, ◌≡◌, ◌⊎◌, ◌&&◌, arith, if◌then◌else◌, ◌==◌, ltb, leb,
  size_mod, ℤ, pos, negsuc, to_size,
}
use shared_memory_hashtable.HashTable.Buckets.{max_size}

-- `needsResize` by size, capacity and the number `m` of entries that it expects.
abbrev pub verdict : ℕ → ℕ → ℕ → ℕ
verdict s c m =
    if s == 0
    then 0
    else if leb c 4
    then 1
    else if leb (3 * c) (4 * m)
    then 1
    else if ltb 0 m && leb (10 * m) c
    then 2
    else 0

abbrev pub next_capacity : ℕ → ℕ → ℕ
next_capacity v c = if v == 1 then c * 2 else if v == 2 then (c + 1) / 2 else c

-- `delta` is 1 or -1, as far as the policy goes.
abbrev pub IsUnit : ℤ → Type 0
IsUnit delta = (n : ℕ) → 1 ≤ n → n ≤ max_size → (n + to_size delta) % size_mod ≤ n + 1

pub one-IsUnit : IsUnit (pos 1)
one-IsUnit n lo hi = omega arith

pub minus_one-IsUnit : IsUnit (negsuc 0)
minus_one-IsUnit n lo hi = omega arith

-- Once the table has grown, the policy does not ask to shrink it.
pub grown : (s c m : ℕ) → 1 ≤ c → verdict s c m ≡ 1 → verdict s (c * 2) m ≢ 2
grown s c m lo v w = ground arith

-- Once it has shrunk, the policy does not ask to grow it.
pub shrunk : (s c m : ℕ) → verdict s c m ≡ 2 → verdict s ((c + 1) / 2) m ≢ 1
shrunk s c m v w = ground arith

pub verdict-one : (s c m : ℕ) → verdict s c m ≡ 1 → (s ≢ 0) × ((c ≤ 4) ⊎ (3 * c ≤ 4 * m))
verdict-one s c m v = ground arith

pub verdict-two : (s c m : ℕ) → verdict s c m ≡ 2 → (1 ≤ m) × (4 < c) × (10 * m ≤ c)
verdict-two s c m v = ground arith

pub verdict-cases : (s c m : ℕ) → (verdict s c m ≡ 0) ⊎ (verdict s c m ≡ 1) ⊎ (verdict s c m ≡ 2)
verdict-cases s c m = ground arith
