-- ===== src/HashTable/Threads/Storing.antt =====
-- What the blocks of `insert` and `remove` under the lock of a bucket do to a table (hashtable.h).
use shared_memory_hashtable.Common.{
  ℕ, ap, none, false, size_mod, length-append, length-set, ◌+◌, ◌≤◌, ◌<◌, ◌≡◌, some, [], ◌∷◌, ◌++◌,
  arith, length, get_or, get_or-set, set, if◌then◌else◌, ◌==◌, ok, ◌>>=◌, ◌≢◌, Bool-cases, inl, inr,
}
use shared_memory_hashtable.HashTable.{HashTable, hash, at, get, insert_unsafe}
use shared_memory_hashtable.HashTable.Keys.{Key}
use mathlib.Core.Option.{or_else}
use shared_memory_hashtable.HashTable.Rehash.{or_else-none}
use shared_memory_hashtable.HashTable.Chains.{
  find-append, Chain, find, erase, count, count-append, count-erase-le,
}
use shared_memory_hashtable.HashTable.Buckets.{
  max_capacity, home, chain_of, entries, entries-set, at-get_or,
}
use shared_memory_hashtable.HashTable.Operations.{find-empty}
use shared_memory_hashtable.HashTable.Threads.{append, discard, count_up}

module _ {ℓ} {K V : Type ℓ} ⦃key : Key K⦄ where
  pub count-erase :
      (k q : K) (es : Chain K V) {v : V}
      → find k es ≡ some v
      → count q (erase k es) + (if key.equal k q then 1 else 0) ≡ count q es
  unfolding count erase find
  count-erase k q [] {v} h = cc
  count-erase k q (p ∷ es) {v} h = ground (
    arith,
    count-erase k q es {v = v},
    key.equal_iff p.0 k,
    key.equal_iff p.0 q,
    key.equal_iff k q,
  )

  -- the buckets that a table has
  pub record IsWide (t : HashTable K V) : Type ℓ where
    pub wide : 1 ≤ t.capacity
    pub allocated : t.capacity ≤ length t.storage

  -- Each key occurs in its home bucket only.
  abbrev pub IsHome : HashTable K V → Type ℓ
  IsHome t = (q : K) (i : ℕ) → i ≢ home t q → count q (get_or t.storage i []) ≡ 0

  abbrev pub rebucket : HashTable K V → K → Chain K V → HashTable K V
  rebucket t k c = record t { storage = set t.storage (home t k) c }

  module _ {t : HashTable K V} (shape : IsWide t) (k : K) where
    open shape use {wide, allocated}

    pub home-in : home t k < length t.storage
    home-in = omega arith

    pub hash-home : hash t k ≡ ok (home t k)
    unfolding hash
    hash-home = ground arith

    pub at-chain : at t.storage (home t k) ≡ ok (chain_of t k)
    at-chain = at-get_or t.storage (home t k) [] home-in

    pub insert_unsafe-rebucket :
        (v : V) → insert_unsafe t k v ≡ ok (count_up (rebucket t k (chain_of t k ++ (k, v) ∷ [])))
    unfolding insert_unsafe
    insert_unsafe-rebucket v = rw (hash-home, ◌>>=◌, at-chain)

    pub append-rebucket : (v : V) → append t k v ≡ ok (rebucket t k (chain_of t k ++ (k, v) ∷ []))
    unfolding append
    append-rebucket v = rw (hash-home, ◌>>=◌, at-chain)

    pub discard-rebucket : discard t k ≡ ok (rebucket t k (erase k (chain_of t k)))
    unfolding discard
    discard-rebucket = rw (hash-home, ◌>>=◌, at-chain)

    pub get-find : get t k ≡ ok (find k (chain_of t k))
    unfolding get
    get-find = rw (hash-home, ◌>>=◌, at-chain) (rw (find-empty k (chain_of t k)))

    pub chain-rebucket :
        (c : Chain K V) (b : ℕ)
        → get_or (rebucket t k c).storage b []
          ≡ (if home t k == b then c else get_or t.storage b [])
    chain-rebucket c b = get_or-set t.storage (home t k) b c [] home-in

    pub entries-rebucket :
        (c : Chain K V)
        → entries t.capacity (rebucket t k c).storage + length (chain_of t k)
          ≡ entries t.capacity t.storage + length c
    entries-rebucket c = entries-set t.capacity t.storage (home t k) c (omega arith) allocated

    pub rebucket-IsHome :
        (c : Chain K V)
        → IsHome t
        → ((q : K) → home t k ≢ home t q → count q c ≡ 0)
        → IsHome (rebucket t k c)
    rebucket-IsHome c placed apart q i ne = elim (Bool-cases (home t k == i)) [
      | inl same ↦ rw (chain-rebucket c i, same) (apart q (λ h. ne (ground (arith, h, same))))
      | inr other ↦ rw (chain-rebucket c i, other) (placed q i ne)
    ]

    -- One more entry of `k` in its bucket.
    pub pushed-IsHome : (v : V) → IsHome t → IsHome (rebucket t k (chain_of t k ++ (k, v) ∷ []))
    unfolding count
    pushed-IsHome v placed =
        rebucket-IsHome (chain_of t k ++ (k, v) ∷ []) placed
          (λ q ne. rw count-append (ground (arith, placed q (home t k) ne, key.equal_iff k q)))

    pub erased-IsHome : IsHome t → IsHome (rebucket t k (erase k (chain_of t k)))
    erased-IsHome placed =
        rebucket-IsHome (erase k (chain_of t k)) placed
          (λ q ne. omega (arith, placed q (home t k) ne, count-erase-le k q (chain_of t k)))

module _ {ℓ} {K V : Type ℓ} ⦃key : Key K⦄ where
  -- A table whose entries are in their buckets, and whose size counts them.
  pub record IsSpread (t : HashTable K V) : Type ℓ where
    pub shape : IsWide t
    pub bounded : t.capacity ≤ max_capacity
    pub placed : IsHome t
    pub counted : t.size ≡ entries t.capacity t.storage

  -- how often a key occurs, and what it is bound to, with one entry more
  pub chain-pushed :
      {t : HashTable K V} (shape : IsWide t) (k q : K) (v : V)
      → count q (chain_of (count_up (rebucket t k (chain_of t k ++ (k, v) ∷ []))) q)
        ≡ count q (chain_of t q) + (if key.equal k q then 1 else 0)
  unfolding count
  chain-pushed {t} shape k q v =
      rw (chain-rebucket shape k (chain_of t k ++ (k, v) ∷ []) (home t q))
        (elim (Bool-cases (home t k == home t q)) [
          | inl same ↦
              let e : home t k ≡ home t q = ground arith in
              rw (same, count-append) (rw e (omega arith))
          | inr other ↦
              let ne : key.equal k q ≡ false = ground (arith, key.equal_iff k q) in
              rw (other, ne) (omega arith)
        ])

  pub find-pushed :
      {t : HashTable K V} (shape : IsWide t) (k q : K) (v : V)
      → find q (chain_of (count_up (rebucket t k (chain_of t k ++ (k, v) ∷ []))) q)
        ≡ or_else (find q (chain_of t q)) (if key.equal k q then some v else none)
  unfolding find or_else
  find-pushed {t} shape k q v =
      rw (chain-rebucket shape k (chain_of t k ++ (k, v) ∷ []) (home t q))
        (elim (Bool-cases (home t k == home t q)) [
          | inl same ↦
              let e : home t k ≡ home t q = ground arith in
              let e' : chain_of t k ≡ chain_of t q = ap (λ b. get_or t.storage b []) e in
              rw (same, find-append, e')
          | inr other ↦
              let ne : key.equal k q ≡ false = ground (arith, key.equal_iff k q) in
              rw (other, ne, or_else-none)
        ])

  pub pushed-IsSpread :
      {t : HashTable K V} (k : K) (v : V)
      → IsSpread t
      → t.size + 1 < size_mod
      → IsSpread (count_up (rebucket t k (chain_of t k ++ (k, v) ∷ [])))
  pushed-IsSpread {t} k v spread few =
      let c = chain_of t k ++ (k, v) ∷ [] in
      let longer : length c ≡ length (chain_of t k) + 1 = rw length-append in
      record {
        shape = record {
          wide = spread.shape.wide;
          allocated = rw length-set spread.shape.allocated;
        };
        bounded = spread.bounded;
        placed = pushed-IsHome spread.shape k v spread.placed;
        counted = omega (arith, entries-rebucket spread.shape k c, spread.counted, longer);
      }
