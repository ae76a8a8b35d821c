-- ===== src/HashTable/Buckets.antt =====
-- Where the entries of a `HashTable` (hashtable.h) stand, what a key is bound to, and what writing
-- one bucket does to both.
use shared_memory_hashtable.Common.{
  ℕ, zero, suc, ◌+◌, ◌%◌, ◌^◌, ◌≤◌, ◌<◌, max, ◌≡◌, refl, ◌∙◌, false, Option, none, some, List, [],
  ◌∷◌, ◌++◌, arith, length, length-set, length-append, get_or, get_or-set, set, if◌then◌else◌, ◌==◌,
  increment, ok, Returns, ◌>>=◌, Bool-cases, ap, inl, inr, ◌*◌, get_elem?-get_or,
}
use mathlib.Core.Option.{or_else}
use shared_memory_hashtable.HashTable.{HashTable, at, hash, insert_unsafe}
use shared_memory_hashtable.HashTable.Keys.{Key}
use shared_memory_hashtable.HashTable.Chains.{
  Chain, find, count, find-append, count-append, count-eq-zero,
}

-- The range in which `double` comparisons of load factors are exact, and no `size_t` wraps.
abbrev pub max_capacity : ℕ
max_capacity = 2 ^ 50

abbrev pub max_size : ℕ
max_size = 2 ^ 48

-- the entries of the first `n` buckets
unfoldable pub entries {ℓ} : {A : Type ℓ} → ℕ → List (List A) → ℕ
entries zero bs = 0
entries (suc n) [] = 0
entries (suc n) (b ∷ bs) = length b + entries n bs

pub entries-set {ℓ} :
    {A : Type ℓ} (n : ℕ) (bs : List (List A)) (i : ℕ) (c : List A)
    → i < n
    → n ≤ length bs
    → entries n (set bs i c) + length (get_or bs i []) ≡ entries n bs + length c
unfolding entries
entries-set zero bs i c h w = absurd (omega arith)
entries-set (suc n) [] i c h w = absurd (omega arith)
entries-set (suc n) (b ∷ bs) zero c h w = omega arith
entries-set (suc n) (b ∷ bs) (suc i) c h w =
    omega (arith, entries-set n bs i c (omega arith) (omega arith))

pub at-get_or {ℓ} :
    {A : Type ℓ} (xs : List A) (i : ℕ) (d : A) → i < length xs → at xs i ≡ ok (get_or xs i d)
unfolding at
at-get_or xs i d h = rw (get_elem?-get_or d xs i h, at)

module _ {ℓ} {K V : Type ℓ} ⦃key : Key K⦄ where
  abbrev pub home : HashTable K V → K → ℕ
  home t k = key.hash k % t.capacity

  abbrev pub chain_of : HashTable K V → K → Chain K V
  chain_of t k = get_or t.storage (home t k) []

  -- what a key is bound to
  unfoldable pub view : HashTable K V → K → Option V
  view t k = find k (chain_of t k)

  -- Each key occurs at most once, in its home bucket and in no other.
  abbrev pub IsPlaced : HashTable K V → Type ℓ
  IsPlaced t = (q : K) (i : ℕ) → count q (get_or t.storage i []) ≤ (if i == home t q then 1 else 0)

  pub record IsValid (t : HashTable K V) : Type ℓ where
    pub wide : 1 ≤ t.capacity
    pub bounded : t.capacity ≤ max_capacity
    pub allocated : t.capacity ≤ length t.storage
    pub placed : IsPlaced t
    pub counted : t.size ≡ entries t.capacity t.storage

  -- `t` with the home bucket of `k` replaced
  abbrev pub put : HashTable K V → K → Chain K V → ℕ → HashTable K V
  put t k c n = record t { storage = set t.storage (home t k) c; size = n }

  module _ {t : HashTable K V} (valid : IsValid t) (k : K) where
    open valid use {wide, allocated, placed}

    pub home-lt : home t k < length t.storage
    home-lt = omega arith

    pub hash-home : hash t k ≡ ok (home t k)
    unfolding hash
    hash-home = ground arith

    pub at-chain_of : at t.storage (home t k) ≡ ok (chain_of t k)
    at-chain_of = at-get_or t.storage (home t k) [] home-lt

    pub chain_of-le-size : length (chain_of t k) ≤ t.size
    chain_of-le-size = omega (
      arith,
      valid.counted,
      entries-set t.capacity t.storage (home t k) [] (omega arith) allocated,
    )

    pub put-IsValid :
        (c : Chain K V) (n : ℕ)
        → ((q : K) → count q c ≤ max (count q (chain_of t k)) (if key.equal k q then 1 else 0))
        → n + length (chain_of t k) ≡ t.size + length c
        → IsValid (put t k c n)
    put-IsValid c n few sized = record {
      wide = wide;
      bounded = valid.bounded;
      allocated = rw length-set allocated;
      placed = λ q i.
          rw (get_or-set t.storage (home t k) i c [] home-lt)
            (ground (arith, few q, placed q i, key.equal_iff k q));
      counted =
          omega (arith, entries-set t.capacity t.storage (home t k) c (omega arith) allocated);
    }

    pub view-put :
        (c : Chain K V) (n : ℕ) (x : Option V)
        → ((q : K) → find q c ≡ (if key.equal k q then x else find q (chain_of t k)))
        → (q : K) → view (put t k c n) q ≡ (if key.equal k q then x else view t q)
    unfolding view
    view-put c n x reads q =
        rw (get_or-set t.storage (home t k) (home t q) c [] home-lt)
          (elim (Bool-cases (home t k == home t q)) [
            | inl together ↦
                let e : home t k ≡ home t q = ground arith in
                rw together (
                  reads q ∙ ap (λ i. if key.equal k q then x else find q (get_or t.storage i [])) e)
            | inr apart ↦
                let ne : key.equal k q ≡ false = ground (arith, key.equal_iff k q) in rw (apart, ne)
          ])

    -- `insert_unsafe` of a key that is not bound: it binds the key, and one entry more is counted.
    pub record Pushed (v : V) (t' : HashTable K V) : Type ℓ where
      pub valid' : IsValid t'
      pub size' : t'.size ≡ t.size + 1
      pub capacity' : t'.capacity ≡ t.capacity
      pub resizable' : t'.resizable ≡ t.resizable
      pub reads' : (q : K) → view t' q ≡ (if key.equal k q then some v else view t q)

    pub insert_unsafe-Pushed :
        (v : V) → view t k ≡ none → t.size < 2 * max_size → Returns (insert_unsafe t k v) (Pushed v)
    unfolding insert_unsafe view count find or_else
    insert_unsafe-Pushed v absent small =
        let c = chain_of t k in
        let none_here : count k c ≡ 0 = count-eq-zero k c absent in
        (
          put t k (c ++ (k, v) ∷ []) (increment t.size),
          rw (hash-home, ◌>>=◌, at-chain_of),
          record {
            valid' =
                put-IsValid (c ++ (k, v) ∷ []) (increment t.size)
                  (λ q. rw count-append (ground (arith, none_here, key.equal_iff k q)))
                  (rw length-append (omega arith));
            size' = omega arith;
            capacity' = refl;
            resizable' = refl;
            reads' =
                view-put (c ++ (k, v) ∷ []) (increment t.size) (some v)
                  (λ q. rw find-append (ground (arith, absent, key.equal_iff k q)));
          },
        )
