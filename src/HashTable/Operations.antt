-- ===== src/HashTable/Operations.antt =====
-- What `get`, `insert` and `remove` (hashtable.h) do, in terms of what each key is bound to.
use shared_memory_hashtable.Common.{
  ◌+◌, ◌≤◌, ◌<◌, ◌≡◌, ◌⊎◌, inl, inr, refl, ◌∙◌, Bool, true, false, ◌&&◌, Option, none, some,
  Option-cases, [], ◌∷◌, length, arith, if◌then◌else◌, ◌==◌, Bool-cases, pos, negsuc, decrement, ok,
  Returns, ◌>>=◌, sym, ap, not,
}
use shared_memory_hashtable.HashTable.{HashTable, get, insert_absent, insert, remove_found, remove}
use shared_memory_hashtable.HashTable.Keys.{Key}
use shared_memory_hashtable.HashTable.Chains.{
  Chain, find, erase, find-erase, count-erase-le, length-erase,
}
use shared_memory_hashtable.HashTable.Buckets.{
  max_size, IsValid, view, home, chain_of, put-IsValid, view-put, hash-home, at-chain_of,
  insert_unsafe-Pushed, chain_of-le-size,
}
use shared_memory_hashtable.HashTable.Verdict.{one-IsUnit, minus_one-IsUnit}
use shared_memory_hashtable.HashTable.Resizing.{make_room-Roomy}

abbrev pub is_some {ℓ} : {A : Type ℓ} → Option A → Bool
is_some none = false
is_some (some _) = true

module _ {ℓ} {K V : Type ℓ} ⦃key : Key K⦄ where
  pub find-empty : (k : K) (c : Chain K V) → (if length c == 0 then none else find k c) ≡ find k c
  unfolding find
  find-empty k [] = refl
  find-empty k (e ∷ c) = ground arith

  -- In a valid table `get` does not fault and returns what the key is bound to.
  pub get-view : {t : HashTable K V} (k : K) → IsValid t → get t k ≡ ok (view t k)
  unfolding get view
  get-view {t} k valid =
      rw (hash-home valid k, ◌>>=◌, at-chain_of valid k) (rw (find-empty k (chain_of t k)))

  pub record Inserted (t : HashTable K V) (k : K) (v : V) (r : Bool × HashTable K V) : Type ℓ where
    pub result : r.0 ≡ not (is_some (view t k))
    pub valid : IsValid r.1
    pub size : r.1.size ≡ t.size + (if r.0 then 1 else 0)
    pub reads : (q : K) → view r.1 q ≡ (if r.0 && key.equal k q then some v else view t q)
    pub refused : (r.0 ≡ true) ⊎ (r.1 ≡ t)
    pub fixed : (t.resizable ≡ true) ⊎ (r.1.capacity ≡ t.capacity)
    pub resizable : r.1.resizable ≡ t.resizable

  insert_absent-Inserted :
      {t : HashTable K V} (k : K) (v : V)
      → IsValid t
      → t.size < max_size
      → view t k ≡ none
      → Returns (insert_absent t k v) (Inserted t k v)
  unfolding insert_absent
  insert_absent-Inserted {t} k v valid small absent =
      let (t₁, run₁, m) = make_room-Roomy (pos 1) one-IsUnit valid (omega arith) in
      let (t₂, run₂, p) =
        insert_unsafe-Pushed m.valid k v (m.reads k ∙ absent) (omega (arith, m.size)) in
      (
        (true, t₂),
        rw (run₁, ◌>>=◌, run₂),
        record {
          result = rw absent;
          valid = p.valid';
          size = omega (arith, m.size, p.size');
          reads = λ q. ground (arith, p.reads' q, m.reads q);
          refused = inl refl;
          fixed = elim (Bool-cases t.resizable) [
            | inl e ↦ inl e
            | inr e ↦ inr (p.capacity' ∙ ap (λ (u : HashTable K V). u.capacity) (m.fixed e))
          ];
          resizable = p.resizable' ∙ m.resizable;
        },
      )

  -- On a valid table with fewer than 2 ^ 48 entries insert does not fault. It returns whether the
  -- key was unbound; if so it binds the key, changes no other, and the size grows by one; if not
  -- the table is the one before. The table stays valid, and one that is not resizable keeps its
  -- capacity.
  pub insert-Inserted :
      {t : HashTable K V} (k : K) (v : V)
      → IsValid t
      → t.size < max_size
      → Returns (insert t k v) (Inserted t k v)
  unfolding insert
  insert-Inserted {t} k v valid small = elim (Option-cases (view t k)) [
    | inl absent ↦
        rw (get-view k valid, ◌>>=◌, absent) (insert_absent-Inserted k v valid small absent)
    | inr (old, bound) ↦ (
      (false, t),
      rw (get-view k valid, ◌>>=◌, bound),
      record {
        result = rw bound;
        valid = valid;
        size = omega arith;
        reads = λ q. refl;
        refused = inr refl;
        fixed = inr refl;
        resizable = refl;
      },
    )
  ]

  pub record Removed (t : HashTable K V) (k : K) (r : Option V × HashTable K V) : Type ℓ where
    pub result : r.0 ≡ view t k
    pub valid : IsValid r.1
    pub size : r.1.size + (if is_some r.0 then 1 else 0) ≡ t.size
    pub reads : (q : K) → view r.1 q ≡ (if key.equal k q then none else view t q)
    pub fixed : (t.resizable ≡ true) ⊎ (r.1.capacity ≡ t.capacity)
    pub resizable : r.1.resizable ≡ t.resizable

  -- the decrement of `_size` does not wrap: a bound key has an entry that is counted
  decrement-size :
      {t : HashTable K V} (k : K) {v : V}
      → IsValid t
      → t.size ≤ max_size
      → find k (chain_of t k) ≡ some v
      → decrement t.size + 1 ≡ t.size
  decrement-size {t} k {v} valid small bound =
      omega (arith, chain_of-le-size valid k, length-erase k (chain_of t k) {v = v} bound)

  remove_found-Removed :
      {t : HashTable K V} (k : K)
      → IsValid t
      → t.size ≤ max_size
      → Removed t k (remove_found t (home t k) (chain_of t k) k (view t k))
  unfolding remove_found view
  remove_found-Removed {t} k valid small = elim (Option-cases (view t k)) [
    | inl absent ↦ rw absent (record {
      result = sym absent;
      valid = valid;
      size = omega arith;
      reads = λ q. ground (arith, key.equal_iff k q);
      fixed = inr refl;
      resizable = refl;
    })
    | inr (old, bound) ↦
        let c = chain_of t k in
        let less = decrement-size k valid small bound in
        rw bound (record {
          result = sym bound;
          valid =
              put-IsValid valid k (erase k c) (decrement t.size)
                (λ q. omega (arith, count-erase-le k q c))
                (omega (arith, length-erase k c {v = old} bound));
          size = less;
          reads =
              view-put valid k (erase k c) (decrement t.size) none
                (λ q. find-erase k q c (ground (arith, valid.placed q (home t k))));
          fixed = inr refl;
          resizable = refl;
        })
  ]

  -- On a valid table with at most 2 ^ 48 entries remove does not fault. It returns what the key was
  -- bound to, unbinds it, changes no other key, and the size falls by one if the key was bound. The
  -- table stays valid, and one that is not resizable keeps its capacity.
  pub remove-Removed :
      {t : HashTable K V} (k : K)
      → IsValid t
      → t.size ≤ max_size
      → Returns (remove t k) (Removed t k)
  unfolding remove view
  remove-Removed {t} k valid small =
      let (t₁, run₁, m) = make_room-Roomy (negsuc 0) minus_one-IsUnit valid small in
      let r = remove_found-Removed k m.valid (omega (arith, m.size)) in
      (
        remove_found t₁ (home t₁ k) (chain_of t₁ k) k (view t₁ k),
        rw (run₁, ◌>>=◌, hash-home m.valid k, ◌>>=◌, at-chain_of m.valid k),
        record {
          result = r.result ∙ m.reads k;
          valid = r.valid;
          size = r.size ∙ m.size;
          reads = λ q. ground (arith, r.reads q, m.reads q);
          fixed = elim (Bool-cases t.resizable) [
            | inl e ↦ inl e
            | inr e ↦ elim r.fixed [
              | inl d ↦ inl (sym m.resizable ∙ d)
              | inr w ↦ inr (w ∙ ap (λ (u : HashTable K V). u.capacity) (m.fixed e))
            ]
          ];
          resizable = r.resizable ∙ m.resizable;
        },
      )
