-- ===== src/HashTable/Policy.antt =====
-- Constructors, load limits and `operator[]` (hashtable.h).
use shared_memory_hashtable.Common.{
  ℕ, ◌+◌, ◌*◌, ◌≤◌, ◌<◌, ◌≢◌, ◌≡◌, ◌⊎◌, inl, inr, refl, sym, ◌∙◌, Bool, true, false, Bool-cases,
  none, some, Option-cases, arith, if◌then◌else◌, ltb, pos, negsuc, to_size, size_mod, ok, fault,
  end_iterator, Returns, ◌>>=◌, ◌-◌, ◌%◌,
}
use shared_memory_hashtable.HashTable.{
  HashTable, new_default, new_sized, needs_resize, load_verdict, load_factor, insert_absent, insert,
  remove, subscript, assign, subscript_assign, remove_found,
}
use shared_memory_hashtable.HashTable.Keys.{Key, equal_refl}
use shared_memory_hashtable.HashTable.Buckets.{
  max_capacity, max_size, IsValid, view, chain_of, hash-home, at-chain_of, insert_unsafe-Pushed,
  home,
}
use shared_memory_hashtable.HashTable.Rehash.{empty-IsValid, view-empty}
use shared_memory_hashtable.HashTable.Verdict.{one-IsUnit, minus_one-IsUnit}
use shared_memory_hashtable.HashTable.Resizing.{make_room-Roomy}
use shared_memory_hashtable.HashTable.Operations.{get-view, insert-Inserted, remove-Removed}

true-false : ¬ (true ≡ false)
true-false e = cc

module _ {ℓ} {K V : Type ℓ} ⦃key : Key K⦄ where
  abbrev pub IsEmpty : HashTable K V → Type ℓ
  IsEmpty t = IsValid t × (t.size ≡ 0) × ((q : K) → view t q ≡ none)

  pub new_default-IsEmpty : IsEmpty (new_default {K = K} {V = V})
  unfolding new_default
  new_default-IsEmpty =
      (empty-IsValid 4 4 true (omega arith) (omega arith) (omega arith), refl, view-empty 4 4 true)

  -- A positive requested capacity gives a valid table with that capacity and no binding.
  pub new_sized-IsEmpty :
      (c : ℕ) (resizable : Bool)
      → 1 ≤ c
      → c ≤ max_capacity
      → IsEmpty (new_sized {K = K} {V = V} c resizable)
        × ((new_sized {K = K} {V = V} c resizable).capacity ≡ c)
  unfolding new_sized
  new_sized-IsEmpty c resizable lo hi = elim (Bool-cases (ltb c 4)) [
    | inl few ↦
        rw few
          ((empty-IsValid c 4 resizable lo hi (ground arith), refl, view-empty c 4 resizable), refl)
    | inr enough ↦
        rw enough
          ((empty-IsValid c c resizable lo hi (omega arith), refl, view-empty c c resizable), refl)
  ]

  -- After a valid resizable table with fewer than 2 ^ 48 entries took a new key, it is less than
  -- three quarters full and has more than four buckets, unless it holds that key only.
  pub insert-load :
      {t : HashTable K V} (k : K) (v : V)
      → IsValid t
      → t.size < max_size
      → t.resizable ≡ true
      → view t k ≡ none
      → Returns
          (insert t k v)
          λ r. (r.1.size ≡ 1) ⊎ ((4 < r.1.capacity) × (4 * r.1.size < 3 * r.1.capacity))
  unfolding insert insert_absent needs_resize load_verdict load_factor
  insert-load {t} k v valid small dynamic absent =
      let (t₁, run₁, m) = make_room-Roomy (pos 1) one-IsUnit valid (omega arith) in
      let (t₂, run₂, p) =
        insert_unsafe-Pushed m.valid k v (m.reads k ∙ absent) (omega (arith, m.size)) in
      (
        (true, t₂),
        rw (get-view k valid, ◌>>=◌, absent, run₁, ◌>>=◌, run₂),
        ground (arith, m.content dynamic, m.size, p.size', p.capacity'),
      )

  -- A valid table that is not resizable and has as many entries as buckets or more, but fewer than
  -- 2 ^ 48, takes a new key: insert returns true, binds it, counts one entry more and keeps the
  -- capacity.
  pub insert-static :
      {t : HashTable K V} (k : K) (v : V)
      → IsValid t
      → t.size < max_size
      → t.resizable ≡ false
      → t.capacity ≤ t.size
      → view t k ≡ none
      → Returns (insert t k v) λ r.
        (r.0 ≡ true) × (r.1.size ≡ t.size + 1) × (r.1.capacity ≡ t.capacity) × (view r.1 k ≡ some v)
  insert-static {t} k v valid small static full absent =
      let (r, run, i) = insert-Inserted k v valid small in
      let done : r.0 ≡ true = i.result ∙ rw absent in
      let kept : r.1.capacity ≡ t.capacity = elim i.fixed [
        | inl e ↦ absurd (true-false (sym e ∙ static))
        | inr w ↦ w
      ] in
      (r, run, (done, rw done at (i.size), kept, i.reads k ∙ rw (done, equal_refl k)))

  -- After a removal from a valid resizable table with 1 to 2 ^ 48 entries there are more than four
  -- buckets. With n entries to begin with they are more than 4/3 (n - 1), and fewer than 10 (n - 1)
  -- unless n is 1.
  pub remove-load :
      {t : HashTable K V} (k : K)
      → IsValid t
      → t.size ≤ max_size
      → t.resizable ≡ true
      → 1 ≤ t.size
      → Returns (remove t k) λ r.
        (4 < r.1.capacity)
        × (4 * (t.size - 1) < 3 * r.1.capacity)
        × ((t.size ≡ 1) ⊎ (r.1.capacity < 10 * (t.size - 1)))
  unfolding remove remove_found needs_resize load_verdict load_factor view
  remove-load {t} k valid small dynamic some_left =
      let (t₁, run₁, m) = make_room-Roomy (negsuc 0) minus_one-IsUnit valid small in
      let close : (t₁.size + to_size (negsuc 0)) % size_mod ≡ t.size - 1 = omega (arith, m.size) in
      let content = m.content dynamic in
      (
        remove_found t₁ (home t₁ k) (chain_of t₁ k) k (view t₁ k),
        rw (run₁, ◌>>=◌, hash-home m.valid k, ◌>>=◌, at-chain_of m.valid k),
        elim (Option-cases (view t₁ k)) [
          | inl absent ↦ rw absent (ground arith)
          | inr (v, bound) ↦ rw bound (ground arith)
        ],
      )

  subscript-view :
      {t : HashTable K V} (k : K) {x : V} → IsValid t → view t k ≡ some x → subscript t k ≡ ok x
  unfolding subscript view
  subscript-view k valid bound = rw (hash-home valid k, ◌>>=◌, at-chain_of valid k, ◌>>=◌, bound)

  abbrev Rebound : HashTable K V → K → V → HashTable K V → Type ℓ
  Rebound t k v t' =
      IsValid t'
      × (t'.size ≡ t.size)
      × ((q : K) → view t' q ≡ (if key.equal k q then some v else view t q))

  assign-Rebound :
      {t : HashTable K V} (k : K) (v : V) {x : V}
      → IsValid t
      → t.size ≤ max_size
      → view t k ≡ some x
      → Returns (assign t k v) (Rebound t k v)
  unfolding assign
  assign-Rebound {t} k v {x} valid small bound =
      let (r, run₁, d) = remove-Removed k valid small in
      let was : r.0 ≡ some x = d.result ∙ bound in
      let less : r.1.size + 1 ≡ t.size = rw was at (d.size) in
      let free : view r.1 k ≡ none = d.reads k ∙ rw (equal_refl k) in
      let (s, run₂, i) = insert-Inserted k v d.valid (omega arith) in
      let done : s.0 ≡ true = i.result ∙ rw free in
      (
        s.1,
        rw (get-view k valid, ◌>>=◌, bound, run₁, ◌>>=◌, run₂),
        (i.valid, (rw done at (i.size)) ∙ less, λ q. ground (arith, i.reads q, d.reads q)),
      )

  -- On a valid table with at most 2 ^ 48 entries, table[k] = v on a bound key binds it to v, and
  -- leaves the table valid, its size, and what every other key is bound to.
  pub subscript_assign-bound :
      {t : HashTable K V} (k : K) (v : V)
      → IsValid t
      → t.size ≤ max_size
      → view t k ≢ none
      → Returns (subscript_assign t k v) λ t'.
        IsValid t'
        × (t'.size ≡ t.size)
        × ((q : K) → view t' q ≡ (if key.equal k q then some v else view t q))
  unfolding subscript_assign
  subscript_assign-bound {t} k v valid small bound = elim (Option-cases (view t k)) [
    | inl absent ↦ absurd (bound absent)
    | inr (x, e) ↦ rw (subscript-view k valid e) (assign-Rebound k v valid small e)
  ]

  -- On a valid table, table[k] on a key that is not bound reads through the end iterator of the
  -- chain, also on the left of an assignment.
  pub subscript_assign-unbound :
      {t : HashTable K V} (k : K) (v : V)
      → IsValid t
      → view t k ≡ none
      → (subscript t k ≡ fault end_iterator) × (subscript_assign t k v ≡ fault end_iterator)
  unfolding subscript_assign subscript view
  subscript_assign-unbound {t} k v valid absent =
      let reads = hash-home valid k in
      let chain = at-chain_of valid k in
      (rw (reads, ◌>>=◌, chain, ◌>>=◌, absent), rw (reads, ◌>>=◌, chain, ◌>>=◌, absent))
