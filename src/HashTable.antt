-- ===== src/HashTable.antt =====
-- The class template `HashTable` (hashtable.h), one call at a time: no lock appears here. A chain
-- that the code changes through a reference is written back to the storage.
pub mod Keys
pub mod Chains
pub mod Buckets
pub mod Rehash
pub mod Pairs
pub mod Verdict
pub mod Resizing
pub mod Operations
pub mod Dictionary
pub mod Refinement
pub mod Listing
pub mod Policy
pub mod Threads
mod Examples
mod Witnesses
use shared_memory_hashtable.Common.{
  ℕ, zero, suc, ◌+◌, ◌*◌, ◌/◌, ◌%◌, Bool, true, false, ◌&&◌, Option, none, some, List, [], ◌∷◌,
  ◌++◌, map, length, set, replicate, if◌then◌else◌, ltb, leb, ◌==◌, size_mod, increment, decrement,
  ℤ, pos, negsuc, to_size, Run, ok, fault, division_by_zero, out_of_range, end_iterator, diverged,
  ◌>>=◌, get_elem?,
}
use shared_memory_hashtable.HashTable.Keys.{Key}
use shared_memory_hashtable.HashTable.Chains.{Chain, find, erase}

pub record HashTable {ℓ} (K V : Type ℓ) : Type ℓ where
  pub size : ℕ
  pub capacity : ℕ
  pub resizable : Bool
  pub storage : List (Chain K V)

-- the default constructor
unfoldable pub new_default {ℓ} : {K V : Type ℓ} → HashTable K V
new_default = record { size = 0; capacity = 4; resizable = true; storage = replicate 4 [] }

-- `HashTable(cap, resizable)`: at least four nodes are allocated, and `_capacity` is `cap` all the same.
unfoldable pub new_sized {ℓ} : {K V : Type ℓ} → ℕ → Bool → HashTable K V
new_sized cap resizable = record {
  size = 0;
  capacity = cap;
  resizable = resizable;
  storage = if ltb cap 4 then replicate 4 [] else replicate cap [];
}

-- A load factor, as the exact quotient of two `size_t` values. Below 2 ^ 50 the comparisons of the
-- rounded `double` with 0.75, 0.10 and 0.0 come out as those of the exact quotient.
pub record Ratio : Type 0 where
  pub num : ℕ
  pub den : ℕ

-- `lf >= ALPHA_MAX`
abbrev pub at_least_max : Ratio → Bool
at_least_max lf = leb (3 * lf.den) (4 * lf.num)

-- `lf > 0.0 && lf <= ALPHA_MIN`
abbrev pub at_most_min : Ratio → Bool
at_most_min lf = ltb 0 lf.num && leb (10 * lf.num) lf.den

module _ {ℓ} {K V : Type ℓ} where
  pub load_factor : HashTable K V → ℤ → Ratio
  load_factor t delta =
      if t.capacity == 0
      then record { num = 0; den = 1 }
      else record { num = (t.size + to_size delta) % size_mod; den = t.capacity }

  -- `needsResize` behind its test of `_size`
  pub load_verdict : HashTable K V → ℤ → ℕ
  unfolding load_factor
  load_verdict t delta =
      if leb t.capacity 4
      then 1
      else if at_least_max (load_factor t delta)
      then 1
      else if at_most_min (load_factor t delta)
      then 2
      else 0

  pub needs_resize : HashTable K V → ℤ → ℕ
  unfolding load_verdict
  needs_resize t delta = if t.size == 0 then 0 else load_verdict t delta

-- `_storage[i]`
unfoldable pub at {ℓ} : {A : Type ℓ} → List A → ℕ → Run A
at nodes i = elim (get_elem? nodes i) [ some node ↦ ok node | none ↦ fault out_of_range ]

-- The loop of `collectPairs`: the first `n` buckets, each spliced to the front of `l` and emptied.
pub collect_pairs {ℓ} :
    {K V : Type ℓ} → ℕ → List (Chain K V) → Chain K V → Run (Chain K V × List (Chain K V))
collect_pairs zero bs l = ok (l, bs)
collect_pairs (suc n) [] l = fault out_of_range
collect_pairs (suc n) (b ∷ bs) l = collect_pairs n bs (b ++ l) >>= λ r. ok (r.0, [] ∷ r.1)

module _ {ℓ} {K V : Type ℓ} ⦃key : Key K⦄ where
  -- the private member function `hash`
  unfoldable pub hash : HashTable K V → K → Run ℕ
  hash t k = if t.capacity == 0 then fault division_by_zero else ok (key.hash k % t.capacity)

  pub insert_unsafe : HashTable K V → K → V → Run (HashTable K V)
  unfolding hash at
  insert_unsafe t k v = do
    i ← hash t k
    c ← at t.storage i
    ok (record t { storage = set t.storage i (c ++ (k, v) ∷ []); size = increment t.size })

  -- `for(auto& elem : old_elems) insert_unsafe(…)`
  pub insert_all : Chain K V → HashTable K V → Run (HashTable K V)
  insert_all [] t = ok t
  insert_all ((k, v) ∷ es) t = insert_unsafe t k v >>= insert_all es

  -- the body of both cases of `resize`, with the new capacity
  pub rebuild : HashTable K V → ℕ → Run (HashTable K V)
  rebuild t capacity = do
    (old_elems, _) ← collect_pairs t.capacity t.storage []
    insert_all old_elems
        (record t { storage = replicate capacity []; capacity = capacity; size = 0 })

  pub resize : HashTable K V → ℤ → Run (HashTable K V)
  resize t delta =
      if needs_resize t delta == 1
      then rebuild t (t.capacity * 2 % size_mod)
      else if needs_resize t delta == 2
      then rebuild t ((t.capacity + 1) % size_mod / 2)
      else ok t

  -- `while(needsResize(delta)) { …; resize(delta); … }`
  pub resize_loop : ℕ → HashTable K V → ℤ → Run (HashTable K V)
  resize_loop zero t delta = fault diverged
  resize_loop (suc fuel) t delta = elim (needs_resize t delta == 0) [
    | true ↦ ok t
    | false ↦ resize t delta >>= λ t'. resize_loop fuel t' delta
  ]

  -- rounds that `resize_loop` is given
  abbrev pub rounds : HashTable K V → ℕ
  rounds t = 4 * t.size + t.capacity + 32

  -- `if(_resizable) while …`
  pub make_room : HashTable K V → ℤ → Run (HashTable K V)
  make_room t delta = if t.resizable then resize_loop (rounds t) t delta else ok t

  unfoldable pub get : HashTable K V → K → Run (Option V)
  unfolding hash at
  get t k = do i ← hash t k; c ← at t.storage i; ok (if length c == 0 then none else find k c)

  -- the part of `insert` behind its early return
  pub insert_absent : HashTable K V → K → V → Run (Bool × HashTable K V)
  unfolding insert_unsafe
  insert_absent t k v = do t' ← make_room t (pos 1); t'' ← insert_unsafe t' k v; ok (true, t'')

  pub insert : HashTable K V → K → V → Run (Bool × HashTable K V)
  unfolding insert_absent
  insert t k v = do
    entry ← get t k
    elim entry [ some _ ↦ ok (false, t) | none ↦ insert_absent t k v ]

  -- the part of `remove` behind its resizing
  pub remove_found : HashTable K V → ℕ → Chain K V → K → Option V → Option V × HashTable K V
  remove_found t i c k none = (none, t)
  remove_found t i c k (some v) =
      (some v, record t { size = decrement t.size; storage = set t.storage i (erase k c) })

  pub remove : HashTable K V → K → Run (Option V × HashTable K V)
  unfolding hash at remove_found
  remove t k = do
    t' ← make_room t (negsuc 0)
    i ← hash t' k
    c ← at t'.storage i
    ok (remove_found t' i c k (find k c))

  -- `operator[]`: the `element` of the `Proxy`. Past the end of the chain it reads through `end()`.
  pub subscript : HashTable K V → K → Run V
  unfolding hash at
  subscript t k = do
    i ← hash t k
    c ← at t.storage i
    elim (find k c) [ some v ↦ ok v | none ↦ fault end_iterator ]

  -- `Proxy::operator=`
  pub assign : HashTable K V → K → V → Run (HashTable K V)
  assign t k rhs = do
    entry ← get t k
    elim entry [
      | some _ ↦ remove t k >>= λ r. insert r.1 k rhs >>= λ s. ok s.1
      | none ↦ insert t k rhs >>= λ s. ok s.1
    ]

  -- `table[k] = rhs`
  pub subscript_assign : HashTable K V → K → V → Run (HashTable K V)
  unfolding subscript assign
  subscript_assign t k rhs = subscript t k >>= λ _. assign t k rhs

module _ {ℓ} {K V : Type ℓ} where
  -- `size`, `capacity` and `isResizable`
  pub size_of : HashTable K V → ℕ
  size_of t = t.size

  pub capacity_of : HashTable K V → ℕ
  capacity_of t = t.capacity

  pub is_resizable : HashTable K V → Bool
  is_resizable t = t.resizable

  unfoldable pub get_bucket : HashTable K V → ℕ → Run (Chain K V)
  unfolding at
  get_bucket t i = at t.storage i

  -- the loop of `getKeys` and `getValues`, over the first `n` buckets
  pub gather {κ} : {A : Type κ} → (K × V → A) → ℕ → List (Chain K V) → Run (List A)
  gather f zero bs = ok []
  gather f (suc n) [] = fault out_of_range
  gather f (suc n) (b ∷ bs) = gather f n bs >>= λ r. ok (map f b ++ r)

  pub get_keys : HashTable K V → Run (List K)
  unfolding gather
  get_keys t = gather (λ e. e.0) t.capacity t.storage

  pub get_values : HashTable K V → Run (List V)
  unfolding gather
  get_values t = gather (λ e. e.1) t.capacity t.storage

  -- The loop of `print_table`: it tests only the iterator of the keys.
  pub print_lines : List K → List V → Run (List (K × V))
  print_lines [] vs = ok []
  print_lines (k ∷ ks) [] = fault end_iterator
  print_lines (k ∷ ks) (v ∷ vs) = print_lines ks vs >>= λ r. ok ((k, v) ∷ r)

  -- the lines that `print_table` writes
  pub print_table : HashTable K V → Run (List (K × V))
  unfolding get_keys get_values print_lines
  print_table t = do keys ← get_keys t; values ← get_values t; print_lines keys values
