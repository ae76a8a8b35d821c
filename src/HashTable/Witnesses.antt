-- ===== src/HashTable/Witnesses.antt =====
-- The theorems about the table (hashtable.h) at concrete tables.
use shared_memory_hashtable.Common.{
  ℕ, zero, suc, ◌*◌, ◌<◌, ◌-◌, ◌+◌, ◌%◌, ◌≢◌, ◌⊎◌, ◌≡◌, refl, Bool, true, false, none, some, List,
  [], ◌∷◌, arith, ◌==◌, ◌≤◌, if◌then◌else◌, fault, Returns, pos, end_iterator,
}
use shared_memory_hashtable.HashTable.{
  HashTable, rounds, resize_loop, rebuild, insert, remove, subscript, subscript_assign, get_bucket,
  print_table,
}
use shared_memory_hashtable.HashTable.Chains.{Chain, find, count}
use shared_memory_hashtable.HashTable.Buckets.{entries, IsPlaced, IsValid, view}
use shared_memory_hashtable.HashTable.Rehash.{Holds, rebuild-Holds}
use shared_memory_hashtable.HashTable.Verdict.{one-IsUnit}
use shared_memory_hashtable.HashTable.Resizing.{Settled, resize_loop-Settled}
use shared_memory_hashtable.HashTable.Operations.{
  Inserted, insert-Inserted, Removed, remove-Removed,
}
use shared_memory_hashtable.HashTable.Dictionary
use shared_memory_hashtable.HashTable.Dictionary.{Call, answers}
use shared_memory_hashtable.HashTable.Refinement.{calls, table_refines}
use shared_memory_hashtable.HashTable.Listing.{Lists, print_table-Lists, get_bucket_lem}
use shared_memory_hashtable.HashTable.Policy.{
  insert-load, insert-static, remove-load, subscript_assign-bound, subscript_assign-unbound,
}
use shared_memory_hashtable.HashTable.Examples.{int_key}

-- five buckets, of which the second and the third hold one entry each
abbrev buckets : List (Chain ℕ ℕ)
buckets = [] ∷ ((1, 10) ∷ []) ∷ ((7, 70) ∷ []) ∷ [] ∷ [] ∷ []

abbrev sample : Bool → HashTable ℕ ℕ
sample resizable = record { size = 2; capacity = 5; resizable = resizable; storage = buckets }

sample-IsPlaced : (r : Bool) → IsPlaced (sample r)
unfolding count
sample-IsPlaced r q zero = ground arith
sample-IsPlaced r q (suc zero) = ground arith
sample-IsPlaced r q (suc (suc zero)) = ground arith
sample-IsPlaced r q (suc (suc (suc zero))) = ground arith
sample-IsPlaced r q (suc (suc (suc (suc zero)))) = ground arith
sample-IsPlaced r q (suc (suc (suc (suc (suc i))))) = ground arith

sample-IsValid : (r : Bool) → IsValid (sample r)
unfolding entries
sample-IsValid r = record {
  wide = omega arith;
  bounded = omega arith;
  allocated = omega arith;
  placed = sample-IsPlaced r;
  counted = refl;
}

-- one bucket that is not resizable, and more than full
abbrev full : HashTable ℕ ℕ
full = record {
  size = 1;
  capacity = 1;
  resizable = false;
  storage = ((3, 30) ∷ []) ∷ [] ∷ [] ∷ [] ∷ [];
}

full-IsPlaced : IsPlaced full
unfolding count
full-IsPlaced q zero = ground arith
full-IsPlaced q (suc zero) = ground arith
full-IsPlaced q (suc (suc zero)) = ground arith
full-IsPlaced q (suc (suc (suc zero))) = ground arith
full-IsPlaced q (suc (suc (suc (suc i)))) = ground arith

full-IsValid : IsValid full
unfolding entries
full-IsValid = record {
  wide = omega arith;
  bounded = omega arith;
  allocated = omega arith;
  placed = full-IsPlaced;
  counted = refl;
}

view-seven : view (sample true) 7 ≡ some 70
unfolding view find
view-seven = refl

view-eight : view (sample true) 8 ≡ none
unfolding view find
view-eight = refl

view-full : view full 8 ≡ none
unfolding view find
view-full = refl

abbrev script : List (Call ℕ ℕ)
script =
    Dictionary.insert 8 80 ∷ Dictionary.get 7 ∷ Dictionary.remove 1 ∷ Dictionary.insert 7 1 ∷ []

table_refines_example : Returns (calls (sample true) script) λ r.
    (r.0 ≡ (answers (view (sample true)) script).0)
    × (view r.1 ≡ (answers (view (sample true)) script).1)
    × IsValid r.1
table_refines_example = table_refines script (sample-IsValid true) (omega arith)

insert-Inserted_example : Returns (insert (sample true) 8 80) (Inserted (sample true) 8 80)
insert-Inserted_example = insert-Inserted 8 80 (sample-IsValid true) (omega arith)

remove-Removed_example : Returns (remove (sample true) 7) (Removed (sample true) 7)
remove-Removed_example = remove-Removed 7 (sample-IsValid true) (omega arith)

resize_loop-Settled_example :
    Returns
      (resize_loop (rounds (sample true)) (sample true) (pos 1))
      (Settled (pos 1) (sample true))
resize_loop-Settled_example =
    resize_loop-Settled (pos 1) one-IsUnit (sample-IsValid true) (omega arith)

rebuild-Holds_example :
    Returns (rebuild (sample true) 3) (Holds 2 3 (sample true) (view (sample true)))
rebuild-Holds_example =
    rebuild-Holds 3 (sample-IsValid true) (omega arith) (omega arith) (omega arith)

sample-printed : Returns (print_table (sample true)) (Lists (sample true))
sample-printed = print_table-Lists (sample-IsValid true)

bucket_listed : Returns (get_bucket (sample true) 2) λ c.
    (q : ℕ) → (find q c ≡ (if 2 == q % 5 then view (sample true) q else none)) × (count q c ≤ 1)
bucket_listed = get_bucket_lem 2 (sample-IsValid true) (omega arith)

insert-load_example :
    Returns
      (insert (sample true) 8 80)
      λ r. (r.1.size ≡ 1) ⊎ ((4 < r.1.capacity) × (4 * r.1.size < 3 * r.1.capacity))
insert-load_example = insert-load 8 80 (sample-IsValid true) (omega arith) refl view-eight

full_takes_more :
    Returns
      (insert full 8 80)
      λ r. (r.0 ≡ true) × (r.1.size ≡ 1 + 1) × (r.1.capacity ≡ 1) × (view r.1 8 ≡ some 80)
full_takes_more = insert-static 8 80 full-IsValid (omega arith) refl (omega arith) view-full

remove-load_example : Returns (remove (sample true) 7) λ r.
    (4 < r.1.capacity)
    × (4 * (2 - 1) < 3 * r.1.capacity)
    × ((◌≡◌ {A = ℕ} 2 1) ⊎ (r.1.capacity < 10 * (2 - 1)))
remove-load_example = remove-load 7 (sample-IsValid true) (omega arith) refl (omega arith)

subscript_assign-bound_example : Returns (subscript_assign (sample true) 7 71) λ t'.
    IsValid t'
    × (t'.size ≡ 2)
    × ((q : ℕ) → view t' q ≡ (if 7 == q then some 71 else view (sample true) q))
subscript_assign-bound_example =
    subscript_assign-bound 7 71 (sample-IsValid true) (omega arith) bound
  where
    bound : view (sample true) 7 ≢ none
    bound e = cc view-seven

subscript_assign-unbound_example :
    (subscript (sample true) 8 ≡ fault end_iterator)
    × (subscript_assign (sample true) 8 80 ≡ fault end_iterator)
subscript_assign-unbound_example = subscript_assign-unbound 8 80 (sample-IsValid true) view-eight
