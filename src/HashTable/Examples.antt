-- ===== src/HashTable/Examples.antt =====
-- Runs of the table over `int` keys, after the cases of hashtable_tests.cpp.
use shared_memory_hashtable.Common.{
  ℕ, zero, suc, ◌≡◌, refl, Bool, true, false, Option, none, some, List, [], ◌∷◌, arith, ◌==◌, ◌↔◌,
  Run, ok, fault, ◌>>=◌, end_iterator,
}
use shared_memory_hashtable.HashTable.{
  HashTable, new_default, new_sized, load_factor, needs_resize, load_verdict, at, collect_pairs,
  hash, insert_unsafe, insert_all, rebuild, resize, resize_loop, make_room, get, insert_absent,
  insert, remove_found, remove, subscript, subscript_assign, assign, get_bucket, gather, get_keys,
  get_values, print_lines, print_table,
}
use shared_memory_hashtable.HashTable.Keys.{Key}
use shared_memory_hashtable.HashTable.Chains.{find, erase}

pub int_equal_iff : (a b : ℕ) → ((a == b) ≡ true) ↔ (a ≡ b)
int_equal_iff a b = ground arith

instance abbrev pub int_key : Key ℕ
int_key = record { equal = ◌==◌; hash = λ n. n; equal_iff = int_equal_iff }

-- what the runs below compute with
program : ℕ
unfolding new_default new_sized load_factor needs_resize load_verdict at collect_pairs hash
    insert_unsafe insert_all rebuild resize resize_loop make_room get insert_absent insert
    remove_found remove subscript assign subscript_assign get_bucket gather get_keys get_values
    print_lines print_table find erase
program = 0

fill : ℕ → HashTable ℕ ℕ → Run (HashTable ℕ ℕ)
unfolding program
fill zero t = ok t
fill (suc n) t = fill n t >>= λ t'. insert t' n n >>= λ r. ok r.1

drain : ℕ → HashTable ℕ ℕ → Run (HashTable ℕ ℕ)
unfolding program
drain zero t = ok t
drain (suc n) t = drain n t >>= λ t'. remove t' n >>= λ r. ok r.1

abbrev sizes : HashTable ℕ ℕ → ℕ × ℕ
sizes t = (t.size, t.capacity)

-- "growing and shrinking the HashTable"
abbrev growing : Run (List (ℕ × ℕ))
growing = do
  t ← fill 7 (new_sized 10 true)
  (_, u) ← insert t 8 8
  v ← drain 5 u
  (_, w) ← remove v 5
  ok (sizes t ∷ sizes u ∷ sizes v ∷ sizes w ∷ [])

grows_and_shrinks : growing ≡ ok ((7, 10) ∷ (8, 20) ∷ (3, 20) ∷ (2, 10) ∷ [])
unfolding fill drain
grows_and_shrinks = refl

-- "remove missing key."
abbrev removing : Run (Option ℕ × ℕ × ℕ)
removing = do t ← fill 2 (new_sized 10 true); (v, u) ← remove t 5; ok (v, u.size, u.capacity)

shrinks_on_a_missing_key : removing ≡ ok (none, 2, 5)
unfolding fill
shrinks_on_a_missing_key = refl

abbrev inserting : Run (Bool × Option ℕ)
inserting = do t ← fill 3 new_default; (done, u) ← insert t 2 3; v ← get u 2; ok (done, v)

no_duplicates : inserting ≡ ok (false, some 2)
unfolding fill
no_duplicates = refl

subscript_of_a_missing_key : subscript {K = ℕ} {V = ℕ} new_default 3 ≡ fault end_iterator
unfolding program
subscript_of_a_missing_key = refl

printed : (fill 3 new_default >>= print_table) ≡ ok ((0, 0) ∷ (1, 1) ∷ (2, 2) ∷ [])
unfolding fill
printed = refl
