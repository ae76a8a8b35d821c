-- ===== src/HashTable/Chains.antt =====
-- One bucket's list of key/value pairs (hashtable.h, `Node::l`), as `std::find_if` and
-- `std::list::erase` work on it.
use shared_memory_hashtable.Common.{
  ℕ, suc, ◌+◌, ◌≤◌, ◌≡◌, refl, Option, none, some, List, [], ◌∷◌, ◌++◌, arith, length,
  if◌then◌else◌,
}
use mathlib.Core.Option.{or_else}
use shared_memory_hashtable.HashTable.Keys.{Key}

abbrev pub Chain {ℓ} : Type ℓ → Type ℓ → Type ℓ
Chain K V = List (K × V)

module _ {ℓ} {K V : Type ℓ} ⦃key : Key K⦄ where
  -- `bucket.l.erase(result)`
  unfoldable pub erase : K → Chain K V → Chain K V
  erase k [] = []
  erase k (p ∷ es) = if key.equal p.0 k then es else p ∷ erase k es

  -- `(*result).second` for the `result` of `std::find_if`, `none` at the end of the list
  unfoldable pub find : K → Chain K V → Option V
  find k [] = none
  find k (p ∷ es) = if key.equal p.0 k then some p.1 else find k es

  -- how often a key occurs
  unfoldable pub count : K → Chain K V → ℕ
  count k [] = 0
  count k (p ∷ es) = (if key.equal p.0 k then 1 else 0) + count k es

  pub count-append : (k : K) (es fs : Chain K V) → count k (es ++ fs) ≡ count k es + count k fs
  unfolding count
  count-append k [] fs = omega arith
  count-append k (p ∷ es) fs = omega (arith, count-append k es fs)

  pub count_pos : (k : K) (es : Chain K V) {v : V} → find k es ≡ some v → 1 ≤ count k es
  unfolding count find
  count_pos k [] {v} h = cc
  count_pos k (p ∷ es) {v} h = ground (arith, count_pos k es {v = v})

  pub count-eq-zero : (k : K) (es : Chain K V) → find k es ≡ none → count k es ≡ 0
  unfolding count find
  count-eq-zero k [] absent = refl
  count-eq-zero k (p ∷ es) absent = ground (arith, count-eq-zero k es)

  pub find-eq-none : (k : K) (es : Chain K V) → count k es ≡ 0 → find k es ≡ none
  unfolding count find
  find-eq-none k [] nowhere = refl
  find-eq-none k (p ∷ es) nowhere = ground (arith, find-eq-none k es)

  pub length-erase :
      (k : K) (es : Chain K V) {v : V} → find k es ≡ some v → suc (length (erase k es)) ≡ length es
  unfolding erase find
  length-erase k [] {v} h = cc
  length-erase k (p ∷ es) {v} h = ground (arith, length-erase k es {v = v})

  pub find-append :
      (k : K) (es fs : Chain K V) → find k (es ++ fs) ≡ or_else (find k es) (find k fs)
  unfolding find or_else
  find-append k [] fs = refl
  find-append k (p ∷ es) fs = rw (find-append k es fs) (ground arith)

  -- Erasing the one entry of a key leaves no entry of it, and every other key's.
  pub find-erase :
      (k q : K) (es : Chain K V)
      → count q es ≤ 1
      → find q (erase k es) ≡ (if key.equal k q then none else find q es)
  unfolding find erase count
  find-erase k q [] once = ground arith
  find-erase k q (p ∷ es) once = ground (
    arith,
    find-erase k q es,
    find-eq-none q es,
    key.equal_iff p.0 k,
    key.equal_iff p.0 q,
    key.equal_iff k q,
  )

  pub count-erase-le : (k q : K) (es : Chain K V) → count q (erase k es) ≤ count q es
  unfolding count erase
  count-erase-le k q [] = omega arith
  count-erase-le k q (p ∷ es) = ground (arith, count-erase-le k q es)
