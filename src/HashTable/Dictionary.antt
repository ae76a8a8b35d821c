-- ===== src/HashTable/Dictionary.antt =====
-- What a `HashTable` (hashtable.h) promises its users: a dictionary that forgets buckets, order and
-- capacity, and the replies to a sequence of calls.
use shared_memory_hashtable.Common.{
  Bool, true, false, Option, none, some, List, [], ◌∷◌, if◌then◌else◌,
}
use shared_memory_hashtable.HashTable.Keys.{Key}

pub data Call {ℓ} (K V : Type ℓ) : Type ℓ where
  insert : K → V → Call K V
  get : K → Call K V
  remove : K → Call K V

pub data Reply {ℓ} (V : Type ℓ) : Type ℓ where
  inserted : Bool → Reply V
  found : Option V → Reply V

abbrev pub Dictionary {ℓ} : Type ℓ → Type ℓ → Type ℓ
Dictionary K V = K → Option V

module _ {ℓ} {K V : Type ℓ} ⦃key : Key K⦄ where
  abbrev pub rebind : Dictionary K V → K → Option V → Dictionary K V
  rebind d k x q = if key.equal k q then x else d q

  -- An insertion does not overwrite.
  unfoldable pub insert_new : Dictionary K V → K → V → Option V → Reply V × Dictionary K V
  insert_new d k v none = (inserted true, rebind d k (some v))
  insert_new d k v (some _) = (inserted false, d)

  unfoldable pub answer : Dictionary K V → Call K V → Reply V × Dictionary K V
  unfolding insert_new
  answer d (insert k v) = insert_new d k v (d k)
  answer d (get k) = (found (d k), d)
  answer d (remove k) = (found (d k), rebind d k none)

  unfoldable pub answers : Dictionary K V → List (Call K V) → List (Reply V) × Dictionary K V
  answers d [] = ([], d)
  answers d (c ∷ cs) = let (r, d₁) = answer d c in let (rs, d₂) = answers d₁ cs in (r ∷ rs, d₂)
