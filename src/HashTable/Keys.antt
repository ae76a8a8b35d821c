-- ===== src/HashTable/Keys.antt =====
-- What `HashTable` asks of its keys (hashtable.h, the concept `Hashable` and the `requires` clause):
-- `std::hash<K>` and an equality test.
use shared_memory_hashtable.Common.{ℕ, ◌≡◌, ◌↔◌, refl, Bool, true}

pub record Key {ℓ} (K : Type ℓ) : Type ℓ where
  pub equal : K → K → Bool
  pub hash : K → ℕ
  pub equal_iff : (a b : K) → (equal a b ≡ true) ↔ (a ≡ b)

module _ {ℓ} {K : Type ℓ} ⦃key : Key K⦄ where
  pub equal_refl : (a : K) → key.equal a a ≡ true
  equal_refl a = (key.equal_iff a a).1 refl
