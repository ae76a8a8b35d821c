-- ===== src/HashTable/Threads/Going.antt =====
-- Steps in calls (hashtable.h) that have begun: threads go on, and no call begins.
use shared_memory_hashtable.Common.{ℕ}
use shared_memory_hashtable.HashTable.Keys.{Key}
use shared_memory_hashtable.HashTable.Threads.{
  System, Step, look, look_bucket, look_up, list, miss, call,
}

module _ {ℓ} {K V : Type ℓ} ⦃key : Key K⦄ where
  abbrev pub Continues : {n : ℕ} {s t : System K V} → Step n s t → Type 0
  Continues (look i k lt e free run) = ⊥
  Continues (look_bucket i b lt e free run) = ⊥
  Continues (look_up i k lt e free run) = ⊥
  Continues (list i lt e) = ⊥
  Continues (miss i k v lt e free run) = ⊥
  Continues (call i k lt e) = ⊥
  Continues _ = Unit

  -- any number of such steps
  pub data Goes (n : ℕ) : System K V → System K V → Type ℓ where
    stay : {s : System K V} → Goes n s s
    go : {s t u : System K V} (st : Step n s t) → Continues st → Goes n t u → Goes n s u

  pub Goes-append : {n : ℕ} {s t u : System K V} → Goes n s t → Goes n t u → Goes n s u
  Goes-append stay r' = r'
  Goes-append (go st c r) r' = go st c (Goes-append r r')
