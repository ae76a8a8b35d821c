-- ===== src/HashTable/Threads/Holding.antt =====
-- Who holds the buckets of a `HashTable` (hashtable.h) in write mode, counted over threads and buckets.
use shared_memory_hashtable.Common.{
  ℕ, zero, suc, ◌+◌, ◌≤◌, ◌<◌, ◌≡◌, ◌≢◌, refl, List, [], ◌∷◌, arith, length, get_or, if◌then◌else◌,
  ltb, ◌==◌, Bool-cases, inl, inr, subst, update, update_ne, total, total-update, total-pos,
}
use shared_memory_hashtable.HashTable.{HashTable}
use shared_memory_hashtable.HashTable.Keys.{Key}
use shared_memory_hashtable.HashTable.Chains.{Chain}
use shared_memory_hashtable.HashTable.Buckets.{home, entries}
use shared_memory_hashtable.HashTable.Threads.{
  Pc, calling, gathering, holds, shares, asking, measuring, resizing, working, entering, Stage,
}

-- a weight that is the sum of two
pub total-split {ℓ} :
    {A : Type ℓ} (w f g : A → ℕ) (n : ℕ) (p : ℕ → A)
    → ((a : A) → w a ≡ f a + g a)
    → total w n p ≡ total f n p + total g n p
unfolding total
total-split w f g zero p h = omega arith
total-split w f g (suc n) p h = omega (arith, h (p n), total-split w f g n p h)

total-none {ℓ} :
    {A : Type ℓ} (w : A → ℕ) (n : ℕ) (p : ℕ → A) → ((a : A) → w a ≡ 0) → total w n p ≡ 0
unfolding total
total-none w zero p h = refl
total-none w (suc n) p h = omega (arith, h (p n), total-none w n p h)

pub total-le {ℓ} :
    {A : Type ℓ} (w v : A → ℕ) (n : ℕ) (p : ℕ → A)
    → ((a : A) → w a ≤ v a)
    → total w n p ≤ total v n p
unfolding total
total-le w v zero p h = omega arith
total-le w v (suc n) p h = omega (arith, h (p n), total-le w v n p h)

-- Two threads that weigh something are counted twice.
pub total-pair {ℓ} :
    {A : Type ℓ} (w : A → ℕ) (n : ℕ) (p : ℕ → A) (i j : ℕ) (a : A)
    → i < n
    → j < n
    → i ≢ j
    → w a ≡ 0
    → w (p i) + w (p j) ≤ total w n p
total-pair w n p i j a hi hj ne calm =
    let rest = rw (update_ne p i j a ne) at (total-pos w n (update p i a) j hj) in
    omega (arith, calm, rest, total-update w n p i a hi)

entries-suc {ℓ} :
    {A : Type ℓ} (m : ℕ) (bs : List (List A))
    → m < length bs
    → entries (suc m) bs ≡ entries m bs + length (get_or bs m [])
unfolding entries
entries-suc m [] h = absurd (omega arith)
entries-suc zero (b ∷ bs) h = omega arith
entries-suc (suc m) (b ∷ bs) h = omega (arith, entries-suc m bs (omega arith))

abbrev in_loop : Stage → ℕ
in_loop entering = 0
in_loop asking = 1
in_loop measuring = 1
in_loop resizing = 1
in_loop working = 0

module _ {ℓ} {K V : Type ℓ} ⦃key : Key K⦄ where
  -- whether a thread holds a bucket, and one of the first `m` buckets
  abbrev pub busy : Pc K V → ℕ
  busy Pc.idle = 0
  busy (calling st op) = 0
  busy (gathering i pairs) = 0
  busy (Pc.pushed k) = 1
  busy (Pc.uncounted k v) = 1

  -- the listing of a thread: the next bucket, and the pairs so far
  abbrev pub next_bucket : Pc K V → ℕ
  next_bucket Pc.idle = 0
  next_bucket (calling st op) = 0
  next_bucket (gathering b pairs) = b
  next_bucket (Pc.pushed k) = 0
  next_bucket (Pc.uncounted k v) = 0

  abbrev pub pairs_of : Pc K V → Chain K V
  pairs_of Pc.idle = []
  pairs_of (calling st op) = []
  pairs_of (gathering b pairs) = pairs
  pairs_of (Pc.pushed k) = []
  pairs_of (Pc.uncounted k v) = []

  -- whether a thread is in the loop of `needsResize`
  abbrev pub looping : Pc K V → ℕ
  looping Pc.idle = 0
  looping (calling st op) = in_loop st
  looping (gathering i pairs) = 0
  looping (Pc.pushed k) = 0
  looping (Pc.uncounted k v) = 0

  pub holds-le-busy : (t : HashTable K V) (b : ℕ) (p : Pc K V) → holds t b p ≤ busy p
  holds-le-busy t b Pc.idle = omega arith
  holds-le-busy t b (calling st op) = omega arith
  holds-le-busy t b (gathering i pairs) = omega arith
  holds-le-busy t b (Pc.pushed k) = ground arith
  holds-le-busy t b (Pc.uncounted k v) = ground arith

  pub busy-le-shares : (p : Pc K V) → busy p ≤ shares p
  busy-le-shares Pc.idle = omega arith
  busy-le-shares (calling st op) = omega arith
  busy-le-shares (gathering i pairs) = omega arith
  busy-le-shares (Pc.pushed k) = omega arith
  busy-le-shares (Pc.uncounted k v) = omega arith

  abbrev holds_below : HashTable K V → ℕ → Pc K V → ℕ
  holds_below t m Pc.idle = 0
  holds_below t m (calling st op) = 0
  holds_below t m (gathering i pairs) = 0
  holds_below t m (Pc.pushed k) = if ltb (home t k) m then 1 else 0
  holds_below t m (Pc.uncounted k v) = if ltb (home t k) m then 1 else 0

  holds_below-suc :
      (t : HashTable K V) (m : ℕ) (p : Pc K V)
      → holds_below t (suc m) p ≡ holds_below t m p + holds t m p
  holds_below-suc t m Pc.idle = refl
  holds_below-suc t m (calling st op) = refl
  holds_below-suc t m (gathering i pairs) = refl
  holds_below-suc t m (Pc.pushed k) = ground arith
  holds_below-suc t m (Pc.uncounted k v) = ground arith

  busy-holds_below :
      (t : HashTable K V) → 1 ≤ t.capacity → (p : Pc K V) → busy p ≡ holds_below t t.capacity p + 0
  busy-holds_below t wide Pc.idle = refl
  busy-holds_below t wide (calling st op) = refl
  busy-holds_below t wide (gathering i pairs) = refl
  busy-holds_below t wide (Pc.pushed k) = ground arith
  busy-holds_below t wide (Pc.uncounted k v) = ground arith

  holds_below-zero : (t : HashTable K V) (p : Pc K V) → holds_below t 0 p ≡ 0
  holds_below-zero t Pc.idle = refl
  holds_below-zero t (calling st op) = refl
  holds_below-zero t (gathering i pairs) = refl
  holds_below-zero t (Pc.pushed k) = ground arith
  holds_below-zero t (Pc.uncounted k v) = ground arith

  -- If no bucket has more holders than entries, the holders of the first `m` buckets are no more than
  -- the entries there; and an unheld bucket has all its entries left over.
  spare :
      (t : HashTable K V) (n : ℕ) (pc : ℕ → Pc K V) (b : ℕ)
      → ((i : ℕ) → total (holds t i) n pc ≤ length (get_or t.storage i []))
      → total (holds t b) n pc ≡ 0
      → (m : ℕ) → m ≤ length t.storage
      → total (holds_below t m) n pc + (if ltb b m then length (get_or t.storage b []) else 0)
        ≤ entries m t.storage
  spare t n pc b backed free zero h =
      let none_held = total-none (holds_below t 0) n pc (holds_below-zero t) in ground arith
  spare t n pc b backed free (suc m) h =
      let before = spare t n pc b backed free m (omega arith) in
      let here = backed m in
      let more = entries-suc m t.storage (omega arith) in
      let sum =
        total-split (holds_below t (suc m)) (holds_below t m) (holds t m) n pc
          (holds_below-suc t m) in
      elim (Bool-cases (b == m)) [
        | inl same ↦
            let e : b ≡ m = ground arith in
            let unheld : total (holds t m) n pc ≡ 0 =
              subst (λ x. total (holds t x) n pc ≡ 0) e free in
            rw e (ground (arith, before))
        | inr other ↦ ground (arith, before)
      ]

  -- All entries of an unheld bucket are counted.
  pub busy-entries :
      (t : HashTable K V) (n : ℕ) (pc : ℕ → Pc K V) (b : ℕ)
      → 1 ≤ t.capacity
      → t.capacity ≤ length t.storage
      → ((i : ℕ) → total (holds t i) n pc ≤ length (get_or t.storage i []))
      → total (holds t b) n pc ≡ 0
      → b < t.capacity
      → total busy n pc + length (get_or t.storage b []) ≤ entries t.capacity t.storage
  busy-entries t n pc b wide allocated backed free lt =
      let all = spare t n pc b backed free t.capacity allocated in
      let zeros = total-none (λ p. 0) n pc (λ p. refl) in
      let sum =
        total-split busy (holds_below t t.capacity) (λ p. 0) n pc (busy-holds_below t wide) in
      ground (arith, all, sum, zeros)
