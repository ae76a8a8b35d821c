-- ===== src/HashTable/Threads/Gathering.antt =====
-- What `getKeys` and `getValues` (hashtable.h) return while other threads work on the table.
use shared_memory_hashtable.Common.{
  ℕ, suc, ◌+◌, ◌%◌, ◌≤◌, ◌<◌, ◌≡◌, ◌≢◌, refl, ◌∙◌, sym, ap, subst, Bool, [], ◌++◌, arith, get_or,
  ok, ok-injective, update, update-cases, inl, inr, Bool-cases, if◌then◌else◌, ◌==◌,
}
use shared_memory_hashtable.HashTable.{at}
use shared_memory_hashtable.HashTable.Keys.{Key}
use shared_memory_hashtable.HashTable.Chains.{Chain, count, count-append}
use shared_memory_hashtable.HashTable.Buckets.{home, chain_of, at-get_or}
use shared_memory_hashtable.HashTable.Threads.{Pc, gathering, System, Step}
use shared_memory_hashtable.HashTable.Threads.Holding.{next_bucket, pairs_of}
use shared_memory_hashtable.HashTable.Threads.Invariant.{Inv}

module _ {ℓ} {K V : Type ℓ} ⦃key : Key K⦄ where
  pub data Steps (n : ℕ) (s : System K V) : System K V → Type ℓ where
    done : Steps n s s
    more : {t u : System K V} → Steps n s t → Step n t u → Steps n s u

  -- What a listing of thread `i` has from the buckets before `b`, when it goes on from a state `s`: a
  -- key that was not removed since is in it as often as it was in the table, and no key more often than
  -- it was inserted.
  pub record IsListing (s t : System K V) (b : ℕ) (pairs : Chain K V) : Type ℓ where
    pub covers :
        (q : K)
        → count q t.taken ≡ count q s.taken
        → home t.table q < b
        → count q (chain_of s.table q) ≤ count q pairs
    pub inserted : (q : K) → count q pairs ≤ count q t.put
    pub ahead : (q : K) → b ≤ home t.table q → count q pairs ≡ 0

  pub record IsSince (i : ℕ) (s t : System K V) : Type ℓ where
    pub taken : (q : K) → count q s.taken ≤ count q t.taken
    pub put : (q : K) → count q s.put ≤ count q t.put
    pub listing : {b : ℕ} {pairs : Chain K V} → t.pc i ≡ gathering b pairs → IsListing s t b pairs

  -- A step of another kind than those of a listing leaves the listings, if it leaves the capacity.
  pub carried :
      {s t : System K V} {i : ℕ} (u : System K V)
      → IsSince i s t
      → u.table.capacity ≡ t.table.capacity
      → ((q : K) → count q t.taken ≤ count q u.taken)
      → ((q : K) → count q t.put ≤ count q u.put)
      → ((b : ℕ) (pairs : Chain K V) → u.pc i ≡ gathering b pairs → t.pc i ≡ gathering b pairs)
      → IsSince i s u
  carried {s} {t} {i} u since same took gave place = record {
    taken = λ q. omega (arith, since.taken q, took q);
    put = λ q. omega (arith, since.put q, gave q);
    listing = λ {b} {pairs} h.
        let before = since.listing (place b pairs h) in
        record {
          covers = λ q kept below.
              before.covers q (omega (arith, kept, since.taken q, took q))
                (subst (λ c. key.hash q % c < b) same below);
          inserted = λ q. omega (arith, before.inserted q, gave q);
          ahead = λ q far. before.ahead q (subst (λ c. b ≤ key.hash q % c) same far);
        };
  }

  -- where a thread was before a step of thread `j` to a place `a` outside the listings
  pub stayed :
      (pc : ℕ → Pc K V) (j : ℕ) (a : Pc K V) {i b : ℕ} {pairs : Chain K V}
      → a ≢ gathering b pairs
      → update pc j a i ≡ gathering b pairs
      → pc i ≡ gathering b pairs
  stayed pc j a out h = elim (update-cases pc j a h) [
    | inl (same, here) ↦ absurd (out here)
    | inr (other, there) ↦ there
  ]

  -- a step that writes the place of a thread only
  pub walked :
      {s t : System K V} {i : ℕ} (j : ℕ) (a : Pc K V)
      → IsSince i s t
      → ((b : ℕ) (pairs : Chain K V) → a ≢ gathering b pairs)
      → IsSince i s (record t { pc = update t.pc j a })
  walked {t = t} j a since out =
      carried (record t { pc = update t.pc j a }) since refl (λ q. omega arith) (λ q. omega arith)
        (λ b pairs h. stayed t.pc j a (out b pairs) h)

  -- how often a key is listed once its bucket is read
  read :
      {n : ℕ} {dynamic : Bool} {s t : System K V} {b : ℕ} {pairs es : Chain K V} (q : K)
      → Inv n dynamic t
      → IsListing s t b pairs
      → get_or t.table.storage b [] ≡ es
      → count q (pairs ++ es)
        ≡ count q pairs + (if home t.table q == b then count q (chain_of t.table q) else 0)
  read {t = t} {b = b} {pairs = pairs} {es = es} q inv before node =
      elim (Bool-cases (home t.table q == b)) [
        | inl here ↦
            let e : home t.table q ≡ b = ground arith in
            let same : chain_of t.table q ≡ es = ap (λ x. get_or t.table.storage x []) e ∙ node in
            rw (here, count-append) (omega (arith, ap (count q) same))
        | inr elsewhere ↦
            let none_here = inv.placed q b (λ e. ground arith) in
            rw (elsewhere, count-append) (omega (arith, none_here, ap (count q) node))
      ]

  longer :
      {n : ℕ} {dynamic : Bool} {i : ℕ} {s t : System K V} {b : ℕ} {pairs es : Chain K V}
      → Inv n dynamic s
      → Inv n dynamic t
      → IsSince i s t
      → IsListing s t b pairs
      → get_or t.table.storage b [] ≡ es
      → IsListing s t (suc b) (pairs ++ es)
  longer {b = b} inv_s inv since before node = record {
    covers = λ q kept below.
        let listed_here = read q inv before node in
        ground
          (arith, listed_here, kept, inv_s.kept q, inv.kept q, since.put q, before.covers q kept);
    inserted = λ q.
        let listed_here = read q inv before node in
        ground (arith, listed_here, inv.kept q, before.inserted q, before.ahead q);
    ahead = λ q far.
        let listed_here = read q inv before node in
        ground (arith, listed_here, before.ahead q, far);
  }

  -- the call of `getKeys` or `getValues` by thread `j`
  pub listing_starts :
      {s t : System K V} {i : ℕ} (j : ℕ)
      → IsSince i s t
      → IsSince i s (record t { pc = update t.pc j (gathering 0 []) })
  unfolding count
  listing_starts {s} {t} j since = record {
    taken = since.taken;
    put = since.put;
    listing = λ {b} {pairs} h. elim (update-cases t.pc j (gathering 0 []) h) [
      | inr (other, there) ↦
          let before = since.listing there in
          record { covers = before.covers; inserted = before.inserted; ahead = before.ahead }
      | inl (same, here) ↦
          let first = ap next_bucket here in
          let none_yet = ap pairs_of here in
          record {
            covers = λ q kept below. absurd (omega (arith, first, below));
            inserted = λ q. omega (arith, ap (count q) none_yet);
            ahead = λ q far. sym (ap (count q) none_yet);
          }
    ];
  }

  -- a round of the loop of thread `j`
  pub listing_goes_on :
      {n : ℕ} {dynamic : Bool} {s t : System K V} {i : ℕ} (j : ℕ) {b : ℕ} {pairs es : Chain K V}
      → Inv n dynamic s
      → Inv n dynamic t
      → t.pc j ≡ gathering b pairs
      → b < t.table.capacity
      → at t.table.storage b ≡ ok es
      → IsSince i s t
      → IsSince i s (record t { pc = update t.pc j (gathering (suc b) (pairs ++ es)) })
  listing_goes_on {s = s} {t = t} j {b} {pairs} {es} inv_s inv e inside run since = record {
    taken = since.taken;
    put = since.put;
    listing = λ {b = b'} {pairs = pairs'} h.
        elim (update-cases t.pc j (gathering (suc b) (pairs ++ es)) h) [
          | inr (other, there) ↦
              let before = since.listing there in
              record { covers = before.covers; inserted = before.inserted; ahead = before.ahead }
          | inl (same, here) ↦
              let before = since.listing (ap t.pc (sym same) ∙ e) in
              let node : get_or t.table.storage b [] ≡ es = ok-injective (
                sym (at-get_or t.table.storage b [] (omega (arith, inside, inv.shape.allocated)))
                ∙ run) in
              let l = longer inv_s inv since before node in
              let m = subst (λ (p : Pc K V). IsListing s t (next_bucket p) (pairs_of p)) here l in
              record { covers = m.covers; inserted = m.inserted; ahead = m.ahead }
        ];
  }
