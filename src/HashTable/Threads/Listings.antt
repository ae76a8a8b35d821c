-- ===== src/HashTable/Threads/Listings.antt =====
-- Every step of another thread leaves a listing of `getKeys` or `getValues` (hashtable.h) what it is.
use shared_memory_hashtable.Common.{
  ℕ, ◌≤◌, ◌<◌, ◌≡◌, ◌≢◌, refl, ◌∙◌, sym, ap, Bool, true, ◌∷◌, arith, length, ok-injective, update,
  total, total-pos,
}
use shared_memory_hashtable.HashTable.{HashTable}
use shared_memory_hashtable.HashTable.Keys.{Key}
use shared_memory_hashtable.HashTable.Chains.{Chain, count}
use shared_memory_hashtable.HashTable.Buckets.{chain_of, max_capacity, max_size}
use shared_memory_hashtable.HashTable.Threads.{
  Pc, calling, gathering, entering, working, measuring, resizing, put_call, cut_call, shares,
  first_stage, count_up, count_down, System, Step, look, look_bucket, look_up, list, gather, listed,
  miss, call, enter, content, ask, settled, unsettled, rehash, push, lack, uncount, drop, Reach,
}
use shared_memory_hashtable.HashTable.Threads.Storing.{append-rebucket, discard-rebucket}
use shared_memory_hashtable.HashTable.Threads.Invariant.{Inv}
use shared_memory_hashtable.HashTable.Threads.Exclusive.{Fits}
use shared_memory_hashtable.HashTable.Threads.Preserved.{Step-Fits, Step-Inv, Reach-Inv}
use shared_memory_hashtable.HashTable.Threads.Gathering.{
  Steps, done, more, IsSince, carried, stayed, walked, listing_starts, listing_goes_on,
}

module _ {ℓ} {K V : Type ℓ} ⦃key : Key K⦄ where
  -- a step to a place outside the listings that keeps the capacity
  worked :
      {s t : System K V} {i : ℕ} (j : ℕ) (a : Pc K V) (table : HashTable K V)
      (put taken : Chain K V)
      → IsSince i s t
      → table.capacity ≡ t.table.capacity
      → ((q : K) → count q t.taken ≤ count q taken)
      → ((q : K) → count q t.put ≤ count q put)
      → ((b : ℕ) (pairs : Chain K V) → a ≢ gathering b pairs)
      → IsSince i s (record { table = table; pc = update t.pc j a; put = put; taken = taken })
  worked {t = t} j a table put taken since same took gave out =
      carried (record { table = table; pc = update t.pc j a; put = put; taken = taken }) since same
        took gave (λ b pairs h. stayed t.pc j a (out b pairs) h)

  -- No listing is on its way when the table is resized.
  rehashed :
      {n : ℕ} {s t : System K V} {i : ℕ} (j : ℕ) (a : Pc K V) (table : HashTable K V)
      → i < n
      → total shares n t.pc ≡ 0
      → ((b : ℕ) (pairs : Chain K V) → a ≢ gathering b pairs)
      → IsSince i s t
      → IsSince i s (record t { table = table; pc = update t.pc j a })
  rehashed {n} {t = t} {i = i} j a table lt free out since = record {
    taken = since.taken;
    put = since.put;
    listing = λ {b} {pairs} h.
        let weight : shares (t.pc i) ≡ 1 = ap shares (stayed t.pc j a (out b pairs) h) in
        absurd (omega (arith, weight, free, total-pos shares n t.pc i lt));
  }

  Step-IsSince :
      {n : ℕ} {dynamic : Bool} {s t u : System K V} {i : ℕ}
      → i < n
      → Inv n dynamic s
      → Inv n dynamic t
      → Step n t u
      → IsSince i s t
      → IsSince i s u
  unfolding count
  Step-IsSince lt inv_s inv (look j k ltj e free run) since = since
  Step-IsSince lt inv_s inv (look_bucket j b ltj e free run) since = since
  Step-IsSince lt inv_s inv (look_up j k ltj e free run) since = since
  Step-IsSince lt inv_s inv (list j ltj e) since = listing_starts j since
  Step-IsSince lt inv_s inv (gather j ltj e inside free run) since =
      listing_goes_on j inv_s inv e inside run since
  Step-IsSince lt inv_s inv (listed j ltj e end) since = walked j Pc.idle since (λ b pairs h. cc)
  Step-IsSince lt inv_s inv (miss j k v ltj e free run) since =
      walked j (calling entering (put_call k v)) since (λ b pairs h. cc)
  Step-IsSince lt inv_s inv (call j k ltj e) since =
      walked j (calling entering (cut_call k)) since (λ b pairs h. cc)
  Step-IsSince {t = t} lt inv_s inv (enter j {op} ltj e) since =
      walked j (calling (first_stage t.table) op) since (λ b pairs h. cc)
  Step-IsSince lt inv_s inv (content j {op} ltj e none_in) since =
      walked j (calling working op) since (λ b pairs h. cc)
  Step-IsSince lt inv_s inv (ask j {op} ltj e some_in) since =
      walked j (calling measuring op) since (λ b pairs h. cc)
  Step-IsSince lt inv_s inv (settled j {op} ltj e fine) since =
      walked j (calling working op) since (λ b pairs h. cc)
  Step-IsSince lt inv_s inv (unsettled j {op} ltj e wrong) since =
      walked j (calling resizing op) since (λ b pairs h. cc)
  Step-IsSince lt inv_s inv (rehash j {op} {t'} ltj e free run) since =
      rehashed j (calling entering op) t' lt free (λ b pairs h. cc) since
  Step-IsSince {t = t} lt inv_s inv (push j {k} {v} {t'} ltj e free run) since =
      let made = ok-injective (sym (append-rebucket inv.shape k v) ∙ run) in
      worked j (Pc.pushed k) t' ((k, v) ∷ t.put) t.taken since
        (sym (ap (λ (x : HashTable K V). x.capacity) made)) (λ q. omega arith) (λ q. omega arith)
        (λ b pairs h. cc)
  Step-IsSince {t = t} lt inv_s inv (Step.count j ltj e) since =
      worked j Pc.idle (count_up t.table) t.put t.taken since refl (λ q. omega arith)
        (λ q. omega arith) (λ b pairs h. cc)
  Step-IsSince lt inv_s inv (lack j ltj e free run) since = walked j Pc.idle since (λ b pairs h. cc)
  Step-IsSince {t = t} lt inv_s inv (uncount j {k} {v} ltj e free run) since =
      worked j (Pc.uncounted k v) (count_down t.table) t.put t.taken since refl (λ q. omega arith)
        (λ q. omega arith) (λ b pairs h. cc)
  Step-IsSince {t = t} lt inv_s inv (drop j {k} {v} {t'} ltj e run) since =
      let made = ok-injective (sym (discard-rebucket inv.shape k) ∙ run) in
      worked j Pc.idle t' t.put ((k, v) ∷ t.taken) since
        (sym (ap (λ (x : HashTable K V). x.capacity) made)) (λ q. omega arith) (λ q. omega arith)
        (λ b pairs h. cc)

  Steps-Fits :
      {n : ℕ} {dynamic : Bool} {s t : System K V} → Steps n s t → Fits dynamic t → Fits dynamic s
  Steps-Fits done fits = fits
  Steps-Fits (more r st) fits = Steps-Fits r (Step-Fits st fits)

  Steps-Inv :
      {n : ℕ} {dynamic : Bool} {s t : System K V}
      → Steps n s t
      → Fits dynamic t
      → Inv n dynamic s
      → Inv n dynamic t
  Steps-Inv done fits inv = inv
  Steps-Inv (more r st) fits inv =
      let before = Step-Fits st fits in Step-Inv st before (Steps-Inv r before inv)

  Steps-IsSince :
      {n : ℕ} {dynamic : Bool} {s t : System K V} {i : ℕ}
      → i < n
      → s.pc i ≡ Pc.idle
      → Inv n dynamic s
      → Steps n s t
      → Fits dynamic t
      → IsSince i s t
  Steps-IsSince lt out inv done fits = record {
    taken = λ q. omega arith;
    put = λ q. omega arith;
    listing = λ {b} {pairs} h. let clash = sym out ∙ h in cc;
  }
  Steps-IsSince lt out inv (more r st) fits =
      let before = Step-Fits st fits in
      Step-IsSince lt inv (Steps-Inv r before inv) st (Steps-IsSince lt out inv r before)

  -- On a new table of 1 to 2 ^ 50 buckets, resizable or not, with at most 2 ^ 48 insertions if it is
  -- resizable, a thread that was idle in a reachable state is at the end of the loop of getKeys or
  -- getValues, whatever the other threads have done since: a key of which no entry was removed since
  -- is listed at least as often as the table had it, and no key more often than it was inserted.
  pub interleaved_listing :
      {n c b : ℕ} {dynamic : Bool} {s t : System K V} {pairs : Chain K V} (i : ℕ)
      → 1 ≤ c
      → c ≤ max_capacity
      → Reach n c dynamic s
      → i < n
      → s.pc i ≡ Pc.idle
      → Steps n s t
      → (dynamic ≡ true → length t.put ≤ max_size)
      → t.pc i ≡ gathering b pairs
      → t.table.capacity ≤ b
      → (q : K)
      → (count q t.taken ≡ count q s.taken → count q (chain_of s.table q) ≤ count q pairs)
        × (count q pairs ≤ count q t.put)
  interleaved_listing {b = b} {t = t} i lo hi reach lt out r fits e end q =
      let inv = Reach-Inv lo hi reach (Steps-Fits r fits) in
      let inv_t = Steps-Inv r fits inv in
      let l = (Steps-IsSince lt out inv r fits).listing e in
      ((λ kept. l.covers q kept (omega (arith, end, inv_t.shape.wide))), l.inserted q)
