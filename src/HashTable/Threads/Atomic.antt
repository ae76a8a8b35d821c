-- ===== src/HashTable/Threads/Atomic.antt =====
-- Interleaved calls (hashtable.h) as calls of a dictionary that happen one at a time.
use shared_memory_hashtable.Common.{
  ℕ, Run, fault, end_iterator, ◌>>=◌, ◌≤◌, ◌<◌, ◌≡◌, refl, ◌∙◌, sym, ap, subst, Bool, true, false,
  Option, none, some, [], ◌∷◌, ◌++◌, arith, length, ok, ok-injective, get_or, total-pos, Bool-cases,
  inl, inr, if◌then◌else◌, ◌==◌,
}
use mathlib.Core.Option.{or_else}
use shared_memory_hashtable.HashTable.Rehash.{or_else-none}
use shared_memory_hashtable.HashTable.{HashTable, get, subscript}
use shared_memory_hashtable.HashTable.Policy.{new_sized-IsEmpty}
use shared_memory_hashtable.HashTable.Keys.{Key, equal_refl}
use shared_memory_hashtable.HashTable.Chains.{find, erase, count, find-erase, find-eq-none}
use shared_memory_hashtable.HashTable.Buckets.{home, chain_of, view, max_capacity, max_size}
use shared_memory_hashtable.HashTable.Threads.{
  calling, working, put_call, System, Step, look, look_bucket, look_up, list, gather, listed, miss,
  call, enter, content, ask, settled, unsettled, rehash, push, lack, uncount, drop, Reach, later,
  start, init,
}
use shared_memory_hashtable.HashTable.Threads.Storing.{
  IsWide, rebucket, append-rebucket, discard-rebucket, get-find, chain-rebucket, find-pushed,
  hash-home, at-chain,
}
use shared_memory_hashtable.HashTable.Threads.Exclusive.{Fits, exclusive}
use shared_memory_hashtable.HashTable.Threads.Preserved.{Step-Fits, Reach-Inv}
use shared_memory_hashtable.HashTable.Threads.Once.{
  Along, Alternating, bringing, Reach-Few, held_once,
}

-- the result of `operator[]`, by what `std::find_if` finds
abbrev read {ℓ} : {V : Type ℓ} → Option V → Run V
read o = elim o [ some v ↦ ok v | none ↦ fault end_iterator ]

read-some {ℓ} : {V : Type ℓ} {v : V} (o : Option V) → read o ≡ ok v → some v ≡ o
read-some (some w) h = ap some (sym (ok-injective h))
read-some none h = cc

module _ {ℓ} (K V : Type ℓ) where
  -- What a call does to a dictionary at the moment when it happens, with what it returns.
  pub data Event : Type ℓ where
    silent : Event
    -- `get`, `operator[]`, an `insert` that returns false, a `remove` of nothing
    looked_up : (k : K) (o : Option V) → Event
    bound : (k : K) (v : V) → Event  -- an `insert` that returns true
    unbound : (k : K) (v : V) → Event  -- a `remove` that returns `v`

module _ {ℓ} {K V : Type ℓ} ⦃key : Key K⦄ where
  -- the event of a step
  unfoldable pub event : {n : ℕ} {s t : System K V} → Step n s t → Event K V
  event (look i k {o} lt e free run) = looked_up k o
  event (look_bucket i b lt e free run) = silent
  event (look_up i k {v} lt e free run) = looked_up k (some v)
  event (list i lt e) = silent
  event (gather i lt e inside free run) = silent
  event (listed i lt e end) = silent
  event (miss i k v lt e free run) = silent
  event (call i k lt e) = silent
  event (enter i lt e) = silent
  event (content i lt e none_in) = silent
  event (ask i lt e some_in) = silent
  event (settled i lt e fine) = silent
  event (unsettled i lt e wrong) = silent
  event (rehash i lt e free run) = silent
  event (push i {k} {v} lt e free run) = bound k v
  event (Step.count i lt e) = silent
  event (lack i {k} lt e free run) = looked_up k none
  event (uncount i lt e free run) = silent
  event (drop i {k} {v} lt e run) = unbound k v

  -- The dictionary `f` allows the event, and is `f'` behind it.
  unfoldable pub Happens : (K → Option V) → Event K V → (K → Option V) → Type ℓ
  Happens f silent f' = (q : K) → f' q ≡ f q
  Happens f (looked_up k o) f' = (o ≡ f k) × ((q : K) → f' q ≡ f q)
  Happens f (bound k v) f' =
      (f k ≡ none) × ((q : K) → f' q ≡ (if key.equal k q then some v else f q))
  Happens f (unbound k v) f' =
      (f k ≡ some v) × ((q : K) → f' q ≡ (if key.equal k q then none else f q))

  get-view : {t : HashTable K V} {o : Option V} (k : K) → IsWide t → get t k ≡ ok o → o ≡ view t k
  unfolding view
  get-view k shape run = ok-injective (sym run ∙ get-find shape k)

  view-erased :
      {t : HashTable K V} (k q : K)
      → IsWide t
      → ((q : K) → count q (chain_of t q) ≤ 1)
      → view (rebucket t k (erase k (chain_of t k))) q ≡ (if key.equal k q then none else view t q)
  unfolding view
  view-erased {t} k q shape once =
      rw (chain-rebucket shape k (erase k (chain_of t k)) (home t q))
        (elim (Bool-cases (home t k == home t q)) [
          | inl same ↦
              let e : home t k ≡ home t q = ground arith in
              let e' : chain_of t k ≡ chain_of t q = ap (λ b. get_or t.storage b []) e in
              rw (same, e') (find-erase k q (chain_of t q) (once q))
          | inr other ↦
              let ne : key.equal k q ≡ false = ground (arith, key.equal_iff k q) in rw (other, ne)
        ])

  view-pushed :
      {t : HashTable K V} (k q : K) (v : V)
      → IsWide t
      → view t k ≡ none
      → view (rebucket t k (chain_of t k ++ (k, v) ∷ [])) q
        ≡ (if key.equal k q then some v else view t q)
  unfolding view or_else
  view-pushed {t} k q v shape absent =
      find-pushed shape k q v ∙ (elim (Bool-cases (key.equal k q)) [
        | inl same ↦
            let here : k ≡ q = (key.equal_iff k q).0 same in
            let absent' : find q (chain_of t q) ≡ none =
              subst (λ x. find x (chain_of t x) ≡ none) here absent in
            rw (same, absent')
        | inr other ↦ rw (other, or_else-none)
      ])

  subscript-view :
      {t : HashTable K V} {v : V} (k : K) → IsWide t → subscript t k ≡ ok v → some v ≡ view t k
  unfolding view subscript
  subscript-view {t} {v} k shape run =
      let found : subscript t k ≡ read (find k (chain_of t k)) =
        rw (hash-home shape k, ◌>>=◌, at-chain shape k) in
      read-some (find k (chain_of t k)) (sym found ∙ run)

  -- An `insert` behind the loop finds its key unbound, if no other thread is in one of the same key.
  still_absent :
      {n c : ℕ} {dynamic : Bool} {s : System K V} (i : ℕ) (k : K) (v : V)
      → 1 ≤ c
      → c ≤ max_capacity
      → (r : Reach n c dynamic s) → Fits dynamic s
      → Along (Alternating n) r
      → i < n
      → s.pc i ≡ calling working (put_call k v)
      → view s.table k ≡ none
  unfolding view
  still_absent {n} {s = s} i k v lo hi r fits alternating lt e =
      let inv = Reach-Inv lo hi r fits in
      let mine : bringing k (s.pc i) ≡ 1 = rw (e, equal_refl k) in
      let few = Reach-Few k lo hi r fits alternating in
      find-eq-none k (chain_of s.table k)
        (omega (arith, inv.kept k, few, mine, total-pos (bringing k) n s.pc i lt))

  pub Step-Happens :
      {n c : ℕ} {dynamic : Bool} {s t : System K V}
      → 1 ≤ c
      → c ≤ max_capacity
      → (r : Reach n c dynamic s) → (st : Step n s t) → Fits dynamic s
      → Along (Alternating n) r
      → Happens (view s.table) (event st) (view t.table)
  unfolding Happens event view
  Step-Happens lo hi r (look i k lt e free run) fits alternating =
      (get-view k (Reach-Inv lo hi r fits).shape run, λ q. refl)
  Step-Happens lo hi r (look_bucket i b lt e free run) fits alternating = λ q. refl
  Step-Happens lo hi r (look_up i k lt e free run) fits alternating =
      (subscript-view k (Reach-Inv lo hi r fits).shape run, λ q. refl)
  Step-Happens lo hi r (list i lt e) fits alternating = λ q. refl
  Step-Happens lo hi r (gather i lt e inside free run) fits alternating = λ q. refl
  Step-Happens lo hi r (listed i lt e end) fits alternating = λ q. refl
  Step-Happens lo hi r (miss i k v lt e free run) fits alternating = λ q. refl
  Step-Happens lo hi r (call i k lt e) fits alternating = λ q. refl
  Step-Happens lo hi r (enter i lt e) fits alternating = λ q. refl
  Step-Happens lo hi r (content i lt e none_in) fits alternating = λ q. refl
  Step-Happens lo hi r (ask i lt e some_in) fits alternating = λ q. refl
  Step-Happens lo hi r (settled i lt e fine) fits alternating = λ q. refl
  Step-Happens lo hi r (unsettled i lt e wrong) fits alternating = λ q. refl
  Step-Happens {s = s} lo hi r (rehash i {op} {t'} lt e free run) fits alternating = λ q.
      let (exact, (t₁, run₁, h)) = exclusive i op (Reach-Inv lo hi r fits) fits lt e free in
      subst (λ (x : HashTable K V). find q (chain_of x q) ≡ find q (chain_of s.table q))
        (ok-injective (sym run₁ ∙ run)) (h.reads q)
  Step-Happens {s = s} lo hi r (push i {k} {v} lt e free run) fits alternating =
      let shape = (Reach-Inv lo hi r fits).shape in
      let absent = still_absent i k v lo hi r fits alternating lt e in
      let made = ok-injective (sym (append-rebucket shape k v) ∙ run) in
      (
        absent,
        λ q.
            ap (λ (x : HashTable K V). find q (chain_of x q)) (sym made)
            ∙ view-pushed k q v shape absent,
      )
  Step-Happens lo hi r (Step.count i lt e) fits alternating = λ q. refl
  Step-Happens lo hi r (lack i {k} lt e free run) fits alternating =
      (get-view k (Reach-Inv lo hi r fits).shape run, λ q. refl)
  Step-Happens lo hi r (uncount i lt e free run) fits alternating = λ q. refl
  Step-Happens {s = s} lo hi r (drop i {k} {v} lt e run) fits alternating =
      let inv = Reach-Inv lo hi r fits in
      let made = ok-injective (sym (discard-rebucket inv.shape k) ∙ run) in
      (
        inv.found i lt e,
        λ q.
            ap (λ (x : HashTable K V). find q (chain_of x q)) (sym made)
            ∙ view-erased k q inv.shape (λ p. held_once p lo hi r fits alternating),
      )

  -- A run of the table is one of a dictionary that is empty at first, event by event.
  unfoldable pub Plays : {n c : ℕ} {dynamic : Bool} {s : System K V} → Reach n c dynamic s → Type ℓ
  Plays {s = s} start = (q : K) → view s.table q ≡ none
  Plays (later {s} {t} r st) = Happens (view s.table) (event st) (view t.table) × Plays r

  -- On a new table of 1 to 2 ^ 50 buckets, resizable or not, with at most 2 ^ 48 insertions if it
  -- is resizable: if at no time two threads are in an insert of one key behind its lookup, every
  -- interleaving is, for get, insert, remove and operator[], one of atomic calls on a dictionary
  -- that is empty at first. An insert that returns true happens at its push_back, a remove that
  -- returns a value at its erase, the other calls at their lookup; resizing and the listings change
  -- nothing.
  pub calls_are_atomic :
      {n c : ℕ} {dynamic : Bool} {s : System K V}
      → 1 ≤ c
      → c ≤ max_capacity
      → (r : Reach n c dynamic s) → (dynamic ≡ true → length s.put ≤ max_size)
      → Along (Alternating n) r
      → Plays r
  unfolding Plays Along init view
  calls_are_atomic {c = c} {dynamic = dynamic} lo hi start fits alternating =
      (new_sized-IsEmpty {K = K} {V = V} c dynamic lo hi).0.2
  calls_are_atomic lo hi (later r st) fits (one, alternating) =
      let before = Step-Fits st fits in
      (Step-Happens lo hi r st before alternating, calls_are_atomic lo hi r before alternating)
