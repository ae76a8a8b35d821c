-- ===== src/HashTable/Rehash.antt =====
-- Rehashing (hashtable.h, `collectPairs` and both cases of `resize`).
use shared_memory_hashtable.Common.{
  ℕ, zero, suc, ◌+◌, ◌*◌, ◌≤◌, ◌<◌, ◌≢◌, ◌≡◌, refl, Option, none, some, List, [], ◌∷◌, ◌++◌, arith,
  length, length-append, get_or, get_or-replicate, length-replicate, replicate, Returns, sym, ◌∙◌,
  ◌%◌, Bool,
}
use mathlib.Core.Option.{or_else}
use shared_memory_hashtable.HashTable.{HashTable, collect_pairs, insert_all, rebuild}
use shared_memory_hashtable.HashTable.Keys.{Key, equal_refl}
use shared_memory_hashtable.HashTable.Chains.{
  Chain, find, count, find-append, count-append, find-eq-none,
}
use shared_memory_hashtable.HashTable.Buckets.{
  max_capacity, max_size, entries, IsValid, view, home, insert_unsafe-Pushed,
}

-- the list that `collectPairs` builds
unfoldable pub spliced {ℓ} : {A : Type ℓ} → ℕ → List (List A) → List A → List A
spliced zero bs l = l
spliced (suc n) [] l = l
spliced (suc n) (b ∷ bs) l = spliced n bs (b ++ l)

pub collect_pairs-spliced {ℓ} :
    {K V : Type ℓ} (n : ℕ) (bs : List (Chain K V)) (l : Chain K V)
    → n ≤ length bs
    → Returns (collect_pairs n bs l) (λ r. r.0 ≡ spliced n bs l)
unfolding collect_pairs spliced
collect_pairs-spliced zero bs l h = ((l, bs), refl, refl)
collect_pairs-spliced (suc n) [] l h = absurd (omega arith)
collect_pairs-spliced (suc n) (b ∷ bs) l h =
    let (r, run, e) = collect_pairs-spliced n bs (b ++ l) (omega arith) in
    ((r.0, [] ∷ r.1), rw run, e)

pub length-spliced {ℓ} :
    {A : Type ℓ} (n : ℕ) (bs : List (List A)) (l : List A)
    → length (spliced n bs l) ≡ entries n bs + length l
unfolding spliced entries
length-spliced zero bs l = omega arith
length-spliced (suc n) [] l = omega arith
length-spliced (suc n) (b ∷ bs) l = omega (arith, length-spliced n bs (b ++ l), length-append b l)

pub or_else-none {ℓ} : {A : Type ℓ} (o : Option A) → or_else o none ≡ o
unfolding or_else
or_else-none none = refl
or_else-none (some a) = refl

pub entries-replicate {ℓ} : (A : Type ℓ) (c n : ℕ) → entries c (replicate {A = List A} n []) ≡ 0
unfolding entries
entries-replicate A zero n = refl
entries-replicate A (suc c) zero = refl
entries-replicate A (suc c) (suc n) = omega (arith, entries-replicate A c n)

module _ {ℓ} {K V : Type ℓ} ⦃key : Key K⦄ where
  spliced_nowhere :
      (q : K) (n : ℕ) (bs : List (Chain K V)) (l : Chain K V)
      → ((i : ℕ) → count q (get_or bs i []) ≡ 0)
      → (find q (spliced n bs l) ≡ find q l) × (count q (spliced n bs l) ≡ count q l)
  unfolding spliced or_else
  spliced_nowhere q zero bs l none_in = (refl, refl)
  spliced_nowhere q (suc n) [] l none_in = (refl, refl)
  spliced_nowhere q (suc n) (b ∷ bs) l none_in =
      let (reads, counts) = spliced_nowhere q n bs (b ++ l) (λ i. none_in (suc i)) in
      (
        rw (reads, find-append, find-eq-none q b (none_in 0)),
        rw (counts, count-append, none_in 0) (omega arith),
      )

  -- A key that stands in bucket `h` only is in the list as often as there, under the same value.
  pub spliced_home :
      (q : K) (n h : ℕ) (bs : List (Chain K V)) (l : Chain K V)
      → h < n
      → n ≤ length bs
      → ((i : ℕ) → i ≢ h → count q (get_or bs i []) ≡ 0)
      → count q l ≡ 0
      → (find q (spliced n bs l) ≡ find q (get_or bs h []))
        × (count q (spliced n bs l) ≡ count q (get_or bs h []))
  unfolding spliced
  spliced_home q zero h bs l lt w none_in fresh = absurd (omega arith)
  spliced_home q (suc n) h [] l lt w none_in fresh = absurd (omega arith)
  spliced_home q (suc n) zero (b ∷ bs) l lt w none_in fresh =
      let (reads, counts) = spliced_nowhere q n bs (b ++ l) (λ i. none_in (suc i) (omega arith)) in
      (
        rw (reads, find-append, find-eq-none q l fresh, or_else-none),
        rw (counts, count-append, fresh) (omega arith),
      )
  spliced_home q (suc n) (suc h) (b ∷ bs) l lt w none_in fresh =
      spliced_home q n h bs (b ++ l) (omega arith) (omega arith)
        (λ i ne. none_in (suc i) (omega arith)) (rw (count-append, none_in 0 (omega arith), fresh))

  -- What `rebuild` and `insert_all` leave: a valid table of `n` entries that reads as `f`.
  pub record Holds (n capacity : ℕ) (t : HashTable K V) (f : K → Option V) (t' : HashTable K V)
      : Type ℓ where
    pub valid : IsValid t'
    pub size : t'.size ≡ n
    pub width : t'.capacity ≡ capacity
    pub resizable : t'.resizable ≡ t.resizable
    pub reads : (q : K) → view t' q ≡ f q

  insert_all-Holds :
      (es : Chain K V) (t : HashTable K V)
      → IsValid t
      → t.size + length es ≤ 2 * max_size
      → ((q : K) → count q es ≤ 1)
      → ((q : K) → 1 ≤ count q es → view t q ≡ none)
      → Returns
          (insert_all es t)
          (Holds (t.size + length es) t.capacity t (λ q. or_else (view t q) (find q es)))
  unfolding insert_all find count or_else
  insert_all-Holds [] t valid small once apart = (
    t,
    refl,
    record {
      valid = valid;
      size = omega arith;
      width = refl;
      resizable = refl;
      reads = ground arith;
    },
  )
  insert_all-Holds ((k, v) ∷ es) t valid small once apart =
      let (t₁, run₁, p) =
        insert_unsafe-Pushed valid k v (apart k (rw (equal_refl k) (omega arith))) (omega arith) in
      let (t₂, run₂, h) =
        insert_all-Holds es t₁ p.valid' (rw p.size' (omega arith)) (λ q. omega (arith, once q))
          (λ q c. ground (arith, p.reads' q, once q, apart q)) in
      (
        t₂,
        rw (run₁, run₂),
        record {
          valid = h.valid;
          size = omega (arith, h.size, p.size');
          width = ground (arith, h.width, p.capacity');
          resizable = ground (arith, h.resizable, p.resizable');
          reads = λ q. ground (arith, h.reads q, p.reads' q, apart q);
        },
      )

  -- a table of `n` empty nodes, of which `c` are in use
  abbrev pub empty : ℕ → ℕ → Bool → HashTable K V
  empty c n resizable = record {
    size = 0;
    capacity = c;
    resizable = resizable;
    storage = replicate n [];
  }

  pub empty-IsValid :
      (c n : ℕ) (resizable : Bool)
      → 1 ≤ c
      → c ≤ max_capacity
      → c ≤ n
      → IsValid (empty c n resizable)
  unfolding count
  empty-IsValid c n resizable lo hi wide = record {
    wide = lo;
    bounded = hi;
    allocated = omega (arith, length-replicate {A = Chain K V} n []);
    placed = λ q i. rw (get_or-replicate {A = Chain K V} n i []) (omega arith);
    counted = sym (entries-replicate (K × V) c n);
  }

  pub view-empty : (c n : ℕ) (resizable : Bool) (q : K) → view (empty c n resizable) q ≡ none
  unfolding view find
  view-empty c n resizable q = rw (get_or-replicate {A = Chain K V} n (key.hash q % c) [])

  -- The list of all pairs has each key once, under the value that the key is bound to.
  spliced-view :
      {t : HashTable K V}
      → IsValid t
      → (q : K)
      → (find q (spliced t.capacity t.storage []) ≡ view t q)
        × (count q (spliced t.capacity t.storage []) ≤ 1)
  unfolding view count
  spliced-view {t} valid q =
      let (reads, counts) =
        spliced_home q t.capacity (home t q) t.storage [] (omega (arith, valid.wide))
          valid.allocated (λ i ne. ground (arith, valid.placed q i)) refl in
      (reads, rw counts (ground (arith, valid.placed q (home t q))))

  -- Rehashing a valid table with at most 2 ^ 48 entries into any positive number of buckets up to 2
  -- ^ 50 does not fault, and keeps the size, the validity and what each key is bound to.
  pub rebuild-Holds :
      {t : HashTable K V} (c : ℕ)
      → IsValid t
      → t.size ≤ max_size
      → 1 ≤ c
      → c ≤ max_capacity
      → Returns (rebuild t c) (Holds t.size c t (view t))
  unfolding rebuild or_else
  rebuild-Holds {t} c valid small lo hi =
      let ((es, bs), run₁, e) = collect_pairs-spliced t.capacity t.storage [] valid.allocated in
      let n : length es ≡ t.size =
        rw e (omega (arith, length-spliced t.capacity t.storage [], valid.counted)) in
      let (t', run₂, h) =
        insert_all-Holds es (empty c c t.resizable)
          (empty-IsValid c c t.resizable lo hi (omega arith)) (omega arith)
          (λ q. rw e (spliced-view valid q).1) (λ q _. view-empty c c t.resizable q) in
      (
        t',
        rw (run₁, run₂),
        record {
          valid = h.valid;
          size = omega (arith, h.size);
          width = h.width;
          resizable = h.resizable;
          reads = λ q. h.reads q ∙ rw (view-empty c c t.resizable q, e) (spliced-view valid q).0;
        },
      )
