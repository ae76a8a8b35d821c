-- ===== src/HashTable/Listing.antt =====
-- The functions that read whole buckets (hashtable.h, `getBucket`, `getKeys`, `getValues` and
-- `print_table`).
use shared_memory_hashtable.Common.{
  ℕ, zero, suc, ◌%◌, ◌≤◌, ◌<◌, ◌≢◌, ◌≡◌, refl, sym, ap, Bool-cases, inl, inr, none, List, [], ◌∷◌,
  ◌++◌, map, length, length-append, get_or, arith, if◌then◌else◌, ◌==◌, ok, Returns, Option-cases,
}
use mathlib.Core.Option.{or_else}
use mathlib.Core.List.{map-append}
use shared_memory_hashtable.HashTable.{
  HashTable, gather, get_bucket, get_keys, get_values, print_lines, print_table,
}
use shared_memory_hashtable.HashTable.Keys.{Key}
use shared_memory_hashtable.HashTable.Chains.{
  Chain, find, count, find-append, count-append, find-eq-none, count-eq-zero, count_pos,
}
use shared_memory_hashtable.HashTable.Buckets.{entries, at-get_or, IsValid, view, home}
use shared_memory_hashtable.HashTable.Rehash.{or_else-none}
use shared_memory_hashtable.HashTable.Operations.{is_some}

-- the entries of the first `n` buckets, in order
joined {ℓ} : {A : Type ℓ} → ℕ → List (List A) → List A
joined zero bs = []
joined (suc n) [] = []
joined (suc n) (b ∷ bs) = b ++ joined n bs

length-joined {ℓ} : {A : Type ℓ} (n : ℕ) (bs : List (List A)) → length (joined n bs) ≡ entries n bs
unfolding joined entries
length-joined zero bs = refl
length-joined (suc n) [] = refl
length-joined (suc n) (b ∷ bs) = omega (arith, length-append b (joined n bs), length-joined n bs)

gather-joined {ℓ κ} :
    {K V : Type ℓ} {A : Type κ} (f : K × V → A) (n : ℕ) (bs : List (Chain K V))
    → n ≤ length bs
    → gather f n bs ≡ ok (map f (joined n bs))
unfolding gather joined
gather-joined f zero bs h = refl
gather-joined f (suc n) [] h = absurd (omega arith)
gather-joined f (suc n) (b ∷ bs) h =
    rw (gather-joined f n bs (omega arith)) (ap ok (sym (map-append f b (joined n bs))))

print_lines-map {ℓ} :
    {K V : Type ℓ} (es : Chain K V) → print_lines (map (λ e. e.0) es) (map (λ e. e.1) es) ≡ ok es
unfolding print_lines
print_lines-map [] = refl
print_lines-map (e ∷ es) = rw (print_lines-map es)

module _ {ℓ} {K V : Type ℓ} ⦃key : Key K⦄ where
  joined_nowhere :
      (q : K) (n : ℕ) (bs : List (Chain K V))
      → ((i : ℕ) → count q (get_or bs i []) ≡ 0)
      → count q (joined n bs) ≡ 0
  unfolding joined count
  joined_nowhere q zero bs none_in = refl
  joined_nowhere q (suc n) [] none_in = refl
  joined_nowhere q (suc n) (b ∷ bs) none_in =
      rw (count-append, none_in 0, joined_nowhere q n bs (λ i. none_in (suc i)))

  joined_home :
      (q : K) (n h : ℕ) (bs : List (Chain K V))
      → h < n
      → n ≤ length bs
      → ((i : ℕ) → i ≢ h → count q (get_or bs i []) ≡ 0)
      → (find q (joined n bs) ≡ find q (get_or bs h []))
        × (count q (joined n bs) ≡ count q (get_or bs h []))
  unfolding joined or_else
  joined_home q zero h bs lt w none_in = absurd (omega arith)
  joined_home q (suc n) h [] lt w none_in = absurd (omega arith)
  joined_home q (suc n) zero (b ∷ bs) lt w none_in =
      let rest = joined_nowhere q n bs (λ i. none_in (suc i) (omega arith)) in
      (
        rw (find-append, find-eq-none q (joined n bs) rest, or_else-none),
        rw (count-append, rest) (omega arith),
      )
  joined_home q (suc n) (suc h) (b ∷ bs) lt w none_in =
      let (reads, counts) =
        joined_home q n h bs (omega arith) (omega arith) (λ i ne. none_in (suc i) (omega arith)) in
      let here = none_in 0 (omega arith) in
      (
        rw (find-append, find-eq-none q b here, reads),
        rw (count-append, here, counts) (omega arith),
      )

  -- A list of entries that has each binding of the table once and nothing else.
  pub record Lists (t : HashTable K V) (es : Chain K V) : Type ℓ where
    pub reads : (q : K) → find q es ≡ view t q
    pub once : (q : K) → count q es ≡ (if is_some (view t q) then 1 else 0)
    pub sized : length es ≡ t.size

  once-of :
      (q : K) (es : Chain K V)
      → count q es ≤ 1
      → count q es ≡ (if is_some (find q es) then 1 else 0)
  once-of q es le = elim (Option-cases (find q es)) [
    | inl absent ↦ rw absent (count-eq-zero q es absent)
    | inr (v, bound) ↦ let pos = count_pos q es bound in rw bound (omega arith)
  ]

  joined-Lists : {t : HashTable K V} → IsValid t → Lists t (joined t.capacity t.storage)
  unfolding view
  joined-Lists {t} valid =
      let all = λ (q : K).
        joined_home q t.capacity (home t q) t.storage (omega (arith, valid.wide)) valid.allocated
          (λ i ne. ground (arith, valid.placed q i)) in
      record {
        reads = λ q. (all q).0;
        once = λ q. rw (← (all q).0) (
            once-of q (joined t.capacity t.storage)
              (rw ((all q).1) (ground (arith, valid.placed q (home t q)))));
        sized = omega (arith, length-joined t.capacity t.storage, valid.counted);
      }

  -- On a valid table print_table does not run past the values, and writes each binding once.
  pub print_table-Lists : {t : HashTable K V} → IsValid t → Returns (print_table t) (Lists t)
  unfolding print_table get_keys get_values
  print_table-Lists {t} valid =
      let es = joined t.capacity t.storage in
      (
        es,
        rw (
          gather-joined (λ e. e.0) t.capacity t.storage valid.allocated,
          gather-joined (λ e. e.1) t.capacity t.storage valid.allocated,
          print_lines-map es,
        ),
        joined-Lists valid,
      )

  -- On a valid table `getKeys` and `getValues` return the two halves of one list of the bindings.
  pub get_keys-get_values :
      {t : HashTable K V}
      → IsValid t
      → (es : Chain K V) × Lists t es
        × (get_keys t ≡ ok (map (λ e. e.0) es))
        × (get_values t ≡ ok (map (λ e. e.1) es))
  unfolding get_keys get_values
  get_keys-get_values {t} valid = (
    joined t.capacity t.storage,
    joined-Lists valid,
    gather-joined (λ e. e.0) t.capacity t.storage valid.allocated,
    gather-joined (λ e. e.1) t.capacity t.storage valid.allocated,
  )

  -- For an index below the capacity of a valid table getBucket returns the entries whose keys hash
  -- to it, each key once.
  pub get_bucket_lem :
      {t : HashTable K V} (i : ℕ)
      → IsValid t
      → i < t.capacity
      → Returns (get_bucket t i) λ c.
        (q : K)
        → (find q c ≡ (if i == key.hash q % t.capacity then view t q else none)) × (count q c ≤ 1)
  unfolding get_bucket view
  get_bucket_lem {t} i valid h = (
    get_or t.storage i [],
    at-get_or t.storage i [] (omega (arith, valid.allocated)),
    λ q. elim (Bool-cases (i == home t q)) [
      | inl same ↦
          let e : i ≡ home t q = ground arith in
          (rw same (ap (λ j. find q (get_or t.storage j [])) e), ground (arith, valid.placed q i))
      | inr other ↦
          let c : count q (get_or t.storage i []) ≡ 0 = ground (arith, valid.placed q i) in
          (rw (other, find-eq-none q (get_or t.storage i []) c), omega arith)
    ],
  )
