-- ===== src/HashTable/Threads/Inserting.antt =====
-- The end of a call of `insert` (hashtable.h) among interleaved calls, on a table that is not resizable.
use shared_memory_hashtable.Common.{
  ℕ, zero, suc, ◌%◌, ◌≤◌, ◌<◌, ◌≡◌, refl, ◌∙◌, true, false, [], ◌∷◌, ◌++◌, arith, length-set,
  get_or-replicate, subst, ltb, ◌==◌, update, update_self, total, inl, inr, Bool-cases,
}
use shared_memory_hashtable.HashTable.{HashTable, new_sized}
use shared_memory_hashtable.HashTable.Keys.{Key}
use shared_memory_hashtable.HashTable.Buckets.{home, chain_of, max_capacity}
use shared_memory_hashtable.HashTable.Threads.{
  Pc, calling, entering, working, put_call, first_stage, System, Step, enter, push, Reach, later,
  holds, count_up,
}
use shared_memory_hashtable.HashTable.Threads.Storing.{
  IsWide, rebucket, append-rebucket, chain-rebucket,
}
use shared_memory_hashtable.HashTable.Threads.Preserved.{Reach-Inv}

-- A sum of zeros, and a family that stays one of zeros when a member is written.
pub total-calm {ℓ} :
    {A : Type ℓ} (w : A → ℕ) (n : ℕ) (p : ℕ → A) → ((i : ℕ) → w (p i) ≡ 0) → total w n p ≡ 0
unfolding total
total-calm w zero p h = refl
total-calm w (suc n) p h = omega (arith, h n, total-calm w n p h)

pub update-calm {ℓ} :
    {A : Type ℓ} (w : A → ℕ) (p : ℕ → A) (i : ℕ) (a : A)
    → ((j : ℕ) → w (p j) ≡ 0)
    → w a ≡ 0
    → (j : ℕ) → w (update p i a j) ≡ 0
update-calm w p i a h z j = elim (Bool-cases (i == j)) [
  | inl same ↦ rw same z
  | inr other ↦ rw other (h j)
]

pub update-twice {ℓ} :
    {A : Type ℓ} (p : ℕ → A) (i : ℕ) (a b : A) (j : ℕ)
    → update (update p i a) i b j ≡ update p i b j
update-twice p i a b j = elim (Bool-cases (i == j)) [ inl same ↦ rw same | inr other ↦ rw other ]

module _ {ℓ} {K V : Type ℓ} ⦃key : Key K⦄ where
  pub chain-new : (c : ℕ) (k : K) → chain_of (new_sized {V = V} c false) k ≡ []
  unfolding new_sized
  chain-new c k = elim (Bool-cases (ltb c 4)) [
    | inl few ↦ rw few (get_or-replicate 4 (key.hash k % c) [])
    | inr enough ↦ rw enough (get_or-replicate c (key.hash k % c) [])
  ]

  -- the table with an entry more at the end of its bucket
  abbrev pub appended : HashTable K V → K → V → HashTable K V
  appended t k v = count_up (rebucket t k (chain_of t k ++ (k, v) ∷ []))

  pub chain-appended :
      {t : HashTable K V} (k : K) (v : V)
      → IsWide t
      → chain_of (appended t k v) k ≡ chain_of t k ++ (k, v) ∷ []
  chain-appended {t} k v shape =
      let same : (home t k == home t k) ≡ true = ground arith in
      chain-rebucket shape k (chain_of t k ++ (k, v) ∷ []) (home t k) ∙ rw same

  pub appended-IsWide : {t : HashTable K V} (k : K) (v : V) → IsWide t → IsWide (appended t k v)
  appended-IsWide k v shape = record {
    wide = shape.wide;
    allocated = rw length-set shape.allocated;
  }

  -- the rest of `insert` by thread `i`, when no bucket is held
  abbrev pub inserted : System K V → ℕ → K → V → System K V
  inserted s i k v = record {
    table = appended s.table k v;
    pc = update (update (update s.pc i (calling working (put_call k v))) i (Pc.pushed k)) i Pc.idle;
    put = (k, v) ∷ s.put;
    taken = s.taken;
  }

  pub insert_end :
      {n c : ℕ} {s : System K V} (i : ℕ) (k : K) (v : V)
      → 1 ≤ c
      → c ≤ max_capacity
      → Reach n c false s
      → i < n
      → s.pc i ≡ calling entering (put_call k v)
      → ((j : ℕ) → holds s.table (home s.table k) (s.pc j) ≡ 0)
      → Reach n c false (inserted s i k v)
  insert_end {n} {c} {s} i k v lo hi r lt e calm =
      let inv = Reach-Inv lo hi r (λ d. cc) in
      let straight : first_stage s.table ≡ working = rw (inv.kind) in
      let entered : Reach n c false
          (record s { pc = update s.pc i (calling working (put_call k v)) }) =
        subst (λ st. Reach n c false (record s { pc = update s.pc i (calling st (put_call k v)) }))
          straight (later r (enter i lt e)) in
      let free = total-calm (holds s.table (home s.table k)) n _ (
        update-calm (holds s.table (home s.table k)) s.pc i (calling working (put_call k v)) calm
          refl) in
      later
        (later entered (
          push i lt (update_self s.pc i (calling working (put_call k v))) free
            (append-rebucket inv.shape k v)))
        (Step.count i lt
          (update_self (update s.pc i (calling working (put_call k v))) i (Pc.pushed k)))
