-- ===== src/HashTable/Pairs.antt =====
-- All pairs of a `HashTable` (hashtable.h), in the order of its buckets, up to their order.
use shared_memory_hashtable.Common.{
  ℕ, zero, suc, ◌≤◌, ◌<◌, ◌≡◌, ap₂, refl, inl, inr, some, List, [], ◌∷◌, ◌++◌, arith, length,
  get_or, set, replicate, subst, append_assoc, Bool-cases,
}
use mathlib.Core.List.{Perm, perm_middle, perm_append_comm}
use mathlib.Core.List.Perm
use shared_memory_hashtable.HashTable.Keys.{Key}
use shared_memory_hashtable.HashTable.Chains.{Chain, find, erase}
use shared_memory_hashtable.HashTable.Rehash.{spliced}

-- the contents of the first `n` buckets
unfoldable pub flat {ℓ} : {A : Type ℓ} → ℕ → List (List A) → List A
flat zero bs = []
flat (suc n) [] = []
flat (suc n) (b ∷ bs) = b ++ flat n bs

module _ {ℓ} {A : Type ℓ} where
  -- A bucket that takes one element more.
  pub flat-set_more :
      (n : ℕ) (bs : List (List A)) (i : ℕ) (c : List A) (e : A)
      → i < n
      → n ≤ length bs
      → Perm c (e ∷ get_or bs i [])
      → Perm (flat n (set bs i c)) (e ∷ flat n bs)
  unfolding flat
  flat-set_more zero bs i c e lt wide h = absurd (omega arith)
  flat-set_more (suc n) [] i c e lt wide h = absurd (omega arith)
  flat-set_more (suc n) (b ∷ bs) zero c e lt wide h = Perm.append_right (flat n bs) h
  flat-set_more (suc n) (b ∷ bs) (suc i) c e lt wide h =
      Perm.trans (Perm.append_left b (flat-set_more n bs i c e (omega arith) (omega arith) h))
        (perm_middle b (flat n bs))

  -- A bucket that loses an element.
  pub flat-set_less :
      (n : ℕ) (bs : List (List A)) (i : ℕ) (c : List A) (e : A)
      → i < n
      → n ≤ length bs
      → Perm (get_or bs i []) (e ∷ c)
      → Perm (flat n bs) (e ∷ flat n (set bs i c))
  unfolding flat
  flat-set_less zero bs i c e lt wide h = absurd (omega arith)
  flat-set_less (suc n) [] i c e lt wide h = absurd (omega arith)
  flat-set_less (suc n) (b ∷ bs) zero c e lt wide h = Perm.append_right (flat n bs) h
  flat-set_less (suc n) (b ∷ bs) (suc i) c e lt wide h =
      Perm.trans (Perm.append_left b (flat-set_less n bs i c e (omega arith) (omega arith) h))
        (perm_middle b (flat n (set bs i c)))

  some-injective : {v w : A} → some v ≡ some w → v ≡ w
  some-injective h = cc

  pub flat-replicate : (c n : ℕ) → flat c (replicate {A = List A} n []) ≡ []
  unfolding flat
  flat-replicate zero n = refl
  flat-replicate (suc c) zero = refl
  flat-replicate (suc c) (suc n) = flat-replicate c n

  -- `collectPairs` changes the order only.
  pub spliced-flat :
      (n : ℕ) (bs : List (List A)) (l : List A) → Perm (spliced n bs l) (flat n bs ++ l)
  unfolding spliced flat
  spliced-flat zero bs l = Perm.refl l
  spliced-flat (suc n) [] l = Perm.refl l
  spliced-flat (suc n) (b ∷ bs) l = Perm.trans (spliced-flat n bs (b ++ l)) (
      subst (λ x. Perm x ((b ++ flat n bs) ++ l)) (append_assoc (flat n bs) b l)
        (Perm.append_right l (perm_append_comm (flat n bs) b)))

module _ {ℓ} {K V : Type ℓ} ⦃key : Key K⦄ where
  -- The entry that `erase` takes out is the one that `find` finds.
  pub erase-Perm :
      (k : K) (es : Chain K V) {v : V} → find k es ≡ some v → Perm es ((k, v) ∷ erase k es)
  unfolding find erase
  erase-Perm k [] {v} h = cc
  erase-Perm k (p ∷ es) {v} h = elim (Bool-cases (key.equal p.0 k)) [
    | inl same ↦
        let value : some p.1 ≡ some v = rw same at h in
        let first : p ≡ (k, v) =
          ap₂ (λ a b. (a, b)) ((key.equal_iff p.0 k).0 same) (some-injective value) in
        rw same (subst (λ e. Perm (p ∷ es) (e ∷ es)) first (Perm.refl (p ∷ es)))
    | inr other ↦
        let rest = erase-Perm k es (rw other at h) in
        rw other (Perm.trans (Perm.cons p rest) (Perm.swap (k, v) p (erase k es)))
  ]
