-- ===== src/Common/Families.antt =====
-- Families indexed by thread: the state of thread `i` is `f i`.
use Prim.Native.Nat.{ℕ, zero, suc, ◌+◌, ◌≤◌, ◌<◌}
use mathlib.Core.Path.{◌≡◌, refl}
use mathlib.Core.Logic.{◌≢◌, ◌⊎◌, inl, inr}
use mathlib.Core.Bool.{true, false}
use native.Mathlib.Decide.{dec_lt}
use native.Mathlib.Omega.{arith}
use shared_memory_hashtable.Common.Tests.{if◌then◌else◌, ◌==◌, Bool-cases}

abbrev pub update {ℓ} : {A : Type ℓ} → (ℕ → A) → ℕ → A → ℕ → A
update f i a j = if i == j then a else f j

module _ {ℓ} {A : Type ℓ} where
  pub update_self : (f : ℕ → A) (i : ℕ) (a : A) → update f i a i ≡ a
  update_self f i a = let e : (i == i) ≡ true = ground arith in rw e

  pub update_ne : (f : ℕ → A) (i j : ℕ) (a : A) → i ≢ j → update f i a j ≡ f j
  update_ne f i j a ne = let e : (i == j) ≡ false = ground arith in rw e

  -- what a member of an updated family is
  pub update-cases :
      (f : ℕ → A) (i : ℕ) (a : A) {j : ℕ} {b : A}
      → update f i a j ≡ b
      → ((i ≡ j) × (a ≡ b)) ⊎ ((i ≢ j) × (f j ≡ b))
  update-cases f i a {j} h = elim (Bool-cases (i == j)) [
    | inl same ↦ inl (ground arith, rw same at h)
    | inr other ↦ inr (λ e. ground arith, rw other at h)
  ]

  -- the sum of a weight over the threads below `n`
  unfoldable pub total : (A → ℕ) → ℕ → (ℕ → A) → ℕ
  total w zero f = 0
  total w (suc n) f = w (f n) + total w n f

  total-update_above :
      (w : A → ℕ) (n : ℕ) (f : ℕ → A) (i : ℕ) (a : A)
      → n ≤ i
      → total w n (update f i a) ≡ total w n f
  unfolding total
  total-update_above w zero f i a h = refl
  total-update_above w (suc n) f i a h =
      rw (update_ne f i n a (omega arith))
        (omega (arith, total-update_above w n f i a (omega arith)))

  pub total-update :
      (w : A → ℕ) (n : ℕ) (f : ℕ → A) (i : ℕ) (a : A)
      → i < n
      → total w n (update f i a) + w (f i) ≡ total w n f + w a
  unfolding total
  total-update w zero f i a h = absurd (omega arith)
  total-update w (suc n) f i a h = elim (dec_lt i n) [
    | yes below ↦ rw (update_ne f i n a (omega arith)) (omega (arith, total-update w n f i a below))
    | no last ↦
        let e : i ≡ n = omega arith in
        rw (e, update_self f n a) (omega (arith, total-update_above w n f n a (omega arith)))
  ]

  pub total-zero : (w : A → ℕ) (n : ℕ) (a : A) → w a ≡ 0 → total w n (λ _. a) ≡ 0
  unfolding total
  total-zero w zero a h = refl
  total-zero w (suc n) a h = omega (arith, h, total-zero w n a h)

  -- A thread that weighs something is counted.
  pub total-pos : (w : A → ℕ) (n : ℕ) (f : ℕ → A) (i : ℕ) → i < n → w (f i) ≤ total w n f
  unfolding total
  total-pos w zero f i h = absurd (omega arith)
  total-pos w (suc n) f i h = elim (dec_lt i n) [
    | yes below ↦ omega (arith, total-pos w n f i below)
    | no last ↦ let e : i ≡ n = omega arith in rw e (omega arith)
  ]

  -- A sum is 0, or some thread weighs something.
  pub total-cases :
      (w : A → ℕ) (n : ℕ) (f : ℕ → A) → (total w n f ≡ 0) ⊎ ((i : ℕ) × (i < n) × (1 ≤ w (f i)))
  unfolding total
  total-cases w zero f = inl refl
  total-cases w (suc n) f = elim (total-cases w n f) [
    | inl calm ↦ elim (dec_lt 0 (w (f n))) [
      | yes here ↦ inr (n, omega arith, here)
      | no calm_here ↦ inl (omega (arith, calm))
    ]
    | inr (i, lt, here) ↦ inr (i, omega arith, here)
  ]
