-- ===== src/HashTable/Resizing.antt =====
-- The resizing policy (hashtable.h, `needsResize`, `load_factor`, `resize` and the loop that calls
-- it in `insert` and `remove`).
use shared_memory_hashtable.Common.{
  ℕ, zero, suc, ◌+◌, ◌*◌, ◌/◌, ◌%◌, ◌≤◌, ◌<◌, ◌≢◌, ◌≡◌, inl, inr, refl, ◌∙◌, false, arith,
  if◌then◌else◌, ◌==◌, size_mod, ℤ, to_size, Returns, true, Bool-cases, ap, ok,
}
use shared_memory_hashtable.HashTable.{
  HashTable, load_factor, needs_resize, load_verdict, resize, resize_loop, rounds, make_room,
}
use shared_memory_hashtable.HashTable.Keys.{Key}
use shared_memory_hashtable.HashTable.Buckets.{max_size, IsValid, view}
use shared_memory_hashtable.HashTable.Rehash.{Holds, rebuild-Holds}
use shared_memory_hashtable.HashTable.Verdict.{
  verdict, next_capacity, IsUnit, grown, shrunk, verdict-one, verdict-two, verdict-cases,
}

module _ {ℓ} {K V : Type ℓ} where
  needs_resize-verdict :
      (t : HashTable K V) (delta : ℤ)
      → needs_resize t delta ≡ verdict t.size t.capacity ((t.size + to_size delta) % size_mod)
  unfolding needs_resize load_verdict load_factor
  needs_resize-verdict t delta = ground arith

-- What the loop leaves: the same bindings, and a capacity with which the policy is content.
pub record Settled {ℓ} {K V : Type ℓ} ⦃key : Key K⦄ (delta : ℤ) (t t' : HashTable K V)
    : Type ℓ where
  pub valid : IsValid t'
  pub size : t'.size ≡ t.size
  pub resizable : t'.resizable ≡ t.resizable
  pub reads : (q : K) → view t' q ≡ view t q
  pub content : needs_resize t' delta ≡ 0

module _ {ℓ} {K V : Type ℓ} ⦃key : Key K⦄ (delta : ℤ) (unit : IsUnit delta) where
  -- the entries that the policy expects
  abbrev pub load : HashTable K V → ℕ
  load t = (t.size + to_size delta) % size_mod

  abbrev pub judged : HashTable K V → ℕ
  judged t = verdict t.size t.capacity (load t)

  pub judged-eq : (t : HashTable K V) → needs_resize t delta ≡ judged t
  judged-eq t = needs_resize-verdict t delta

  resize-Holds :
      {t : HashTable K V}
      → IsValid t
      → t.size ≤ max_size
      → Returns (resize t delta) (Holds t.size (next_capacity (judged t) t.capacity) t (view t))
  unfolding resize
  resize-Holds {t} valid small = elim (verdict-cases t.size t.capacity (load t)) [
    | inl e ↦ (
      t,
      rw (judged-eq t, e),
      record { valid = valid; size = refl; width = rw e; resizable = refl; reads = λ q. refl },
    )
    | inr (inl e) ↦
        let (ne, room) = verdict-one t.size t.capacity (load t) e in
        let close = unit t.size (omega arith) small in
        let c : t.capacity * 2 % size_mod ≡ t.capacity * 2 = omega (arith, valid.bounded) in
        rw (judged-eq t, e, c)
          (rebuild-Holds (t.capacity * 2) valid small (omega (arith, valid.wide)) (omega arith))
    | inr (inr e) ↦
        let (some_left, wide, low) = verdict-two t.size t.capacity (load t) e in
        let c : (t.capacity + 1) % size_mod ≡ t.capacity + 1 = omega (arith, valid.bounded) in
        rw (judged-eq t, e, c)
          (rebuild-Holds ((t.capacity + 1) / 2) valid small (omega arith)
            (omega (arith, valid.bounded)))
  ]

  settle :
      {c : ℕ} {t t₁ t' : HashTable K V}
      → Holds t.size c t (view t) t₁
      → Settled delta t₁ t'
      → Settled delta t t'
  settle h s = record {
    valid = s.valid;
    size = s.size ∙ h.size;
    resizable = s.resizable ∙ h.resizable;
    reads = λ q. s.reads q ∙ h.reads q;
    content = s.content;
  }

  stop :
      (fuel : ℕ) {t : HashTable K V}
      → IsValid t
      → judged t ≡ 0
      → Returns (resize_loop (suc fuel) t delta) (Settled delta t)
  unfolding resize_loop
  stop fuel {t} valid e = (
    t,
    rw (judged-eq t, e, resize_loop),
    record {
      valid = valid;
      size = refl;
      resizable = refl;
      reads = λ q. refl;
      content = judged-eq t ∙ e;
    },
  )

  -- one more round, from a run of the rest of the loop
  again :
      (fuel : ℕ) (t : HashTable K V) {c : ℕ}
      → judged t ≢ 0
      → (r : Returns (resize t delta) (Holds t.size c t (view t)))
      → Returns (resize_loop fuel r.0 delta) (Settled delta r.0)
      → Returns (resize_loop (suc fuel) t delta) (Settled delta t)
  unfolding resize_loop
  again fuel t ne (t₁, run₁, h) (t', run', s) =
      let more : (needs_resize t delta == 0) ≡ false = rw (judged-eq t) (ground arith) in
      (t', rw (more, resize_loop) (rw (run₁, run')), settle h s)

  judged-of :
      {c : ℕ} {t t₁ : HashTable K V}
      → Holds t.size c t (view t) t₁
      → judged t₁ ≡ verdict t.size c (load t)
  judged-of h = rw (h.size, h.width)

  -- Growing ends: each round at least adds a bucket, and none is asked for past 4 * size + 8.
  grow_loop :
      (fuel : ℕ) (t : HashTable K V)
      → IsValid t
      → t.size ≤ max_size
      → judged t ≢ 2
      → 4 * t.size + 10 ≤ fuel + t.capacity
      → 1 ≤ fuel
      → Returns (resize_loop fuel t delta) (Settled delta t)
  grow_loop zero t valid small up enough some_fuel = absurd (omega arith)
  grow_loop (suc fuel) t valid small up enough some_fuel =
      elim (verdict-cases t.size t.capacity (load t)) [
        | inl e ↦ stop fuel valid e
        | inr (inr e) ↦ absurd (up e)
        | inr (inl e) ↦
            let (ne, room) = verdict-one t.size t.capacity (load t) e in
            let close = unit t.size (omega arith) small in
            let r = resize-Holds valid small in
            let width : r.0.capacity ≡ t.capacity * 2 = rw e at (r.2.width) in
            again fuel t (omega arith) r (
              grow_loop fuel r.0 r.2.valid (omega (arith, r.2.size))
                (rw (judged-of r.2, e) (grown t.size t.capacity (load t) valid.wide e))
                (omega (arith, r.2.size, width, valid.wide)) (omega arith))
      ]

  -- Shrinking ends: each round takes away a bucket.
  shrink_loop :
      (fuel : ℕ) (t : HashTable K V)
      → IsValid t
      → t.size ≤ max_size
      → judged t ≢ 1
      → t.capacity < fuel
      → Returns (resize_loop fuel t delta) (Settled delta t)
  shrink_loop zero t valid small down enough = absurd (omega arith)
  shrink_loop (suc fuel) t valid small down enough =
      elim (verdict-cases t.size t.capacity (load t)) [
        | inl e ↦ stop fuel valid e
        | inr (inl e) ↦ absurd (down e)
        | inr (inr e) ↦
            let (some_left, wide, low) = verdict-two t.size t.capacity (load t) e in
            let r = resize-Holds valid small in
            let width : r.0.capacity ≡ (t.capacity + 1) / 2 = rw e at (r.2.width) in
            again fuel t (omega arith) r (
              shrink_loop fuel r.0 r.2.valid (omega (arith, r.2.size))
                (rw (judged-of r.2, e) (shrunk t.size t.capacity (load t) e))
                (omega (arith, width)))
      ]

  -- On a valid table with at most 2 ^ 48 entries, for a delta of 1 or -1, the resize loop of insert
  -- and remove ends within the rounds that it is given. The table keeps its size and its bindings
  -- and stays valid, and its capacity is one with which needsResize answers 0.
  pub resize_loop-Settled :
      {t : HashTable K V}
      → IsValid t
      → t.size ≤ max_size
      → Returns (resize_loop (rounds t) t delta) (Settled delta t)
  resize_loop-Settled {t} valid small = elim (verdict-cases t.size t.capacity (load t)) [
    | inl e ↦ grow_loop (rounds t) t valid small (omega arith) (omega arith) (omega arith)
    | inr (inl e) ↦ grow_loop (rounds t) t valid small (omega arith) (omega arith) (omega arith)
    | inr (inr e) ↦ shrink_loop (rounds t) t valid small (omega arith) (omega arith)
  ]

  pub record Roomy (t t' : HashTable K V) : Type ℓ where
    pub valid : IsValid t'
    pub size : t'.size ≡ t.size
    pub resizable : t'.resizable ≡ t.resizable
    pub reads : (q : K) → view t' q ≡ view t q
    pub content : t.resizable ≡ true → needs_resize t' delta ≡ 0
    pub fixed : t.resizable ≡ false → t' ≡ t

  pub make_room-Roomy :
      {t : HashTable K V} → IsValid t → t.size ≤ max_size → Returns (make_room t delta) (Roomy t)
  unfolding make_room
  make_room-Roomy {t} valid small = elim (Bool-cases t.resizable) [
    | inl dynamic ↦
        let (t', run, s) = resize_loop-Settled valid small in
        (
          t',
          ap (λ b. if b then resize_loop (rounds t) t delta else ok t) dynamic ∙ run,
          record {
            valid = s.valid;
            size = s.size;
            resizable = s.resizable;
            reads = s.reads;
            content = λ _. s.content;
            fixed = λ e. cc;
          },
        )
    | inr static ↦ (
      t,
      ap (λ b. if b then resize_loop (rounds t) t delta else ok t) static,
      record {
        valid = valid;
        size = refl;
        resizable = refl;
        reads = λ q. refl;
        content = λ e. cc;
        fixed = λ _. refl;
      },
    )
  ]
