-- ===== src/HashTable/Threads/Rounds.antt =====
-- The rounds of the loop of `needsResize` and `resize` in a call of `insert` or `remove` (hashtable.h),
-- while no other thread holds a lock.
use shared_memory_hashtable.Common.{
  ℕ, zero, suc, ◌+◌, ◌*◌, ◌/◌, ◌≤◌, ◌<◌, ◌≡◌, ◌≢◌, refl, ◌∙◌, sym, ap, Bool, true, false, arith,
  update, total, Bool-cases, inl, inr, ◌==◌,
}
use shared_memory_hashtable.HashTable.{load_verdict, needs_resize}
use shared_memory_hashtable.HashTable.Keys.{Key}
use shared_memory_hashtable.HashTable.Buckets.{max_size}
use shared_memory_hashtable.HashTable.Resizing.{load, judged, judged-eq}
use shared_memory_hashtable.HashTable.Verdict.{
  next_capacity, verdict-cases, verdict-one, verdict-two, grown, shrunk,
}
use shared_memory_hashtable.HashTable.Threads.{
  calling, Stage, entering, asking, measuring, resizing, working, Call, delta, shares, first_stage,
  System, enter, content, ask, settled, unsettled, rehash,
}
use shared_memory_hashtable.HashTable.Threads.Holding.{busy}
use shared_memory_hashtable.HashTable.Threads.Exclusive.{delta-IsUnit, exclusive}
use shared_memory_hashtable.HashTable.Threads.Solo.{Below, IsSolo, solo_working, onward}

module _ {ℓ} {K V : Type ℓ} ⦃key : Key K⦄ where
  -- The table of `t` is that of `s` behind a `resize` that did something.
  record Resized (op : Call K V) (s t : System K V) : Type ℓ where
    asked : judged (delta op) (delta-IsUnit op) s.table ≢ 0
    size' : t.table.size ≡ s.table.size
    width' :
        t.table.capacity
        ≡ next_capacity (judged (delta op) (delta-IsUnit op) s.table) s.table.capacity

  -- The policy is not content where a thread unlocks the table.
  judged-load_verdict :
      (op : Call K V) (s : System K V)
      → s.table.size ≢ 0
      → load_verdict s.table (delta op) ≢ 0
      → judged (delta op) (delta-IsUnit op) s.table ≢ 0
  unfolding needs_resize
  judged-load_verdict op s filled wrong h =
      let filled' : (s.table.size == 0) ≡ false = ground arith in
      let same : needs_resize s.table (delta op) ≡ load_verdict s.table (delta op) = rw filled' in
      wrong (sym same ∙ judged-eq (delta op) (delta-IsUnit op) s.table ∙ h)

  module _ {n : ℕ} {dynamic : Bool} (i m : ℕ) (lt : i < n) where
    resizing_round :
        {s : System K V} (op : Call K V)
        → IsSolo n dynamic i m s
        → s.pc i ≡ calling resizing op
        → judged (delta op) (delta-IsUnit op) s.table ≢ 0
        → ((t : System K V)
            → IsSolo n dynamic i m t
            → t.pc i ≡ calling entering op
            → Resized op s t
            → Below n dynamic t m)
        → Below n dynamic s m
    resizing_round {s} op solo e wrong rest =
        let free : total shares n s.pc ≡ 0 = solo.alone ∙ ap shares e in
        let (exact, (t', run, h)) =
          exclusive i op solo.inv (λ d. omega (arith, solo.room d)) lt e free in
        onward i m lt op resizing entering solo e (rehash i lt e free run) tt refl refl (λ solo' e'.
          rest (record s { table = t'; pc = update s.pc i (calling entering op) }) solo' e'
            (record { asked = wrong; size' = h.size; width' = h.width }))

    asking_round :
        {s : System K V} (op : Call K V)
        → IsSolo n dynamic i m s
        → s.pc i ≡ calling asking op
        → ((t : System K V)
            → IsSolo n dynamic i m t
            → t.pc i ≡ calling entering op
            → Resized op s t
            → Below n dynamic t m)
        → Below n dynamic s m
    asking_round {s} op solo e rest = elim (Bool-cases (s.table.size == 0)) [
      | inl empty ↦
          onward i m lt op asking working solo e (content i lt e (ground arith)) tt refl refl
            (λ solo₁ e₁. solo_working i m lt op solo₁ e₁)
      | inr filled ↦
          let some_in : s.table.size ≢ 0 = ground arith in
          onward i m lt op asking measuring solo e (ask i lt e some_in) tt refl refl (λ solo₁ e₁.
            elim (Bool-cases (load_verdict s.table (delta op) == 0)) [
              | inl fine ↦
                  onward i m lt op measuring working solo₁ e₁ (settled i lt e₁ (ground arith)) tt
                    refl refl (λ solo₂ e₂. solo_working i m lt op solo₂ e₂)
              | inr wrong ↦
                  let wrong' : load_verdict s.table (delta op) ≢ 0 = ground arith in
                  onward i m lt op measuring resizing solo₁ e₁ (unsettled i lt e₁ wrong') tt refl
                    refl
                    (λ solo₂ e₂.
                      resizing_round op solo₂ e₂ (judged-load_verdict op s some_in wrong')
                        (λ t solo₃ e₃ h.
                          rest t solo₃ e₃
                            (record { asked = h.asked; size' = h.size'; width' = h.width' })))
            ])
    ]

    -- One round of the loop, and then the call or the rest of the loop.
    round :
        {s : System K V} (op : Call K V)
        → IsSolo n dynamic i m s
        → s.pc i ≡ calling entering op
        → s.table.resizable ≡ true
        → ((t : System K V)
            → IsSolo n dynamic i m t
            → t.pc i ≡ calling entering op
            → Resized op s t
            → Below n dynamic t m)
        → Below n dynamic s m
    round {s} op solo e grows rest =
        onward i m lt op entering (first_stage s.table) solo e (enter i lt e) tt refl refl
          (λ solo₁ e₁. asking_round op solo₁ (e₁ ∙ rw grows) (λ t solo' e' h.
            rest t solo' e' (record { asked = h.asked; size' = h.size'; width' = h.width' })))

    -- how many entries the table has while a thread is outside its buckets
    small :
        {s : System K V} (op : Call K V) (st : Stage)
        → IsSolo n dynamic i m s
        → s.pc i ≡ calling st op
        → s.table.resizable ≡ true
        → s.table.size ≤ max_size
    small op st solo e grows =
        let inv = solo.inv in
        let few = solo.room (sym inv.kind ∙ grows) in
        omega (arith, inv.sized (omega arith), inv.logged, few, solo.calm, ap busy e)

    growing :
        (fuel : ℕ) {s : System K V} (op : Call K V)
        → IsSolo n dynamic i m s
        → s.pc i ≡ calling entering op
        → s.table.resizable ≡ true
        → judged (delta op) (delta-IsUnit op) s.table ≢ 2
        → 4 * s.table.size + 10 ≤ fuel + s.table.capacity
        → 1 ≤ fuel
        → Below n dynamic s m
    growing zero op solo e grows up enough some_fuel = absurd (omega arith)
    growing (suc fuel) {s} op solo e grows up enough some_fuel =
        round op solo e grows (λ t solo' e' h.
          let j : judged (delta op) (delta-IsUnit op) s.table ≡ 1 =
            elim (verdict-cases s.table.size s.table.capacity
              (load (delta op) (delta-IsUnit op) s.table)) [
                | inl none_asked ↦ absurd (h.asked none_asked)
                | inr (inl one) ↦ one
                | inr (inr two) ↦ absurd (up two)
              ] in
          let (ne, room) =
            verdict-one s.table.size s.table.capacity (load (delta op) (delta-IsUnit op) s.table)
              j in
          let close = delta-IsUnit op s.table.size (omega arith) (small op entering solo e grows) in
          let width : t.table.capacity ≡ s.table.capacity * 2 = rw j at (h.width') in
          let again : judged (delta op) (delta-IsUnit op) t.table ≢ 2 =
            rw (h.size', width)
              (grown s.table.size s.table.capacity (load (delta op) (delta-IsUnit op) s.table)
                solo.inv.shape.wide j) in
          growing fuel op solo' e' (solo'.inv.kind ∙ sym solo.inv.kind ∙ grows) again
            (omega (arith, h.size', width, solo.inv.shape.wide)) (omega arith))

    shrinking :
        (fuel : ℕ) {s : System K V} (op : Call K V)
        → IsSolo n dynamic i m s
        → s.pc i ≡ calling entering op
        → s.table.resizable ≡ true
        → judged (delta op) (delta-IsUnit op) s.table ≢ 1
        → s.table.capacity < fuel
        → Below n dynamic s m
    shrinking zero op solo e grows down enough = absurd (omega arith)
    shrinking (suc fuel) {s} op solo e grows down enough = round op solo e grows (λ t solo' e' h.
        let j : judged (delta op) (delta-IsUnit op) s.table ≡ 2 =
          elim (verdict-cases s.table.size s.table.capacity
            (load (delta op) (delta-IsUnit op) s.table)) [
              | inl none_asked ↦ absurd (h.asked none_asked)
              | inr (inl one) ↦ absurd (down one)
              | inr (inr two) ↦ two
            ] in
        let (some_left, wide, low) =
          verdict-two s.table.size s.table.capacity (load (delta op) (delta-IsUnit op) s.table) j in
        let width : t.table.capacity ≡ (s.table.capacity + 1) / 2 = rw j at (h.width') in
        let again : judged (delta op) (delta-IsUnit op) t.table ≢ 1 =
          rw (h.size', width)
            (shrunk s.table.size s.table.capacity (load (delta op) (delta-IsUnit op) s.table) j) in
        shrinking fuel op solo' e' (solo'.inv.kind ∙ sym solo.inv.kind ∙ grows) again
          (omega (arith, width)))

    pub solo_entering :
        {s : System K V} (op : Call K V)
        → IsSolo n dynamic i m s
        → s.pc i ≡ calling entering op
        → Below n dynamic s m
    solo_entering {s} op solo e = elim (Bool-cases s.table.resizable) [
      | inr static ↦
          onward i m lt op entering (first_stage s.table) solo e (enter i lt e) tt refl refl
            (λ solo₁ e₁. solo_working i m lt op solo₁ (e₁ ∙ rw static))
      | inl grows ↦
          let fuel = 4 * s.table.size + s.table.capacity + 32 in
          elim (verdict-cases s.table.size s.table.capacity
            (load (delta op) (delta-IsUnit op) s.table)) [
              | inl zero_asked ↦
                  growing fuel op solo e grows (omega arith) (omega arith) (omega arith)
              | inr (inl one) ↦
                  growing fuel op solo e grows (omega arith) (omega arith) (omega arith)
              | inr (inr two) ↦ shrinking fuel op solo e grows (omega arith) (omega arith)
            ]
    ]
