-- ===== src/CircularBuffer/Effects.antt =====
-- What each step of a thread in `push_back` or `pop` does to the buffer (circular_buffer.h).
use shared_memory_hashtable.Sync.{wait}
use shared_memory_hashtable.Common.{
  ℕ, ◌+◌, ◌-◌, ◌≤◌, ◌≡◌, refl, sym, ◌∙◌, Bool, false, List, [], ◌∷◌, ◌++◌, append_assoc, arith,
  ◌==◌, Run, ok, Bool-cases, inl, inr, Fault, fault, blocked, ◌↔◌, ok-injective,
}
use shared_memory_hashtable.CircularBuffer.{
  CircularBuffer, wait_full, wait_open, post_full, post_open,
}
use shared_memory_hashtable.CircularBuffer.Shape.{
  IsShaped, contents, put_tail-back, take_head-front, Leaves,
}
use shared_memory_hashtable.CircularBuffer.Fifo.{reshape, is_empty-free, is_full-free}
use shared_memory_hashtable.CircularBuffer.Threads.{
  Pc, Event, silent, enqueued, dequeued, Move, refuse, admit, grab_open, place, publish, see_none,
  see_some, grab_full, take, free, log_put, log_taken,
}

fault-ok {ℓ} : {A : Type ℓ} {e : Fault} {a : A} → fault e ≡ ok a → ⊥
fault-ok h = cc

module _ {ℓ} {T : Type ℓ} where
  -- a thread that holds a slot which `_fullSlots` does not count, or no longer
  abbrev pub in_full : Pc T → ℕ
  in_full (Pc.placed _) = 1
  in_full Pc.taking = 1
  in_full _ = 0

  -- a thread that holds a slot which `_openSlots` no longer counts, or not yet
  abbrev pub in_open : Pc T → ℕ
  in_open (Pc.placing _) = 1
  in_open (Pc.took _ _) = 1
  in_open _ = 0

  -- what a step does to the shared buffer
  pub record Effect (blank : T) (b : CircularBuffer T) (p : Pc T) (e : Event T)
      (b' : CircularBuffer T) (p' : Pc T) : Type ℓ where
    pub shaped' : IsShaped b'
    pub free' : b'.held ≡ false
    pub width' : b'.capacity ≡ b.capacity
    pub full' : b.size + b'.full_slots + in_full p' ≡ b'.size + b.full_slots + in_full p
    pub open' : b.open_slots + in_open p + b.size ≡ b'.open_slots + in_open p' + b'.size
    pub history' :
        (l m : List (T × ℕ))
        → l ≡ m ++ contents blank b
        → log_put e l ≡ log_taken e m ++ contents blank b'

  same_buffer :
      {b b' : CircularBuffer T} {x y : Bool}
      → ◌≡◌ {A = Run (Bool × CircularBuffer T)} (ok (x, b)) (ok (y, b'))
      → b ≡ b'
  same_buffer e = cc

  pub wait_open-blocked :
      (b : CircularBuffer T) → (wait_open b ≡ fault blocked) ↔ (b.open_slots ≡ 0)
  unfolding wait_open wait
  wait_open-blocked b = elim (Bool-cases (b.open_slots == 0)) [
    | inl z ↦ (λ _. ground arith, λ _. rw z)
    | inr p ↦ (λ h. absurd (fault-ok (sym (rw p at h))), λ e. absurd (ground arith))
  ]

  pub wait_full-blocked :
      (b : CircularBuffer T) → (wait_full b ≡ fault blocked) ↔ (b.full_slots ≡ 0)
  unfolding wait_full wait
  wait_full-blocked b = elim (Bool-cases (b.full_slots == 0)) [
    | inl z ↦ (λ _. ground arith, λ _. rw z)
    | inr p ↦ (λ h. absurd (fault-ok (sym (rw p at h))), λ e. absurd (ground arith))
  ]

  -- a step that leaves the buffer
  stay :
      (blank : T) {b b' : CircularBuffer T} (p p' : Pc T)
      → in_full p ≡ in_full p'
      → in_open p ≡ in_open p'
      → IsShaped b
      → b.held ≡ false
      → b ≡ b'
      → Effect blank b p silent b' p'
  stay blank {b} p p' same_full same_open shaped unlocked e = rw (← e) (record {
    shaped' = shaped;
    free' = unlocked;
    width' = refl;
    full' = omega arith;
    open' = omega arith;
    history' = λ l m h. h;
  })

  -- a step on the semaphores only
  tokens :
      (blank : T) {b b' : CircularBuffer T} (p p' : Pc T) (o f : ℕ)
      → IsShaped b
      → b.held ≡ false
      → f + in_full p' ≡ b.full_slots + in_full p
      → b.open_slots + in_open p ≡ o + in_open p'
      → b' ≡ record b { open_slots = o; full_slots = f }
      → Effect blank b p silent b' p'
  tokens blank {b} p p' o f shaped unlocked fulls opens e = rw e (record {
    shaped' = reshape o f shaped;
    free' = unlocked;
    width' = refl;
    full' = omega arith;
    open' = omega arith;
    history' = λ l m h. h;
  })

  wait_open-ok :
      {b b' : CircularBuffer T}
      → wait_open b ≡ ok b'
      → (1 ≤ b.open_slots) × (b' ≡ record b { open_slots = b.open_slots - 1 })
  unfolding wait_open wait
  wait_open-ok {b} {b'} h = elim (Bool-cases (b.open_slots == 0)) [
    | inl z ↦ absurd (fault-ok (rw z at h))
    | inr p ↦ (ground arith, ok-injective (sym h ∙ rw p))
  ]

  wait_full-ok :
      {b b' : CircularBuffer T}
      → wait_full b ≡ ok b'
      → (1 ≤ b.full_slots) × (b' ≡ record b { full_slots = b.full_slots - 1 })
  unfolding wait_full wait
  wait_full-ok {b} {b'} h = elim (Bool-cases (b.full_slots == 0)) [
    | inl z ↦ absurd (fault-ok (rw z at h))
    | inr p ↦ (ground arith, ok-injective (sym h ∙ rw p))
  ]

  placing-Effect :
      (blank : T) {b b' b₁ : CircularBuffer T} (x : T) {i j : ℕ}
      → (shaped : IsShaped b) → (unlocked : b.held ≡ false)
      → ◌≡◌ {A = Run (ℕ × CircularBuffer T)} (ok (j, b₁)) (ok (i, b'))
      → j ≡ b.tail_idx
      → Leaves blank shaped unlocked b₁
      → b₁.size ≡ b.size + 1
      → contents blank b₁ ≡ contents blank b ++ (x, b.tail_idx) ∷ []
      → Effect blank b (Pc.placing x) (enqueued x i) b' (Pc.placed i)
  placing-Effect blank {b} {b'} {b₁} x {i} {j} shaped unlocked same at_tail l n q =
      let e : b₁ ≡ b' = cc in
      let index : b.tail_idx ≡ i = cc in
      rw (← e) (record {
        shaped' = l.shaped';
        free' = l.free';
        width' = l.capacity';
        full' = omega (arith, l.full');
        open' = omega (arith, l.open');
        history' = λ h m r. rw (r, q, index) (append_assoc m (contents blank b) ((x, i) ∷ []));
      })

  taking-Effect :
      (blank : T) {b b' b₁ : CircularBuffer T} {x y : T} {i j : ℕ}
      → (shaped : IsShaped b) → (unlocked : b.held ≡ false)
      → ◌≡◌ {A = Run (T × ℕ × CircularBuffer T)} (ok (y, j, b₁)) (ok (x, i, b'))
      → j ≡ b.head_idx
      → Leaves blank shaped unlocked b₁
      → b₁.size + 1 ≡ b.size
      → contents blank b ≡ (y, j) ∷ contents blank b₁
      → Effect blank b Pc.taking (dequeued x i) b' (Pc.took x i)
  taking-Effect blank {b} {b'} {b₁} {x} {y} {i} {j} shaped unlocked same at_head l n q =
      let e : b₁ ≡ b' = cc in
      let elem : y ≡ x = cc in
      let index : j ≡ i = cc in
      rw (← e) (record {
        shaped' = l.shaped';
        free' = l.free';
        width' = l.capacity';
        full' = omega (arith, l.full');
        open' = omega (arith, l.open');
        history' = λ h m r.
            rw (r, q, elem, index) (sym (append_assoc m ((x, i) ∷ []) (contents blank b₁)));
      })

  pub Move-Effect :
      (blank : T) {b b' : CircularBuffer T} {p p' : Pc T} {e : Event T}
      → Move b p e b' p'
      → IsShaped b
      → b.held ≡ false
      → in_open p + b.size ≤ b.capacity
      → in_full p ≤ b.size
      → Effect blank b p e b' p'
  unfolding post_full post_open
  Move-Effect blank (refuse h) shaped unlocked room stock =
      stay blank Pc.idle Pc.idle refl refl shaped unlocked
        (same_buffer (sym (is_full-free unlocked) ∙ h))
  Move-Effect blank (admit x h) shaped unlocked room stock =
      stay blank Pc.idle (Pc.want_open x) refl refl shaped unlocked
        (same_buffer (sym (is_full-free unlocked) ∙ h))
  Move-Effect blank {b} (grab_open {x = x} h) shaped unlocked room stock =
      let (some_open, e) = wait_open-ok h in
      tokens blank (Pc.want_open x) (Pc.placing x) (b.open_slots - 1) b.full_slots shaped unlocked
        refl (omega arith) e
  Move-Effect blank {b} (place {x = x} h) shaped unlocked room stock =
      let ((i, b₁), run, (e, l, n, t, q)) = put_tail-back blank shaped unlocked x (omega arith) in
      placing-Effect blank x shaped unlocked (sym run ∙ h) e l n q
  Move-Effect blank {b} (publish {i = i}) shaped unlocked room stock =
      tokens blank (Pc.placed i) Pc.idle b.open_slots (b.full_slots + 1) shaped unlocked
        (omega arith) refl refl
  Move-Effect blank (see_none h) shaped unlocked room stock =
      stay blank Pc.idle Pc.idle refl refl shaped unlocked
        (same_buffer (sym (is_empty-free unlocked) ∙ h))
  Move-Effect blank (see_some h) shaped unlocked room stock =
      stay blank Pc.idle Pc.want_full refl refl shaped unlocked
        (same_buffer (sym (is_empty-free unlocked) ∙ h))
  Move-Effect blank {b} (grab_full h) shaped unlocked room stock =
      let (some_full, e) = wait_full-ok h in
      tokens blank Pc.want_full Pc.taking b.open_slots (b.full_slots - 1) shaped unlocked
        (omega arith) refl e
  Move-Effect blank (take h) shaped unlocked room stock =
      let ((x, i, b₁), run, (e, l, n, t, q)) = take_head-front blank shaped unlocked stock in
      taking-Effect blank shaped unlocked (sym run ∙ h) e l n q
  Move-Effect blank {b} (free {x = x} {i = i}) shaped unlocked room stock =
      tokens blank (Pc.took x i) Pc.idle (b.open_slots + 1) b.full_slots shaped unlocked refl
        (omega arith) refl
