-- ===== src/CircularBuffer/Interleaving.antt =====
-- What holds in every interleaving of `push_back` and `pop` (circular_buffer.h).
use shared_memory_hashtable.Common.{
  ℕ, ◌+◌, ◌^◌, ◌≤◌, ◌<◌, ◌≡◌, refl, sym, ◌∙◌, false, ◌++◌, arith, Returns, total, total-update,
  total-pos, total-zero, fault, blocked, ◌↔◌,
}
use shared_memory_hashtable.CircularBuffer.{new, wait_full, wait_open, take_head, put_tail}
use shared_memory_hashtable.CircularBuffer.Shape.{
  IsShaped, contents, put_tail-back, take_head-front, contents-nil,
}
use shared_memory_hashtable.CircularBuffer.Fifo.{new-IsValid}
use shared_memory_hashtable.CircularBuffer.Threads.{
  Pc, System, Step, pick, init, Reach, start, later,
}
use shared_memory_hashtable.CircularBuffer.Effects.{
  in_full, in_open, Move-Effect, wait_open-blocked, wait_full-blocked,
}

module _ {ℓ} {T : Type ℓ} where
  pub record Inv (n slots : ℕ) (blank : T) (s : System T) : Type ℓ where
    pub shaped : IsShaped s.shared
    pub unlocked : s.shared.held ≡ false
    pub width : s.shared.capacity ≡ slots
    pub fulls : s.shared.size ≡ s.shared.full_slots + total in_full n s.pc
    pub opens : s.shared.open_slots + total in_open n s.pc + s.shared.size ≡ slots
    pub history : s.put ≡ s.taken ++ contents blank s.shared

  Step-Inv :
      {n slots : ℕ} (blank : T) {s t : System T}
      → Step n s t
      → Inv n slots blank s
      → Inv n slots blank t
  Step-Inv {n} blank {s} (pick i {p' = p'} lt move) inv =
      let f =
        Move-Effect blank move inv.shaped inv.unlocked
          (omega (arith, inv.opens, inv.width, total-pos in_open n s.pc i lt))
          (omega (arith, inv.fulls, total-pos in_full n s.pc i lt)) in
      record {
        shaped = f.shaped';
        unlocked = f.free';
        width = f.width' ∙ inv.width;
        fulls = omega (arith, f.full', inv.fulls, total-update in_full n s.pc i p' lt);
        opens = omega (arith, f.open', inv.opens, total-update in_open n s.pc i p' lt);
        history = f.history' s.put s.taken inv.history;
      }

  pub Reach-Inv :
      {n slots : ℕ} {blank : T} {s : System T}
      → 1 ≤ slots
      → slots < 2 ^ 31
      → Reach n slots blank s
      → Inv n slots blank s
  unfolding init new
  Reach-Inv {n} {slots} {blank} lo hi start =
      let v = new-IsValid slots blank lo hi in
      record {
        shaped = v.shaped;
        unlocked = v.free;
        width = refl;
        fulls = omega (arith, total-zero (in_full {T = T}) n Pc.idle refl);
        opens = omega (arith, total-zero (in_open {T = T}) n Pc.idle refl);
        history = sym (contents-nil blank (new slots blank) refl);
      }
  Reach-Inv {blank = blank} lo hi (later r st) = Step-Inv blank st (Reach-Inv lo hi r)

  -- Whatever threads do in push_back and pop on a buffer of 1 to 2 ^ 31 - 1 slots, what was put in
  -- is what was taken out followed by what the buffer holds, in that order and under the same
  -- indices, and never more elements than slots are held.
  pub interleaved_fifo :
      {n slots : ℕ} {blank : T} {s : System T}
      → 1 ≤ slots
      → slots < 2 ^ 31
      → Reach n slots blank s
      → (s.put ≡ s.taken ++ contents blank s.shared) × (s.shared.size ≤ slots)
  interleaved_fifo lo hi r = let inv = Reach-Inv lo hi r in (inv.history, omega (arith, inv.opens))

  -- On a buffer of 1 to 2 ^ 31 - 1 slots, whatever other threads do, a thread of push_back behind
  -- its semaphore wait does not reach exit(-1) nor an index out of range: the block under the mutex
  -- returns, with the index of a slot.
  pub place_safe :
      {n slots : ℕ} {blank : T} {s : System T} {x : T} (i : ℕ)
      → 1 ≤ slots
      → slots < 2 ^ 31
      → Reach n slots blank s
      → i < n
      → s.pc i ≡ Pc.placing x
      → Returns (put_tail s.shared x) (λ r. r.0 < slots)
  place_safe {n} {blank = blank} {s} {x} i lo hi r lt at =
      let inv = Reach-Inv lo hi r in
      let mine : in_open (s.pc i) ≡ 1 = rw at in
      let (res, run, (e, _, _, _, _)) =
        put_tail-back blank inv.shaped inv.unlocked x
          (omega (arith, inv.opens, inv.width, total-pos in_open n s.pc i lt)) in
      (res, run, rw (e, inv.shaped.tail_at) (omega (arith, inv.shaped.wide, inv.width)))

  -- On a buffer of 1 to 2 ^ 31 - 1 slots, whatever other threads do, a thread of pop behind its
  -- semaphore wait does not reach exit(-1) nor an index out of range: the block under the mutex
  -- returns, with the index of a slot.
  pub take_safe :
      {n slots : ℕ} {blank : T} {s : System T} (i : ℕ)
      → 1 ≤ slots
      → slots < 2 ^ 31
      → Reach n slots blank s
      → i < n
      → s.pc i ≡ Pc.taking
      → Returns (take_head s.shared) (λ r. r.1 < slots)
  take_safe {n} {blank = blank} {s} i lo hi r lt at =
      let inv = Reach-Inv lo hi r in
      let mine : in_full (s.pc i) ≡ 1 = rw at in
      let (res, run, (e, _, _, _, _)) =
        take_head-front blank inv.shaped inv.unlocked
          (omega (arith, inv.fulls, total-pos in_full n s.pc i lt)) in
      (res, run, rw e (omega (arith, inv.shaped.head_in, inv.width)))

  -- On a buffer of 1 to 2 ^ 31 - 1 slots, while no thread holds a slot between a wait and a post, a
  -- wait for an open slot blocks exactly if the buffer is full, and a wait for a full slot exactly
  -- if it is empty.
  pub blocks_only_when :
      {n slots : ℕ} {blank : T} {s : System T}
      → 1 ≤ slots
      → slots < 2 ^ 31
      → Reach n slots blank s
      → total in_open n s.pc ≡ 0
      → total in_full n s.pc ≡ 0
      → ((wait_open s.shared ≡ fault blocked) ↔ (s.shared.size ≡ slots))
        × ((wait_full s.shared ≡ fault blocked) ↔ (s.shared.size ≡ 0))
  unfolding wait_open wait_full
  blocks_only_when {s = s} lo hi r quiet_open quiet_full =
      let inv = Reach-Inv lo hi r in
      let opens = inv.opens in
      let fulls = inv.fulls in
      let (o₁, o₂) = wait_open-blocked s.shared in
      let (f₁, f₂) = wait_full-blocked s.shared in
      (
        (λ h. let z = o₁ h in omega arith, λ h. o₂ (omega arith)),
        (λ h. let z = f₁ h in omega arith, λ h. f₂ (omega arith)),
      )
