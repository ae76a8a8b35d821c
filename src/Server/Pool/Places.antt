-- ===== src/Server/Pool/Places.antt =====
-- Where the request or the response of a client can be (message.h, `Mailbox`): in one place at most.
use shared_memory_hashtable.Common.{
  ℕ, suc, ◌+◌, ◌≤◌, ◌<◌, ◌≡◌, ◌≢◌, ◌⊎◌, inl, inr, refl, ap, true, false, List, [], ◌∷◌, arith, ◌==◌,
  Bool-cases, total, total-cases, total-update, total-pos, update, update_ne,
}
use native.Mathlib.Decide.{dec_lt}
use shared_memory_hashtable.Mailbox.{Entry, Slot, Client, Worker, System}
use shared_memory_hashtable.Mailbox.Matching.{
  Inv, InQueue, queued, held, filled, awaiting, weight, weight-one, queued-pos,
}

module _ {Req : Type 0} where
  -- an open request of client `c` that thread `w` holds, one in the queue, and a response in slot `i`
  abbrev pub IsHeld : ℕ → System Req → ℕ → ℕ → Entry Req → Type 0
  IsHeld m s c w e =
      (w < m) × (s.workers w ≡ Worker.holding e) × (e.closing ≡ false) × (e.pid ≡ suc c)

  abbrev pub IsQueued : System Req → ℕ → Entry Req → Type 0
  IsQueued s c e = InQueue e s.queue × (e.closing ≡ false) × (e.pid ≡ suc c)

  abbrev pub IsFilled : ℕ → System Req → ℕ → ℕ → Type 0
  IsFilled n s c i = (i < n) × ((s.responses i).ready ≡ true) × ((s.responses i).client_id ≡ suc c)

  awaiting-le : (x : Client Req) → awaiting x ≤ 1
  awaiting-le Client.idle = omega arith
  awaiting-le (Client.waiting i r) = omega arith
  awaiting-le (Client.answered r o) = omega arith

  -- what weighs something
  weight-pos : (p : ℕ) (e : Entry Req) → 1 ≤ weight p e → (e.closing ≡ false) × (e.pid ≡ p)
  weight-pos p e h = elim (Bool-cases e.closing) [
    | inl closing ↦ absurd (omega (arith, rw closing at h))
    | inr open_request ↦ elim (Bool-cases (e.pid == p)) [
      | inl same ↦ (open_request, ground arith)
      | inr other ↦ absurd (omega (arith, rw (open_request, other) at h))
    ]
  ]

  held-pos :
      (p : ℕ) (x : Worker Req)
      → 1 ≤ held p x
      → (e : Entry Req) × (x ≡ Worker.holding e) × (e.closing ≡ false) × (e.pid ≡ p)
  held-pos p Worker.polling h = absurd (omega arith)
  held-pos p (Worker.holding e) h =
      let (open_request, mine) = weight-pos p e h in (e, refl, open_request, mine)

  filled-pos : (p : ℕ) (x : Slot Req) → 1 ≤ filled p x → (x.ready ≡ true) × (x.client_id ≡ p)
  filled-pos p x h = elim (Bool-cases x.ready) [
    | inl set ↦ elim (Bool-cases (x.client_id == p)) [
      | inl same ↦ (set, ground arith)
      | inr other ↦ absurd (omega (arith, rw (set, other) at h))
    ]
    | inr free ↦ absurd (omega (arith, rw free at h))
  ]

  queued-some :
      (p : ℕ) (q : List (Entry Req))
      → 1 ≤ queued p q
      → (e : Entry Req) × InQueue e q × (e.closing ≡ false) × (e.pid ≡ p)
  queued-some p [] h = absurd (omega arith)
  queued-some p (e ∷ q) h = elim (dec_lt 0 (weight p e)) [
    | yes here ↦ let (open_request, mine) = weight-pos p e here in (e, inl refl, open_request, mine)
    | no not_here ↦
        let (e', inside, open_request, mine) = queued-some p q (omega arith) in
        (e', inr inside, open_request, mine)
  ]

  module _ (n m : ℕ) (s : System Req) (c : ℕ) where
    held-weight : (w : ℕ) (e : Entry Req) → IsHeld m s c w e → held (suc c) (s.workers w) ≡ 1
    held-weight w e (lt, h, open_request, mine) = rw h (weight-one (suc c) e mine open_request)

    held-total : (w : ℕ) (e : Entry Req) → IsHeld m s c w e → 1 ≤ total (held (suc c)) m s.workers
    held-total w e is_held =
        omega (arith, held-weight w e is_held, total-pos (held (suc c)) m s.workers w is_held.0)

    filled-total : (i : ℕ) → IsFilled n s c i → 1 ≤ total (filled (suc c)) n s.responses
    filled-total i (lt, set, mine) =
        let same : ((s.responses i).client_id == suc c) ≡ true = ground arith in
        let one : filled (suc c) (s.responses i) ≡ 1 = rw (set, same) in
        omega (arith, one, total-pos (filled (suc c)) n s.responses i lt)

    queued-total : (e : Entry Req) → IsQueued s c e → 1 ≤ queued (suc c) s.queue
    queued-total e (h, open_request, mine) = queued-pos (suc c) e s.queue h mine open_request

    -- There is one place at most.
    module _ (inv : Inv n m s) where
      one_place :
          queued (suc c) s.queue
            + total (held (suc c)) m s.workers
            + total (filled (suc c)) n s.responses
          ≤ 1
      one_place = omega (arith, inv.balance c, awaiting-le (s.clients c))

      pub held-queued : (w : ℕ) (e e' : Entry Req) → IsHeld m s c w e → IsQueued s c e' → ⊥
      held-queued w e e' is_held is_queued =
          omega (arith, one_place, held-total w e is_held, queued-total e' is_queued)

      pub held-filled : (w i : ℕ) (e : Entry Req) → IsHeld m s c w e → IsFilled n s c i → ⊥
      held-filled w i e is_held is_filled =
          omega (arith, one_place, held-total w e is_held, filled-total i is_filled)

      pub held-held :
          (w w' : ℕ) (e e' : Entry Req) → w ≢ w' → IsHeld m s c w e → IsHeld m s c w' e' → ⊥
      held-held w w' e e' ne is_held is_held' =
          let others = update s.workers w Worker.polling in
          let there : others w' ≡ s.workers w' = update_ne s.workers w w' Worker.polling ne in
          omega (
            arith,
            one_place,
            held-weight w e is_held,
            held-weight w' e' is_held',
            ap (held (suc c)) there,
            total-update (held (suc c)) m s.workers w Worker.polling is_held.0,
            total-pos (held (suc c)) m others w' is_held'.0,
          )

      -- There is none while the client does not wait.
      module _ (calm : awaiting (s.clients c) ≡ 0) where
        pub not_held : (w : ℕ) (e : Entry Req) → IsHeld m s c w e → ⊥
        not_held w e is_held = omega (arith, inv.balance c, calm, held-total w e is_held)

        pub not_filled : (i : ℕ) → IsFilled n s c i → ⊥
        not_filled i is_filled = omega (arith, inv.balance c, calm, filled-total i is_filled)

        pub not_queued : (e : Entry Req) → IsQueued s c e → ⊥
        not_queued e is_queued = omega (arith, inv.balance c, calm, queued-total e is_queued)

      -- There is one while it waits.
      pub placed_somewhere :
          awaiting (s.clients c) ≡ 1
          → ((e : Entry Req) × IsQueued s c e)
            ⊎ (((w : ℕ) × (e : Entry Req) × IsHeld m s c w e) ⊎ ((i : ℕ) × IsFilled n s c i))
      placed_somewhere waits = elim (total-cases (held (suc c)) m s.workers) [
        | inr (w, lt, h) ↦
            let (e, is_holding, open_request, mine) = held-pos (suc c) (s.workers w) h in
            inr (inl (w, e, (lt, is_holding, open_request, mine)))
        | inl no_worker ↦ elim (total-cases (filled (suc c)) n s.responses) [
          | inr (i, lt, h) ↦
              let (set, mine) = filled-pos (suc c) (s.responses i) h in
              inr (inr (i, (lt, set, mine)))
          | inl no_slot ↦
              let (e, inside, open_request, mine) =
                queued-some (suc c) s.queue
                  (omega (arith, no_worker, no_slot, waits, inv.balance c)) in
              inl (e, (inside, open_request, mine))
        ]
      ]
