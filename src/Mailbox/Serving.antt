-- ===== src/Mailbox/Serving.antt =====
-- What the server threads do keeps the exchange matched (server.cpp, `receiveMsg` and `respond`).
use shared_memory_hashtable.Common.{
  ℕ, suc, ◌<◌, ◌≡◌, inl, inr, refl, sym, ap, true, false, some, List, ◌∷◌, arith, ◌==◌, update,
  total-update, Bool-cases, update-cases, subst, if◌then◌else◌,
}
use shared_memory_hashtable.Mailbox.{Entry, Slot, Worker, System}
use shared_memory_hashtable.Mailbox.Matching.{InQueue, queued, held, filled, Inv, weight}

module _ {Req : Type 0} where
  closing_weight : (p : ℕ) (e : Entry Req) → e.closing ≡ true → weight p e ≡ 0
  closing_weight p e h = rw h

  open_weight :
      (p : ℕ) (e : Entry Req) → e.closing ≡ false → weight p e ≡ (if e.pid == p then 1 else 0)
  open_weight p e h = rw h

  module _ {n m : ℕ} {s : System Req} (inv : Inv n m s) where
    open inv use {in_range, balance, placed, of_queue, of_worker, of_slot, cleared, own}

    empty : (c i : ℕ) → (s.responses i).ready ≡ false → filled (suc c) (s.responses i) ≡ 0
    empty c i h = rw h

    pub fetch-Inv :
        (w : ℕ) {e : Entry Req} {rest : List (Entry Req)}
        → w < m
        → s.workers w ≡ Worker.polling
        → s.queue ≡ e ∷ rest
        → Inv n m (record s { queue = rest; workers = update s.workers w (Worker.holding e) })
    fetch-Inv w {e} {rest} lt calm h = record {
      in_range = in_range;
      balance = λ c. omega (
        arith,
        balance c,
        ap (queued (suc c)) h,
        total-update (held (suc c)) m s.workers w (Worker.holding e) lt,
        ap (held (suc c)) calm,
      );
      placed = placed;
      of_queue = λ x k o. of_queue x (subst (InQueue x) (sym h) (inr k)) o;
      of_worker = λ w' x lt' k o. elim (update-cases s.workers w (Worker.holding e) k) [
        | inl (_, now) ↦ of_queue x (subst (InQueue x) (sym h) (inl cc)) o
        | inr (_, old) ↦ of_worker w' x lt' old o
      ];
      of_slot = of_slot;
      cleared = cleared;
      own = own;
    }

    pub close-Inv :
        (w : ℕ) {e : Entry Req}
        → w < m
        → s.workers w ≡ Worker.holding e
        → e.closing ≡ true
        → Inv n m (record s { workers = update s.workers w Worker.polling })
    close-Inv w {e} lt busy closing_request = record {
      in_range = in_range;
      balance = λ c. omega (
        arith,
        balance c,
        total-update (held (suc c)) m s.workers w Worker.polling lt,
        ap (held (suc c)) busy,
        closing_weight (suc c) e closing_request,
      );
      placed = placed;
      of_queue = of_queue;
      of_worker = λ w' x lt' k o. elim (update-cases s.workers w Worker.polling k) [
        | inl (_, now) ↦ cc
        | inr (_, old) ↦ of_worker w' x lt' old o
      ];
      of_slot = of_slot;
      cleared = cleared;
      own = own;
    }

    pub deliver-Inv :
        (w : ℕ) {e : Entry Req}
        → w < m
        → s.workers w ≡ Worker.holding e
        → e.closing ≡ false
        → (s.responses e.idx).ready ≡ false
        → (s.responses e.idx).client_id ≡ 0
        → Inv n m (record s {
          responses =
              update s.responses e.idx
                (record { ready = true; client_id = e.pid; origin = some e.req });
          workers = update s.workers w Worker.polling;
        })
    deliver-Inv w {e} lt busy open_request free unowned =
        let (c, mine, k) = of_worker w e lt busy open_request in
        let new : Slot Req = record { ready = true; client_id = e.pid; origin = some e.req } in
        let low = placed c e.idx e.req k in
        record {
          in_range = in_range;
          balance = λ c'. omega (
            arith,
            balance c',
            total-update (held (suc c')) m s.workers w Worker.polling lt,
            ap (held (suc c')) busy,
            open_weight (suc c') e open_request,
            total-update (filled (suc c')) n s.responses e.idx new low,
            empty c' e.idx free,
          );
          placed = placed;
          of_queue = of_queue;
          of_worker = λ w' x lt' k' o. elim (update-cases s.workers w Worker.polling k') [
            | inl (_, now) ↦ cc
            | inr (_, old) ↦ of_worker w' x lt' old o
          ];
          of_slot = λ i lt' k'. elim (Bool-cases (e.idx == i)) [
            | inl same ↦
                let here : e.idx ≡ i = ground arith in rw same (c, e.req, mine, rw here at k, refl)
            | inr other ↦ rw other (of_slot i lt' (rw other at k'))
          ];
          cleared = λ i k'. elim (Bool-cases (e.idx == i)) [
            | inl same ↦ absurd (clash (rw same at k'))
            | inr other ↦ rw other (cleared i (rw other at k'))
          ];
          own = own;
        }
      where
        clash : true ≡ false → ⊥
        clash z = cc
