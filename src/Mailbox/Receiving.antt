-- ===== src/Mailbox/Receiving.antt =====
-- Receiving a response keeps the exchange matched (client.cpp, `sendMsg`).
use shared_memory_hashtable.Common.{
  ℕ, suc, ◌+◌, ◌<◌, ◌≢◌, ◌≡◌, inl, inr, refl, sym, ap, ◌∙◌, true, false, some, arith, ◌==◌, update,
  total, total-update, total-pos, Bool-cases, update_ne, update-cases,
}
use shared_memory_hashtable.Mailbox.{Entry, Slot, Client, Worker, System}
use shared_memory_hashtable.Mailbox.Matching.{
  InQueue, queued, held, filled, awaiting, Inv, weight-one, queued-pos,
}

module _ {Req : Type 0} where
  module _ {n m : ℕ} {s : System Req} (inv : Inv n m s) where
    open inv use {in_range, balance, placed, of_queue, of_worker, of_slot, cleared, own}

    full :
        (c i : ℕ)
        → (s.responses i).ready ≡ true
        → (s.responses i).client_id ≡ suc c
        → filled (suc c) (s.responses i) ≡ 1
    full c i set mine = let e : (suc c == suc c) ≡ true = ground arith in rw (set, mine, e)

    -- While its response is in a slot, a client has no request in the queue or at a server thread.
    not_queued :
        (c i : ℕ) {r : Req}
        → s.clients c ≡ Client.waiting i r
        → (s.responses i).ready ≡ true
        → (s.responses i).client_id ≡ suc c
        → (e : Entry Req) → e.pid ≡ suc c
        → e.closing ≡ false
        → InQueue e s.queue
        → ⊥
    not_queued c i {r} k set mine e p o h = omega (
      arith,
      queued-pos (suc c) e s.queue h p o,
      balance c,
      ap awaiting k,
      full c i set mine,
      total-pos (filled (suc c)) n s.responses i (placed c i r k),
    )

    not_held :
        (c i : ℕ) {r : Req}
        → s.clients c ≡ Client.waiting i r
        → (s.responses i).ready ≡ true
        → (s.responses i).client_id ≡ suc c
        → (w : ℕ) (e : Entry Req) → e.pid ≡ suc c
        → e.closing ≡ false
        → w < m
        → s.workers w ≡ Worker.holding e
        → ⊥
    not_held c i {r} k set mine w e p o lt h = omega (
      arith,
      total-pos (held (suc c)) m s.workers w lt,
      ap (held (suc c)) h,
      weight-one (suc c) e p o,
      balance c,
      ap awaiting k,
      full c i set mine,
      total-pos (filled (suc c)) n s.responses i (placed c i r k),
    )

    -- The response in a client's slot answers its request.
    pub answer :
        (c i : ℕ) {r : Req}
        → s.clients c ≡ Client.waiting i r
        → (s.responses i).ready ≡ true
        → (s.responses i).client_id ≡ suc c
        → (s.responses i).origin ≡ some r
    answer c i {r} k set mine =
        let (c', r', p, k', o) = of_slot i (placed c i r k) set in
        let same : c ≡ c' = omega (arith, p, mine) in
        let now : Client.waiting i r ≡ Client.waiting i r' = sym k ∙ ap s.clients same ∙ k' in
        o ∙ ap some (sym cc)

    received-balance :
        (c i : ℕ) {r : Req}
        → s.clients c ≡ Client.waiting i r
        → (s.responses i).ready ≡ true
        → (s.responses i).client_id ≡ suc c
        → (c' : ℕ)
        → queued (suc c') s.queue
            + total (held (suc c')) m s.workers
            + total
                (filled (suc c'))
                n
                (update s.responses i (record (s.responses i) { ready = false; client_id = 0 }))
          ≡ awaiting (update s.clients c (Client.answered r (s.responses i).origin) c')
    received-balance c i {r} k set mine c' =
        let new : Slot Req = record (s.responses i) { ready = false; client_id = 0 } in
        let counts = total-update (filled (suc c')) n s.responses i new (placed c i r k) in
        elim (Bool-cases (c == c')) [
          | inl same ↦
              let e : c ≡ c' = ground arith in
              rw same (
                omega (
                  arith,
                  counts,
                  balance c',
                  full c' i set (mine ∙ ap suc e),
                  ap (λ j. awaiting (s.clients j)) (sym e) ∙ ap awaiting k,
                ))
          | inr other ↦
              let e : (suc c == suc c') ≡ false = ground arith in
              let none_here : filled (suc c') (s.responses i) ≡ 0 = rw (set, mine, e) in
              rw other (omega (arith, counts, balance c', none_here))
        ]

    pub receive-Inv :
        (c : ℕ) {i : ℕ} {r : Req}
        → s.clients c ≡ Client.waiting i r
        → (s.responses i).ready ≡ true
        → (s.responses i).client_id ≡ suc c
        → Inv n m (record s {
          responses =
              update s.responses i (record (s.responses i) { ready = false; client_id = 0 });
          clients = update s.clients c (Client.answered r (s.responses i).origin);
        })
    receive-Inv c {i} {r} k set mine =
        let low = placed c i r k in
        let x = Client.answered r (s.responses i).origin in
        let new : Slot Req = record (s.responses i) { ready = false; client_id = 0 } in
        record {
          in_range = in_range;
          balance = λ c'. received-balance c i k set mine c';
          placed = λ c' i' r' h. elim (update-cases s.clients c x h) [
            | inl (_, now) ↦ cc
            | inr (_, old) ↦ placed c' i' r' old
          ];
          of_queue = λ e h o.
              let (c', p, k') = of_queue e h o in
              (
                c',
                p,
                update_ne s.clients c c' x
                      (λ same. not_queued c i k set mine e (p ∙ ap suc (sym same)) o h)
                    ∙ k',
              );
          of_worker = λ w e lt h o.
              let (c', p, k') = of_worker w e lt h o in
              (
                c',
                p,
                update_ne s.clients c c' x
                      (λ same. not_held c i k set mine w e (p ∙ ap suc (sym same)) o lt h)
                    ∙ k',
              );
          of_slot = λ i' lt' h. elim (Bool-cases (i == i')) [
            | inl same ↦ absurd (dark (rw same at h))
            | inr other ↦
                let (c', r', p, k', o) = of_slot i' lt' (rw other at h) in
                let apart : c ≢ c' = λ same.
                  let now : Client.waiting i r ≡ Client.waiting i' r' =
                    sym k ∙ ap s.clients same ∙ k' in
                  let e : i ≡ i' = cc in ground arith in
                rw other (c', r', p, update_ne s.clients c c' x apart ∙ k', o)
          ];
          cleared = λ i' h. elim (Bool-cases (i == i')) [
            | inl same ↦ rw same refl
            | inr other ↦ rw other (cleared i' (rw other at h))
          ];
          own = λ c' r' o h. elim (update-cases s.clients c x h) [
            | inl (_, now) ↦ (let a = answer c i k set mine in cc)
            | inr (_, old) ↦ own c' r' o old
          ];
        }
      where
        dark : false ≡ true → ⊥
        dark z = cc
