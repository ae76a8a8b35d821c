-- ===== src/Mailbox/Sending.antt =====
-- Sending a request and going on after its response keep the exchange matched (client.cpp,
-- `sendMsg`).
use shared_memory_hashtable.Common.{
  ℕ, suc, ◌+◌, ◌%◌, ◌≡◌, inl, inr, sym, ap, ◌∙◌, true, false, Option, [], ◌∷◌, ◌++◌, arith, ◌==◌,
  update, total, Bool-cases, update_self, update-cases,
}
use shared_memory_hashtable.Mailbox.{Entry, Client, System}
use shared_memory_hashtable.Mailbox.Matching.{
  queued, held, filled, awaiting, Inv, queued-append, InQueue-append,
}

module _ {Req : Type 0} where
  module _ {n m : ℕ} {s : System Req} (inv : Inv n m s) where
    open inv use {in_range, balance, placed, of_queue, of_worker, of_slot, cleared, own}

    -- what a client that waits keeps through a step of client `c`, which does not wait
    keeps :
        (c : ℕ) (x : Client Req) {c' i : ℕ} {r : Req}
        → awaiting (s.clients c) ≡ 0
        → s.clients c' ≡ Client.waiting i r
        → update s.clients c x c' ≡ Client.waiting i r
    keeps c x {c'} calm h = elim (Bool-cases (c == c')) [
      | inl same ↦
          let e : c ≡ c' = ground arith in
          absurd (awake (sym calm ∙ ap (λ k. awaiting (s.clients k)) e ∙ ap awaiting h))
      | inr other ↦ rw other h
    ]
      where
        awake : ◌≡◌ {A = ℕ} 0 1 → ⊥
        awake z = omega arith

    sent-balance :
        (c : ℕ) (r : Req)
        → s.clients c ≡ Client.idle
        → (c' : ℕ)
        → queued
              (suc c')
              (s.queue ++ record { pid = suc c; req = r; idx = s.next; closing = false } ∷ [])
            + total (held (suc c')) m s.workers
            + total (filled (suc c')) n s.responses
          ≡ awaiting (update s.clients c (Client.waiting s.next r) c')
    sent-balance c r calm c' =
        let new : Entry Req = record { pid = suc c; req = r; idx = s.next; closing = false } in
        elim (Bool-cases (c == c')) [
          | inl same ↦
              let e : c ≡ c' = ground arith in
              let one : (suc c == suc c') ≡ true = ground arith in
              rw (same, queued-append (suc c') s.queue new, one)
                (omega
                  (arith, balance c', ap (λ k. awaiting (s.clients k)) (sym e) ∙ ap awaiting calm))
          | inr other ↦
              let zero_here : (suc c == suc c') ≡ false = ground arith in
              rw (other, queued-append (suc c') s.queue new, zero_here) (omega (arith, balance c'))
        ]

    pub send-Inv :
        (c : ℕ) (r : Req)
        → s.clients c ≡ Client.idle
        → Inv n m (record s {
          queue = s.queue ++ record { pid = suc c; req = r; idx = s.next; closing = false } ∷ [];
          next = (s.next + 1) % n;
          clients = update s.clients c (Client.waiting s.next r);
        })
    send-Inv c r calm =
        let new : Entry Req = record { pid = suc c; req = r; idx = s.next; closing = false } in
        let here = update_self s.clients c (Client.waiting s.next r) in
        let keep = λ (c' i : ℕ) (r' : Req) (h : s.clients c' ≡ Client.waiting i r').
          keeps c (Client.waiting s.next r) (ap awaiting calm) h in
        record {
          in_range = omega arith;
          balance = λ c'. sent-balance c r calm c';
          placed = λ c' i r' h. ground (arith, placed c' i r');
          of_queue = λ e h o. elim (InQueue-append s.queue new e h) [
            | inl old ↦ let (c', p, w) = of_queue e old o in (c', p, keep c' e.idx e.req w)
            | inr fresh ↦ (
              c,
              ap (λ (e : Entry Req). e.pid) (sym fresh),
              here ∙ ap (λ (e : Entry Req). Client.waiting e.idx e.req) fresh,
            )
          ];
          of_worker =
              λ w e lt h o. let (c', p, k) = of_worker w e lt h o in (c', p, keep c' e.idx e.req k);
          of_slot =
              λ i lt h. let (c', r', p, k, o) = of_slot i lt h in (c', r', p, keep c' i r' k, o);
          cleared = cleared;
          own = λ c' r' o h. ground (arith, own c' r' o);
        }

    pub notify-Inv :
        (c : ℕ) (r : Req)
        → Inv n m (record s {
          queue = s.queue ++ record { pid = suc c; req = r; idx = s.next; closing = true } ∷ [];
          next = (s.next + 1) % n;
        })
    notify-Inv c r =
        let new : Entry Req = record { pid = suc c; req = r; idx = s.next; closing = true } in
        record {
          in_range = omega arith;
          balance = λ c'. rw (queued-append (suc c') s.queue new) (omega (arith, balance c'));
          placed = placed;
          of_queue = λ e h o. elim (InQueue-append s.queue new e h) [
            | inl old ↦ of_queue e old o
            | inr fresh ↦ absurd (clash (ap (λ (e : Entry Req). e.closing) fresh ∙ o))
          ];
          of_worker = of_worker;
          of_slot = of_slot;
          cleared = cleared;
          own = own;
        }
      where
        clash : true ≡ false → ⊥
        clash z = cc

    resumed-balance :
        (c : ℕ)
        → awaiting (s.clients c) ≡ 0
        → (c' : ℕ) → awaiting (s.clients c') ≡ awaiting (update s.clients c Client.idle c')
    resumed-balance c calm c' = elim (Bool-cases (c == c')) [
      | inl same ↦
          let e : c ≡ c' = ground arith in rw same (ap (λ j. awaiting (s.clients j)) (sym e) ∙ calm)
      | inr other ↦ rw other
    ]

    pub resume-Inv :
        (c : ℕ) {r : Req} {o : Option Req}
        → s.clients c ≡ Client.answered r o
        → Inv n m (record s { clients = update s.clients c Client.idle })
    resume-Inv c {r} {o} k =
        let keep = λ (c' i : ℕ) (r' : Req) (h : s.clients c' ≡ Client.waiting i r').
          keeps c Client.idle (ap awaiting k) h in
        record {
          in_range = in_range;
          balance = λ c'. balance c' ∙ resumed-balance c (ap awaiting k) c';
          placed = λ c' i' r' h. elim (update-cases s.clients c Client.idle h) [
            | inl (_, now) ↦ cc
            | inr (_, old) ↦ placed c' i' r' old
          ];
          of_queue = λ e h open_request.
              let (c', p, k') = of_queue e h open_request in (c', p, keep c' e.idx e.req k');
          of_worker = λ w e lt h open_request.
              let (c', p, k') = of_worker w e lt h open_request in (c', p, keep c' e.idx e.req k');
          of_slot = λ i lt h.
              let (c', r', p, k', o') = of_slot i lt h in (c', r', p, keep c' i r' k', o');
          cleared = cleared;
          own = λ c' r' o' h. elim (update-cases s.clients c Client.idle h) [
            | inl (_, now) ↦ cc
            | inr (_, old) ↦ own c' r' o' old
          ];
        }
