-- ===== src/Server/Pool/AtWork.antt =====
-- Every server thread is at its request (server.cpp, `receiveMsg` and `respond`).
use shared_memory_hashtable.Common.{
  ℕ, ◌<◌, ◌≡◌, ◌≢◌, refl, subst, Bool, true, false, List, [], ◌++◌, arith, update, Bool-cases, inl,
  inr, ◌==◌,
}
use shared_memory_hashtable.Mailbox
use shared_memory_hashtable.Mailbox.{
  Entry, Worker, send, notify, fetch, deliver, close, receive, resume,
}
use shared_memory_hashtable.HashTable.Keys.{Key}
use shared_memory_hashtable.HashTable.Threads
use shared_memory_hashtable.HashTable.Threads.{Pc}
use shared_memory_hashtable.HashTable.Threads.Atomic.{event}
use shared_memory_hashtable.HashTable.Dictionary.{Call, Reply}
use shared_memory_hashtable.Server.Pool.{
  Request, Pool, produced, Takes, ends, IsReady, over_after, said_after, Step, exchange, work,
  refuse, bucket, init, Reach, start, later,
}
use shared_memory_hashtable.Server.Pool.Tasks.{Fit, over-idle, Takes-Fit, Takes-others}

module _ {K V : Type 0} where
  abbrev Held : Bool → Request K V → Bool → List (Call K V × Reply V) → Pc K V → Type 0
  Held true r o xs p = p ≡ Pc.idle
  Held false r o xs p = Fit r o xs p

  abbrev Task : Worker (Request K V) → Bool → List (Call K V × Reply V) → Pc K V → Type 0
  Task Worker.polling o xs p = p ≡ Pc.idle
  Task (Worker.holding e) o xs p = Held e.closing e.req o xs p

  abbrev pub AtWork : ℕ → Pool K V → Type 0
  AtWork m s = (w : ℕ) → w < m → Task (s.mail.workers w) (s.over w) (s.said w) (s.table.pc w)

  -- what a thread with nothing to do, with a request to close, and with an open request, is at
  module _ (x : Worker (Request K V)) (o : Bool) (xs : List (Call K V × Reply V)) (p : Pc K V) where
    polling-idle : x ≡ Worker.polling → Task x o xs p → p ≡ Pc.idle
    polling-idle h task = rw h at task

    closing-idle :
        (e : Entry (Request K V))
        → x ≡ Worker.holding e
        → e.closing ≡ true
        → Task x o xs p
        → p ≡ Pc.idle
    closing-idle e h closing task = rw (h, closing) at task

    pub Task-Fit :
        (e : Entry (Request K V))
        → x ≡ Worker.holding e
        → e.closing ≡ false
        → Task x o xs p
        → Fit e.req o xs p
    Task-Fit e h open_request task = rw (h, open_request) at task

  fetched :
      (closing : Bool) (r : Request K V) (p : Pc K V) → p ≡ Pc.idle → Held closing r false [] p
  unfolding Fit
  fetched true r p calm = calm
  fetched false r p calm = rw calm refl

module _ {K V : Type 0} ⦃key : Key K⦄ where
  exchange-AtWork :
      {n m : ℕ} (s : Pool K V) {x : Mailbox.System (Request K V)} (st : Mailbox.Step n m s.mail x)
      → IsReady s st
      → AtWork m s
      → (j : ℕ) → j < m
      → Task (x.workers j) (over_after s st j) (said_after s st j) (s.table.pc j)
  unfolding IsReady over_after said_after
  exchange-AtWork s (send c r calm room) ready at_work j lt = at_work j lt
  exchange-AtWork s (notify c r calm room) ready at_work j lt = at_work j lt
  exchange-AtWork s (receive c k set mine) ready at_work j lt = at_work j lt
  exchange-AtWork s (resume c k) ready at_work j lt = at_work j lt
  exchange-AtWork s (fetch w {e} lt' calm h) ready at_work j lt = elim (Bool-cases (w == j)) [
    | inl same ↦
        let here : w ≡ j = ground arith in
        let idle_before : s.table.pc j ≡ Pc.idle =
          polling-idle (s.mail.workers j) (s.over j) (s.said j) (s.table.pc j)
            (subst (λ x. s.mail.workers x ≡ Worker.polling) here calm) (at_work j lt) in
        rw same (fetched e.closing e.req (s.table.pc j) idle_before)
    | inr other ↦ rw other (at_work j lt)
  ]
  exchange-AtWork s (deliver w {e} lt' h open_request free unowned) ready at_work j lt =
      elim (Bool-cases (w == j)) [
        | inl same ↦
            let here : w ≡ j = ground arith in
            let fit =
              Task-Fit (s.mail.workers w) (s.over w) (s.said w) (s.table.pc w) e h open_request
                (at_work w lt') in
            rw same (
              subst (λ x. s.table.pc x ≡ Pc.idle) here
                (over-idle e.req (s.over w) (s.said w) (s.table.pc w) ready fit).0)
        | inr other ↦ rw other (at_work j lt)
      ]
  exchange-AtWork s (close w {e} lt' h closing) ready at_work j lt = elim (Bool-cases (w == j)) [
    | inl same ↦
        let here : w ≡ j = ground arith in
        rw same (
          subst (λ x. s.table.pc x ≡ Pc.idle) here
            (closing-idle (s.mail.workers w) (s.over w) (s.said w) (s.table.pc w) e h closing
              (at_work w lt')))
    | inr other ↦ rw other (at_work j lt)
  ]

  work-AtWork :
      {m : ℕ} (s : Pool K V) (w : ℕ) (e : Entry (Request K V)) {t : Threads.System K V}
      → w < m
      → s.mail.workers w ≡ Worker.holding e
      → e.closing ≡ false
      → s.over w ≡ false
      → (st : Threads.Step m s.table t) → Takes w e.req st
      → AtWork m s
      → (j : ℕ) → j < m
      → Task
          (s.mail.workers j)
          (update s.over w (ends st) j)
          (update s.said w (s.said w ++ produced e.req (event st)) j)
          (t.pc j)
  work-AtWork s w e {t} lt' h open_request running st takes at_work j lt =
      elim (Bool-cases (w == j)) [
        | inl same ↦
            let here : w ≡ j = ground arith in
            let fit =
              Task-Fit (s.mail.workers w) (s.over w) (s.said w) (s.table.pc w) e h open_request
                (at_work w lt') in
            let fit' = Takes-Fit w e.req (s.said w) st takes (rw running at fit) in
            let there : Task (s.mail.workers w) (ends st) (s.said w ++ produced e.req (event st))
                (t.pc w) =
              rw (h, open_request) fit' in
            rw same (
              subst
                (λ x.
                  Task (s.mail.workers x) (ends st) (s.said w ++ produced e.req (event st))
                    (t.pc x))
                here there)
        | inr other ↦
            let ne : w ≢ j = λ i. ground arith in
            rw (other, Takes-others w j e.req st takes ne) (at_work j lt)
      ]

  refuse-AtWork :
      {m : ℕ} (s : Pool K V) (w b : ℕ) (e : Entry (Request K V))
      → s.mail.workers w ≡ Worker.holding e
      → e.closing ≡ false
      → s.over w ≡ false
      → s.table.pc w ≡ Pc.idle
      → e.req ≡ bucket b
      → AtWork m s
      → (j : ℕ) → j < m
      → Task (s.mail.workers j) (update s.over w true j) (s.said j) (s.table.pc j)
  unfolding Fit
  refuse-AtWork s w b e h open_request running calm asked_for at_work j lt =
      elim (Bool-cases (w == j)) [
        | inl same ↦
            let here : j ≡ w = ground arith in
            let fit : Fit e.req (s.over w) (s.said w) (s.table.pc w) =
              Task-Fit (s.mail.workers w) (s.over w) (s.said w) (s.table.pc w) e h open_request (
                subst (λ x. Task (s.mail.workers x) (s.over x) (s.said x) (s.table.pc x)) here
                  (at_work j lt)) in
            let nothing : s.said w ≡ [] = rw (running, calm) at fit in
            rw (same, here, h, open_request, calm, asked_for) nothing
        | inr other ↦ rw other (at_work j lt)
      ]

  pub Step-AtWork : {n m : ℕ} {s t : Pool K V} → AtWork m s → Step n m s t → AtWork m t
  Step-AtWork {s = s} at_work (exchange st ready) = exchange-AtWork s st ready at_work
  Step-AtWork {s = s} at_work (work w {e} lt h open_request running st takes) =
      work-AtWork s w e lt h open_request running st takes at_work
  Step-AtWork {s = s} at_work (refuse w {e} {b} lt h open_request running calm asked_for past_end) =
      refuse-AtWork s w b e h open_request running calm asked_for at_work

  -- In every reachable state each thread is at its request.
  pub Reach-AtWork :
      {n m c : ℕ} {dynamic : Bool} {s : Pool K V} → Reach n m c dynamic s → AtWork m s
  unfolding init Threads.init
  Reach-AtWork start = λ w lt. refl
  Reach-AtWork (later r st) = Step-AtWork (Reach-AtWork r) st
