-- ===== src/Mailbox/Service.antt =====
-- Clients are answered (message.h, `Mailbox`; client.cpp, `sendMsg`; server.cpp, `respond`).
use shared_memory_hashtable.Common.{
  ℕ, zero, suc, ◌+◌, ◌≤◌, ◌<◌, ◌≡◌, ◌⊎◌, inl, inr, refl, sym, ap, ◌∙◌, true, false, Option, some,
  List, [], ◌∷◌, length, arith, ◌==◌, if◌then◌else◌, update, total, total-update, Bool-cases, ◌*◌,
  total-cases, ap₂,
}
use shared_memory_hashtable.Mailbox.{
  Entry, Slot, Client, Worker, System, Step, fetch, deliver, receive, Reach, close, IsServing,
  Serves, settled, serve,
}
use shared_memory_hashtable.Mailbox.Matching.{queued, held, filled, awaiting, Inv}
use shared_memory_hashtable.Mailbox.Receiving.{answer}
use shared_memory_hashtable.Mailbox.Preserved.{Step-Inv, Reach-Inv}

module _ {Req : Type 0} where
  abbrev busy : Worker Req → ℕ
  busy Worker.polling = 0
  busy (Worker.holding _) = 1

  abbrev lit : Slot Req → ℕ
  lit r = if r.ready then 1 else 0

  -- how many steps are left until no request is on its way
  abbrev pending : ℕ → ℕ → System Req → ℕ
  pending n m s = 3 * length s.queue + 2 * total busy m s.workers + total lit n s.responses

  -- A step after which less is pending, and client `c` still waits or has its response.
  abbrev Progress : ℕ → ℕ → System Req → ℕ → ℕ → Req → Type 0
  Progress n m s c i r =
      (t : System Req) × (st : Step n m s t) × IsServing st
      × (pending n m t < pending n m s)
      × ((t.clients c ≡ Client.waiting i r) ⊎ (t.clients c ≡ Client.answered r (some r)))

  Worker-cases :
      (w : Worker Req) → (w ≡ Worker.polling) ⊎ ((e : Entry Req) × (w ≡ Worker.holding e))
  Worker-cases Worker.polling = inl refl
  Worker-cases (Worker.holding e) = inr (e, refl)

  unlit : (r : Slot Req) → r.ready ≡ false → lit r ≡ 0
  unlit r h = rw h

  filled-ready : (p : ℕ) (r : Slot Req) → 1 ≤ filled p r → r.ready ≡ true
  filled-ready p r h = ground arith

  uncons :
      (q : List (Entry Req)) → 1 ≤ length q → (e : Entry Req) × (l : List (Entry Req)) × (q ≡ e ∷ l)
  uncons [] h = absurd (omega arith)
  uncons (e ∷ l) h = (e, l, refl)

  queued-length : (p : ℕ) (q : List (Entry Req)) → 1 ≤ queued p q → 1 ≤ length q
  queued-length p [] h = h
  queued-length p (e ∷ q) h = omega arith

  module _ {n m : ℕ} {s : System Req} (inv : Inv n m s) {c i : ℕ} {r : Req}
      (k : s.clients c ≡ Client.waiting i r) where
    open inv use {balance, placed, of_queue, of_worker, of_slot, cleared}

    receive_next :
        (c' i' : ℕ) (r' : Req)
        → s.clients c' ≡ Client.waiting i' r'
        → (s.responses i').ready ≡ true
        → (s.responses i').client_id ≡ suc c'
        → Progress n m s c i r
    receive_next c' i' r' k' set mine =
        let x = Client.answered r' (s.responses i').origin in
        let new : Slot Req = record (s.responses i') { ready = false; client_id = 0 } in
        let was : lit (s.responses i') ≡ 1 = rw set in
        let a = answer inv c' i' k' set mine in
        (
          _,
          receive c' k' set mine,
          tt,
          omega (arith, was, total-update lit n s.responses i' new (placed c' i' r' k')),
          elim (Bool-cases (c' == c)) [
            | inl same ↦
                let e : c' ≡ c = ground arith in
                let both : Client.waiting i' r' ≡ Client.waiting i r =
                  sym k' ∙ ap s.clients e ∙ k in
                let same_request : r' ≡ r = cc in
                let here : update s.clients c' x c ≡ x = rw same in
                inr (here ∙ ap₂ Client.answered same_request (a ∙ ap some same_request))
            | inr other ↦ inl (rw other k)
          ],
        )

    reply_next :
        (w : ℕ) (e : Entry Req)
        → w < m
        → s.workers w ≡ Worker.holding e
        → e.closing ≡ false
        → e.idx < n
        → Progress n m s c i r
    reply_next w e lt h open_request low = elim (Bool-cases (s.responses e.idx).ready) [
      | inl set ↦
          let (c'', r'', mine, k'', _) = of_slot e.idx low set in
          receive_next c'' e.idx r'' k'' set mine
      | inr free ↦ (
        _,
        deliver w lt h open_request free (cleared e.idx free),
        tt,
        omega (
          arith,
          total-update busy m s.workers w Worker.polling lt,
          ap busy h,
          total-update lit n s.responses e.idx
              (record { ready = true; client_id = e.pid; origin = some e.req }) low,
          unlit (s.responses e.idx) free,
        ),
        inl k,
      )
    ]

    deliver_next :
        (w : ℕ) (e : Entry Req) → w < m → s.workers w ≡ Worker.holding e → Progress n m s c i r
    deliver_next w e lt h = elim (Bool-cases e.closing) [
      | inl closing_request ↦ (
        _,
        close w lt h closing_request,
        tt,
        omega (arith, total-update busy m s.workers w Worker.polling lt, ap busy h),
        inl k,
      )
      | inr open_request ↦
          let (c', _, k') = of_worker w e lt h open_request in
          reply_next w e lt h open_request (placed c' e.idx e.req k')
    ]

    queue_next : 1 ≤ m → 1 ≤ length s.queue → Progress n m s c i r
    queue_next lo some_request =
        let (e, q, h) = uncons s.queue some_request in
        elim (Worker-cases (s.workers 0)) [
          | inl calm ↦ (
            _,
            fetch 0 lo calm h,
            tt,
            omega (
              arith,
              ap length h,
              total-update busy m s.workers 0 (Worker.holding e) lo,
              ap busy calm,
            ),
            inl k,
          )
          | inr (e', h') ↦ deliver_next 0 e' lo h'
        ]

    progress : 1 ≤ m → Progress n m s c i r
    progress lo = elim (total-cases (held (suc c)) m s.workers) [
      | inr (w, lt, h) ↦ elim (Worker-cases (s.workers w)) [
        | inl calm ↦ absurd (omega (arith, h, ap (held (suc c)) calm))
        | inr (e, h') ↦ deliver_next w e lt h'
      ]
      | inl no_worker ↦ elim (total-cases (filled (suc c)) n s.responses) [
        | inr (i', lt, h) ↦
            let set = filled-ready (suc c) (s.responses i') h in
            let (c', r', mine, k', _) = of_slot i' lt set in receive_next c' i' r' k' set mine
        | inl no_slot ↦ queue_next lo (
            queued-length (suc c) s.queue
              (omega (arith, no_worker, no_slot, balance c, ap awaiting k)))
      ]
    ]

  pub served_within :
      (n m fuel c i : ℕ) (r : Req) (s : System Req)
      → Inv n m s
      → 1 ≤ m
      → pending n m s ≤ fuel
      → s.clients c ≡ Client.waiting i r
      → (t : System Req) × Serves n m s t × (t.clients c ≡ Client.answered r (some r))
  served_within n m zero c i r s inv lo bound k =
      let (t, st, calm, less, next) = progress inv k lo in absurd (omega arith)
  served_within n m (suc fuel) c i r s inv lo bound k =
      let (t, st, calm, less, next) = progress inv k lo in
      elim next [
        | inl still ↦
            let (u, sts, done) =
              served_within n m fuel c i r t (Step-Inv inv st) lo (omega arith) still in
            (u, serve st calm sts, done)
        | inr done ↦ (t, serve st calm settled, done)
      ]

  -- The client gets its response by steps of requests that were sent.
  pub served_quietly :
      (n m c i : ℕ) (r : Req) (s : System Req)
      → 1 ≤ n
      → 1 ≤ m
      → Reach n m s
      → s.clients c ≡ Client.waiting i r
      → (t : System Req) × Serves n m s t × (t.clients c ≡ Client.answered r (some r))
  served_quietly n m c i r s slots threads reach k =
      served_within n m (pending n m s) c i r s (Reach-Inv slots reach) threads (omega arith) k

  -- In every reachable state of a mailbox with a slot, the response that a client has got answers
  -- the request that it sent.
  pub own_response :
      (n m c : ℕ) (r : Req) (o : Option Req) (s : System Req)
      → 1 ≤ n
      → Reach n m s
      → s.clients c ≡ Client.answered r o
      → o ≡ some r
  own_response n m c r o s slots reach h = (Reach-Inv slots reach).own c r o h

  -- In every reachable state of a mailbox with a slot, the requests of a client in the queue and at
  -- the server threads, those in mode `CLOSE_SHM` left out, and the responses to it in the slots are
  -- one while the client waits, and none while it does not.
  pub one_in_flight :
      (n m c : ℕ) (s : System Req)
      → 1 ≤ n
      → Reach n m s
      → queued (suc c) s.queue
          + total (held (suc c)) m s.workers
          + total (filled (suc c)) n s.responses
        ≡ awaiting (s.clients c)
  one_in_flight n m c s slots reach = (Reach-Inv slots reach).balance c
