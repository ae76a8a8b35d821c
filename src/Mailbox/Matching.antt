-- ===== src/Mailbox/Matching.antt =====
-- Requests, responses and clients match in every state of the exchange (message.h, `Mailbox`).
use shared_memory_hashtable.Common.{
  ℕ, suc, ◌+◌, ◌≤◌, ◌<◌, ◌≡◌, ◌⊎◌, inl, inr, refl, true, false, ◌&&◌, Option, none, some, List, [],
  ◌∷◌, ◌++◌, arith, ◌==◌, if◌then◌else◌, total, total-zero,
}
use shared_memory_hashtable.Mailbox.{Entry, Slot, Client, Worker, System, init}

module _ {Req : Type 0} where
  abbrev pub InQueue : Entry Req → List (Entry Req) → Type 0
  InQueue e [] = ⊥
  InQueue e (x ∷ q) = (x ≡ e) ⊎ InQueue e q

  -- 1 for a request of process `p` that gets a response
  abbrev pub weight : ℕ → Entry Req → ℕ
  weight p e = if e.closing then 0 else (if e.pid == p then 1 else 0)

  -- how many requests of a process are queued
  abbrev pub queued : ℕ → List (Entry Req) → ℕ
  queued p [] = 0
  queued p (e ∷ q) = weight p e + queued p q

  abbrev pub held : ℕ → Worker Req → ℕ
  held p Worker.polling = 0
  held p (Worker.holding e) = weight p e

  abbrev pub filled : ℕ → Slot Req → ℕ
  filled p r = if r.ready && r.client_id == p then 1 else 0

  abbrev pub awaiting : Client Req → ℕ
  awaiting (Client.waiting _ _) = 1
  awaiting _ = 0

  -- A request or response on its way for client `c` is the one that the client waits for, and there
  -- is exactly one of them while it waits.
  pub record Inv (n m : ℕ) (s : System Req) : Type 0 where
    pub in_range : s.next < n
    pub balance :
        (c : ℕ)
        → queued (suc c) s.queue
            + total (held (suc c)) m s.workers
            + total (filled (suc c)) n s.responses
          ≡ awaiting (s.clients c)
    pub placed : (c i : ℕ) (r : Req) → s.clients c ≡ Client.waiting i r → i < n
    pub of_queue :
        (e : Entry Req)
        → InQueue e s.queue
        → e.closing ≡ false
        → (c : ℕ) × (e.pid ≡ suc c) × (s.clients c ≡ Client.waiting e.idx e.req)
    pub of_worker :
        (w : ℕ) (e : Entry Req)
        → w < m
        → s.workers w ≡ Worker.holding e
        → e.closing ≡ false
        → (c : ℕ) × (e.pid ≡ suc c) × (s.clients c ≡ Client.waiting e.idx e.req)
    pub of_slot :
        (i : ℕ)
        → i < n
        → (s.responses i).ready ≡ true
        → (c : ℕ) × (r : Req) × ((s.responses i).client_id ≡ suc c)
          × (s.clients c ≡ Client.waiting i r)
          × ((s.responses i).origin ≡ some r)
    pub cleared : (i : ℕ) → (s.responses i).ready ≡ false → (s.responses i).client_id ≡ 0
    pub own : (c : ℕ) (r : Req) (o : Option Req) → s.clients c ≡ Client.answered r o → o ≡ some r

  pub queued-append :
      (p : ℕ) (q : List (Entry Req)) (e : Entry Req)
      → queued p (q ++ e ∷ []) ≡ queued p q + weight p e
  queued-append p [] e = omega arith
  queued-append p (x ∷ q) e = omega (arith, queued-append p q e)

  pub InQueue-append :
      (q : List (Entry Req)) (x e : Entry Req) → InQueue e (q ++ x ∷ []) → InQueue e q ⊎ (x ≡ e)
  InQueue-append [] x e (inl h) = inr h
  InQueue-append [] x e (inr h) = absurd h
  InQueue-append (y ∷ q) x e (inl h) = inl (inl h)
  InQueue-append (y ∷ q) x e (inr h) = elim (InQueue-append q x e h) [
    | inl k ↦ inl (inr k)
    | inr k ↦ inr k
  ]

  pub weight-one : (p : ℕ) (e : Entry Req) → e.pid ≡ p → e.closing ≡ false → weight p e ≡ 1
  weight-one p e same open_request =
      let e' : (e.pid == p) ≡ true = ground arith in rw (open_request, e')

  pub queued-pos :
      (p : ℕ) (e : Entry Req) (q : List (Entry Req))
      → InQueue e q
      → e.pid ≡ p
      → e.closing ≡ false
      → 1 ≤ queued p q
  queued-pos p e (x ∷ q) (inl h) same open_request =
      rw h (omega (arith, weight-one p e same open_request))
  queued-pos p e (x ∷ q) (inr h) same open_request =
      omega (arith, queued-pos p e q h same open_request)
  queued-pos p e [] h same open_request = absurd h

  pub init-Inv : (n m : ℕ) → 1 ≤ n → Inv n m init
  init-Inv n m lo = record {
    in_range = lo;
    balance = λ c. omega (
      arith,
      total-zero (held (suc c)) m Worker.polling refl,
      total-zero (filled (suc c)) n (record { ready = false; client_id = 0; origin = none }) refl,
    );
    placed = λ c i r h. cc;
    of_queue = λ e h _. absurd h;
    of_worker = λ w e lt h _. cc;
    of_slot = λ i lt h. cc;
    cleared = λ i h. refl;
    own = λ c r o h. cc;
  }
