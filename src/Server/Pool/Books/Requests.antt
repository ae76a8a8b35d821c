-- ===== src/Server/Pool/Books/Requests.antt =====
-- The books behind the steps of a request: it is sent, and a server thread takes it from the buffer
-- (client.cpp, `sendMsg`; server.cpp, `receiveMsg` and `respond`).
use shared_memory_hashtable.Common.{
  ℕ, suc, ◌+◌, ◌%◌, ◌≡◌, inl, inr, sym, ◌∙◌, ap, subst, true, false, Option, List, [], ◌∷◌, ◌++◌,
  append-nil, arith, update, update-cases, Bool-cases, ◌==◌,
}
use shared_memory_hashtable.Mailbox
use shared_memory_hashtable.Mailbox.{Entry, Client, Worker, System}
use shared_memory_hashtable.Mailbox.Matching.{Inv, InQueue, InQueue-append, awaiting}
use shared_memory_hashtable.HashTable.Dictionary.{Call, Reply}
use shared_memory_hashtable.Server.Pool.{Request}
use shared_memory_hashtable.Server.Pool.Places.{not_filled}
use shared_memory_hashtable.Server.Pool.Books.{Books}

module _ {K V : Type 0} {n m : ℕ} {x : Mailbox.System (Request K V)}
    {said written heard past : ℕ → List (Call K V × Reply V)}
    (b : Books n m x said written heard past) where
  pub send-Books :
      (c : ℕ) (r : Request K V)
      → Inv n m x
      → x.clients c ≡ Client.idle
      → Books n m
          (record x {
            queue = x.queue ++ record { pid = suc c; req = r; idx = x.next; closing = false } ∷ [];
            next = (x.next + 1) % n;
            clients = update x.clients c (Client.waiting x.next r);
          })
          said
          written
          heard
          past
  send-Books c r inv idle_before = record {
    at_queue = λ c' e (h, open_request, mine). elim (InQueue-append x.queue _ e h) [
      | inl old ↦ b.at_queue c' e (old, open_request, mine)
      | inr new ↦
          let same : c ≡ c' = omega (arith, ap (λ (z : Entry (Request K V)). z.pid) new, mine) in
          subst (λ j. past j ≡ heard j) same (b.calm c (ap awaiting idle_before))
    ];
    at_worker = b.at_worker;
    at_slot = b.at_slot;
    calm = λ c' still. elim (Bool-cases (c == c')) [
      | inl same ↦ absurd (omega (arith, rw same at still))
      | inr other ↦ b.calm c' (rw other at still)
    ];
    kept = λ c' i r' filled_slot w. elim (update-cases x.clients c _ w) [
      | inl (same, _) ↦ absurd (
          not_filled n m x c' inv
            (subst (λ j. awaiting (x.clients j) ≡ 0) same (ap awaiting idle_before)) i filled_slot)
      | inr (_, w') ↦ b.kept c' i r' filled_slot w'
    ];
    own = λ c' r' h. elim (update-cases x.clients c _ h) [
      | inl (_, h') ↦ cc
      | inr (_, h') ↦ b.own c' r' h'
    ];
  }

  pub notify-Books :
      (c : ℕ) (r : Request K V)
      → Books n m
          (record x {
            queue = x.queue ++ record { pid = suc c; req = r; idx = x.next; closing = true } ∷ [];
            next = (x.next + 1) % n;
          })
          said
          written
          heard
          past
  notify-Books c r = record {
    at_queue = λ c' e (h, open_request, mine). elim (InQueue-append x.queue _ e h) [
      | inl old ↦ b.at_queue c' e (old, open_request, mine)
      | inr new ↦ cc
    ];
    at_worker = b.at_worker;
    at_slot = b.at_slot;
    calm = b.calm;
    kept = b.kept;
    own = b.own;
  }

  pub resume-Books :
      (c : ℕ) {r : Request K V} {o : Option (Request K V)}
      → x.clients c ≡ Client.answered r o
      → Books n m (record x { clients = update x.clients c Client.idle }) said written heard past
  resume-Books c k = record {
    at_queue = b.at_queue;
    at_worker = b.at_worker;
    at_slot = b.at_slot;
    calm = λ c' still. elim (Bool-cases (c == c')) [
      | inl same ↦
          let here : c ≡ c' = ground arith in
          subst (λ j. past j ≡ heard j) here (b.calm c (ap awaiting k))
      | inr other ↦ b.calm c' (rw other at still)
    ];
    kept = λ c' i r' filled_slot w. elim (update-cases x.clients c _ w) [
      | inl (_, h') ↦ cc
      | inr (_, w') ↦ b.kept c' i r' filled_slot w'
    ];
    own = λ c' r' h. elim (update-cases x.clients c _ h) [
      | inl (_, h') ↦ cc
      | inr (_, h') ↦ b.own c' r' h'
    ];
  }

  pub close-Books :
      (w : ℕ)
      → Books n m (record x { workers = update x.workers w Worker.polling }) said written heard past
  close-Books w = record {
    at_queue = b.at_queue;
    at_worker = λ c w' e (lt, h, open_request, mine). elim (update-cases x.workers w _ h) [
      | inl (_, h') ↦ cc
      | inr (_, h') ↦ b.at_worker c w' e (lt, h', open_request, mine)
    ];
    at_slot = b.at_slot;
    calm = b.calm;
    kept = b.kept;
    own = b.own;
  }

  pub fetch-Books :
      (w : ℕ) {e : Entry (Request K V)} {q : List (Entry (Request K V))}
      → x.queue ≡ e ∷ q
      → Books n m
          (record x { queue = q; workers = update x.workers w (Worker.holding e) })
          (update said w [])
          written
          heard
          past
  fetch-Books w {e} {q} h = record {
    at_queue = λ c e' (inside, open_request, mine).
        b.at_queue c e' (subst (InQueue e') (sym h) (inr inside), open_request, mine);
    at_worker = λ c w' e' (lt, k, open_request, mine). elim (Bool-cases (w == w')) [
      | inl same ↦
          let it : Worker.holding e ≡ Worker.holding e' = rw same at k in
          let it' : e ≡ e' = cc in
          let first = b.at_queue c e' (subst (InQueue e') (sym h) (inl it'), open_request, mine) in
          rw same (first ∙ sym (append-nil (heard c)))
      | inr other ↦ rw other (b.at_worker c w' e' (lt, rw other at k, open_request, mine))
    ];
    at_slot = b.at_slot;
    calm = b.calm;
    kept = b.kept;
    own = b.own;
  }
