-- ===== src/Server/Pool/Books/Responses.antt =====
-- The books behind the steps of a response: a server thread delivers it, and its client receives it
-- (server.cpp, `respond`; client.cpp, `sendMsg`).
use shared_memory_hashtable.Common.{
  ℕ, suc, ◌<◌, ◌≡◌, inl, inr, refl, subst, true, false, some, List, ◌++◌, arith, update,
  update-cases, Bool-cases, ◌==◌,
}
use shared_memory_hashtable.Mailbox
use shared_memory_hashtable.Mailbox.{Entry, Slot, Client, Worker, System, receive}
use shared_memory_hashtable.Mailbox.Matching.{Inv, awaiting}
use shared_memory_hashtable.Mailbox.Preserved.{Step-Inv}
use shared_memory_hashtable.HashTable.Dictionary.{Call, Reply}
use shared_memory_hashtable.Server.Pool.{Request}
use shared_memory_hashtable.Server.Pool.Tasks.{IsReply}
use shared_memory_hashtable.Server.Pool.Places.{IsHeld, IsFilled, not_held, not_filled, not_queued}
use shared_memory_hashtable.Server.Pool.Books.{Books}

module _ {K V : Type 0} {n m : ℕ} {x : Mailbox.System (Request K V)}
    {said written heard past : ℕ → List (Call K V × Reply V)} (inv : Inv n m x)
    (b : Books n m x said written heard past) where
  -- a client that waits for the request that a thread holds
  pub same_request :
      (c w i : ℕ) (e : Entry (Request K V)) (r : Request K V)
      → IsHeld m x c w e
      → x.clients c ≡ Client.waiting i r
      → e.req ≡ r
  same_request c w i e r (lt, h, open_request, mine) k =
      let (c', mine', k') = inv.of_worker w e lt h open_request in
      let here : c' ≡ c = omega (arith, mine, mine') in
      let k'' : x.clients c ≡ Client.waiting e.idx e.req =
        subst (λ j. x.clients j ≡ Client.waiting e.idx e.req) here k' in
      cc

  pub deliver-Books :
      (w : ℕ) {e : Entry (Request K V)}
      → w < m
      → x.workers w ≡ Worker.holding e
      → e.closing ≡ false
      → IsReply e.req (said w)
      → Books n m
          (record x {
            responses =
                update x.responses e.idx
                  (record { ready = true; client_id = e.pid; origin = some e.req });
            workers = update x.workers w Worker.polling;
          })
          said
          (update written e.idx (said w))
          heard
          past
  deliver-Books w {e} lt h open_request told = record {
    at_queue = b.at_queue;
    at_worker = λ c w' e' (lt', h', open_request', mine). elim (update-cases x.workers w _ h') [
      | inl (_, h'') ↦ cc
      | inr (_, h'') ↦ b.at_worker c w' e' (lt', h'', open_request', mine)
    ];
    at_slot = λ c i (low, set, mine). elim (Bool-cases (e.idx == i)) [
      | inl same ↦
          let mine' : e.pid ≡ suc c = rw same at mine in
          rw same (b.at_worker c w e (lt, h, open_request, mine'))
      | inr other ↦ rw other (b.at_slot c i (low, rw other at set, rw other at mine))
    ];
    calm = b.calm;
    kept = λ c i r (low, set, mine) k. elim (Bool-cases (e.idx == i)) [
      | inl same ↦
          let mine' : e.pid ≡ suc c = rw same at mine in
          rw same (
            subst (λ q. IsReply q (said w)) (same_request c w i e r (lt, h, open_request, mine') k)
              told)
      | inr other ↦ rw other (b.kept c i r (low, rw other at set, rw other at mine) k)
    ];
    own = b.own;
  }

  pub receive-Books :
      (c : ℕ) {i : ℕ} {r : Request K V}
      → x.clients c ≡ Client.waiting i r
      → (x.responses i).ready ≡ true
      → (x.responses i).client_id ≡ suc c
      → Books n m
          (record x {
            responses =
                update x.responses i (record (x.responses i) { ready = false; client_id = 0 });
            clients = update x.clients c (Client.answered r (x.responses i).origin);
          })
          said
          written
          (update heard c (heard c ++ written i))
          past
  receive-Books c {i} {r} k set mine = record {
    at_queue = λ c' e is_queued. elim (Bool-cases (c == c')) [
      | inl same ↦ absurd (not_queued n m after c' inv' (now_calm c' same) e is_queued)
      | inr other ↦ rw other (b.at_queue c' e is_queued)
    ];
    at_worker = λ c' w e is_held. elim (Bool-cases (c == c')) [
      | inl same ↦ absurd (not_held n m after c' inv' (now_calm c' same) w e is_held)
      | inr other ↦ rw other (b.at_worker c' w e is_held)
    ];
    at_slot = λ c' i' is_filled. elim (Bool-cases (c == c')) [
      | inl same ↦ absurd (not_filled n m after c' inv' (now_calm c' same) i' is_filled)
      | inr other ↦ rw other (b.at_slot c' i' (before_it c' i' is_filled))
    ];
    calm = λ c' still. elim (Bool-cases (c == c')) [
      | inl same ↦
          let here : c ≡ c' = ground arith in
          rw same (subst (λ j. past j ≡ heard c ++ written i) here heard_now)
      | inr other ↦ rw other (b.calm c' (rw other at still))
    ];
    kept = λ c' i' r' is_filled k'. elim (Bool-cases (c == c')) [
      | inl same ↦ absurd (not_filled n m after c' inv' (now_calm c' same) i' is_filled)
      | inr other ↦ b.kept c' i' r' (before_it c' i' is_filled) (rw other at k')
    ];
    own = λ c' r' h. elim (Bool-cases (c == c')) [
      | inl same ↦
          let h' : Client.answered r (x.responses i).origin ≡ Client.answered r' _ = rw same at h in
          let same_req : r ≡ r' = cc in
          (
            heard c,
            written i,
            rw same refl,
            subst (λ q. IsReply q (written i)) same_req
                (b.kept c i r (inv.placed c i r k, set, mine) k),
          )
      | inr other ↦ rw other (b.own c' r' (rw other at h))
    ];
  }
    where
      after : Mailbox.System (Request K V)
      after = record x {
        responses = update x.responses i (record (x.responses i) { ready = false; client_id = 0 });
        clients = update x.clients c (Client.answered r (x.responses i).origin);
      }

      inv' : Inv n m after
      inv' = Step-Inv inv (receive c k set mine)

      now_calm : (c' : ℕ) → (c == c') ≡ true → awaiting (after.clients c') ≡ 0
      now_calm c' same = rw same refl

      heard_now : past c ≡ heard c ++ written i
      heard_now = b.at_slot c i (inv.placed c i r k, set, mine)

      -- a slot that is filled behind the step is filled before
      before_it : (c' i' : ℕ) → IsFilled n after c' i' → IsFilled n x c' i'
      before_it c' i' (low, set', mine') = elim (Bool-cases (i == i')) [
        | inl same ↦ let free : false ≡ true = rw same at set' in cc
        | inr other ↦ (low, rw other at set', rw other at mine')
      ]
