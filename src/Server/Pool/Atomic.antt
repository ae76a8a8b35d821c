-- ===== src/Server/Pool/Atomic.antt =====
-- The server, its threads and its clients as one dictionary (server.cpp, `receiveMsg` and `respond`;
-- client.cpp, `sendMsg`).
use shared_memory_hashtable.Common.{
  ℕ, suc, ◌≤◌, ◌≡◌, ◌⊎◌, ◌≢◌, ◌==◌, inl, inr, refl, sym, ◌∙◌, ap, subst, Bool, true, false, none,
  List, [], ◌++◌, append-nil, length, arith,
}
use mathlib.Core.Path.{fun_ext}
use shared_memory_hashtable.HashTable.Policy.{new_sized-IsEmpty}
use shared_memory_hashtable.Mailbox
use shared_memory_hashtable.Mailbox.{Client, send, notify, fetch, deliver, close, receive, resume}
use shared_memory_hashtable.Mailbox.Matching.{Inv, awaiting}
use shared_memory_hashtable.Mailbox.Preserved.{Reach-Inv}
use shared_memory_hashtable.HashTable.Keys.{Key}
use shared_memory_hashtable.HashTable.Buckets.{view, max_capacity, max_size}
use shared_memory_hashtable.HashTable.Threads
use shared_memory_hashtable.HashTable.Threads.Once.{Along, Alternating}
use shared_memory_hashtable.HashTable.Threads.Exclusive.{Fits}
use shared_memory_hashtable.HashTable.Threads.Preserved.{Step-Fits}
use shared_memory_hashtable.HashTable.Threads.Atomic.{event, Step-Happens}
use shared_memory_hashtable.HashTable.Dictionary.{Call, Reply, answers}
use shared_memory_hashtable.Server.Pool.{
  Request, Pool, produced, IsReady, said_after, written_after, heard_after, Step, exchange, work,
  refuse, init, Reach, start, later, of_mail, of_table,
}
use shared_memory_hashtable.Server.Pool.Tasks.{IsReply, over-idle, Fit}
use shared_memory_hashtable.Server.Pool.AtWork.{AtWork, Reach-AtWork, Task-Fit}
use shared_memory_hashtable.Server.Pool.History.{
  calls_of, replies_of, IsRun, Takes-Says, Happens-IsRun,
}
use shared_memory_hashtable.Server.Pool.Places.{placed_somewhere}
use shared_memory_hashtable.Server.Pool.Books.{Books}
use shared_memory_hashtable.Server.Pool.Books.Requests.{
  send-Books, notify-Books, resume-Books, close-Books, fetch-Books,
}
use shared_memory_hashtable.Server.Pool.Books.Responses.{deliver-Books, receive-Books, same_request}
use shared_memory_hashtable.Server.Pool.Working.{
  by_client, by_client-own, by_client-other, work-Books,
}

differs : (a b : ℕ) → a ≢ b → (a == b) ≡ false
differs a b ne = ground arith

module _ {K V : Type 0} where
  -- the calls of client `c` that have happened so far
  abbrev past : Pool K V → ℕ → List (Call K V × Reply V)
  past s c = by_client (suc c) s.history

  abbrev BooksOf : ℕ → ℕ → Pool K V → Type 0
  BooksOf n m s = Books n m s.mail s.said s.written s.heard (past s)

  -- The calls `p` of a client that have happened and those `g` that it heard of: a client that waits
  -- has at most one call more that has happened, the one of its request.
  abbrev pub IsTold :
      Client (Request K V) → List (Call K V × Reply V) → List (Call K V × Reply V) → Type 0
  IsTold Client.idle p g = p ≡ g
  IsTold (Client.waiting i r) p g =
      (xs : List (Call K V × Reply V)) × (p ≡ g ++ xs) × ((xs ≡ []) ⊎ IsReply r xs)
  IsTold (Client.answered r o) p g =
      (p ≡ g)
      × (g₀ : List (Call K V × Reply V)) × (xs : List (Call K V × Reply V)) × (g ≡ g₀ ++ xs)
      × IsReply r xs

module _ {K V : Type 0} ⦃key : Key K⦄ where
  exchange-Books :
      {n m : ℕ} (s : Pool K V) {x : Mailbox.System (Request K V)} (st : Mailbox.Step n m s.mail x)
      → IsReady s st
      → Inv n m s.mail
      → AtWork m s
      → BooksOf n m s
      → Books n m x (said_after s st) (written_after s st) (heard_after s st) (past s)
  unfolding IsReady said_after written_after heard_after
  exchange-Books s (send c r calm room) ready inv at_work b = send-Books b c r inv calm
  exchange-Books s (notify c r calm room) ready inv at_work b = notify-Books b c r
  exchange-Books s (receive c k set mine) ready inv at_work b = receive-Books inv b c k set mine
  exchange-Books s (resume c k) ready inv at_work b = resume-Books b c k
  exchange-Books s (fetch w lt calm h) ready inv at_work b = fetch-Books b w h
  exchange-Books s (close w lt h closing) ready inv at_work b = close-Books b w
  exchange-Books s (deliver w {e} lt h open_request free unowned) ready inv at_work b =
      let fit =
        Task-Fit (s.mail.workers w) (s.over w) (s.said w) (s.table.pc w) e h open_request
          (at_work w lt) in
      let told = (over-idle e.req (s.over w) (s.said w) (s.table.pc w) ready fit).1 in
      deliver-Books inv b w lt h open_request told

  Step-Books :
      {n m : ℕ} {s t : Pool K V}
      → Inv n m s.mail
      → AtWork m s
      → BooksOf n m s
      → Step n m s t
      → BooksOf n m t
  Step-Books {s = s} inv at_work b (exchange st ready) = exchange-Books s st ready inv at_work b
  Step-Books {s = s} inv at_work b (work w {e} lt h open_request running st takes) =
      let xs = produced e.req (event st) in
      work-Books w e xs inv b lt h open_request
        (λ c mine. rw mine (by_client-own (suc c) s.history xs))
        (λ c other. by_client-other (suc c) e.pid s.history xs (differs e.pid (suc c) other))
  Step-Books inv at_work b (refuse w lt h open_request running calm asked_for past_end) = b

  pub Reach-Books :
      {n m c : ℕ} {dynamic : Bool} {s : Pool K V} → 1 ≤ n → Reach n m c dynamic s → BooksOf n m s
  unfolding init
  Reach-Books slots start = record {
    at_queue = λ c e is_queued. refl;
    at_worker = λ c w e is_held. refl;
    at_slot = λ c i is_filled. refl;
    calm = λ c still. refl;
    kept = λ c i r is_filled k. cc;
    own = λ c r h. cc;
  }
  Reach-Books slots (later r st) =
      Step-Books (Reach-Inv slots (of_mail r)) (Reach-AtWork r) (Reach-Books slots r) st

  -- The history is a run of the dictionary of the bindings.
  Reach-IsRun :
      {n m c : ℕ} {dynamic : Bool} {s : Pool K V}
      → 1 ≤ c
      → c ≤ max_capacity
      → (r : Reach n m c dynamic s) → Fits dynamic s.table
      → Along (Alternating m) (of_table r)
      → IsRun s.history (view s.table.table)
  unfolding Along of_table init Threads.init answers
  Reach-IsRun {c = c} {dynamic = dynamic} lo hi start fits alternating =
      ap (λ d. ([], d))
        (fun_ext (λ q. sym ((new_sized-IsEmpty {K = K} {V = V} c dynamic lo hi).0.2 q)))
  Reach-IsRun lo hi (later r (exchange st ready)) fits alternating =
      Reach-IsRun lo hi r fits alternating
  Reach-IsRun lo hi (later {s} r (work w {e} {t} lt h open_request running st takes)) fits
        (one, alternating) =
      let before = Step-Fits st fits in
      let fit =
        Task-Fit (s.mail.workers w) (s.over w) (s.said w) (s.table.pc w) e h open_request
          (Reach-AtWork r w lt) in
      Happens-IsRun s.history e.pid e.req (event st) (view s.table.table) (view t.table)
        (Takes-Says w e.req (s.said w) st takes (rw running at fit))
        (Step-Happens lo hi (of_table r) st before alternating)
        (Reach-IsRun lo hi r before alternating)
  Reach-IsRun lo hi (later r (refuse w lt h open_request running calm asked_for past_end)) fits
        alternating =
      Reach-IsRun lo hi r fits alternating

  -- what a thread has said so far
  Fit-said :
      (r : Request K V) (o : Bool) (xs : List (Call K V × Reply V)) (p : Threads.Pc K V)
      → Fit r o xs p
      → (xs ≡ []) ⊎ IsReply r xs
  unfolding Fit
  Fit-said r true xs Threads.Pc.idle told = inr told
  Fit-said r false xs Threads.Pc.idle told = inl told
  Fit-said r o xs (Threads.calling st op) (_, none_yet, _) = inl none_yet
  Fit-said r o xs (Threads.gathering b pairs) f = absurd f
  Fit-said r o xs (Threads.Pc.pushed k) (_, told) = inr told
  Fit-said r o xs (Threads.Pc.uncounted k v) (_, none_yet, _) = inl none_yet

  Books-IsTold :
      {n m : ℕ} (s : Pool K V) (c : ℕ) (x : Client (Request K V))
      → s.mail.clients c ≡ x
      → Inv n m s.mail
      → AtWork m s
      → BooksOf n m s
      → IsTold x (past s c) (s.heard c)
  Books-IsTold s c Client.idle k inv at_work b = b.calm c (ap awaiting k)
  Books-IsTold s c (Client.answered r o) k inv at_work b =
      let (g, xs, split, told) = b.own c r k in (b.calm c (ap awaiting k), g, xs, split, told)
  Books-IsTold {n} {m} s c (Client.waiting i r) k inv at_work b =
      elim (placed_somewhere n m s.mail c inv (ap awaiting k)) [
        | inl (e, is_queued) ↦
            ([], b.at_queue c e is_queued ∙ sym (append-nil (s.heard c)), inl refl)
        | inr (inl (w, e, is_held)) ↦
            let fit =
              Task-Fit (s.mail.workers w) (s.over w) (s.said w) (s.table.pc w) e is_held.1 is_held.2
                (at_work w is_held.0) in
            let same = same_request inv b c w i e r is_held k in
            (
              s.said w,
              b.at_worker c w e is_held,
              Fit-said r (s.over w) (s.said w) (s.table.pc w) (rw same at fit),
            )
        | inr (inr (i', is_filled)) ↦
            let (c', r', mine, k', _) = inv.of_slot i' is_filled.0 is_filled.1 in
            let here : c' ≡ c = omega (arith, mine, is_filled.2) in
            let k'' : s.mail.clients c ≡ Client.waiting i' r' =
              subst (λ j. s.mail.clients j ≡ Client.waiting i' r') here k' in
            let same : r' ≡ r = cc in
            (
              s.written i',
              b.at_slot c i' is_filled,
              inr (subst (λ q. IsReply q (s.written i')) same (b.kept c i' r' is_filled k'')),
            )
      ]

  -- Clients and server threads at work on a new table of 1 to 2 ^ 50 buckets, resizable or not, with
  -- at most 2 ^ 48 insertions if it is resizable, over a mailbox with a slot: if at no time two
  -- threads are in an insert of one key behind its lookup, the calls that have happened are, in their
  -- order and with their replies, calls of a dictionary that is empty at first and is that of the
  -- bindings behind them. Those of a client are, in order, the ones that it has heard the replies to,
  -- and, while it waits, at most one more, the one of its request. The last that a client with a
  -- response heard is the one of its request.
  pub pool_is_atomic :
      {n m c : ℕ} {dynamic : Bool} {s : Pool K V}
      → 1 ≤ n
      → 1 ≤ c
      → c ≤ max_capacity
      → (r : Reach n m c dynamic s) → (dynamic ≡ true → length s.table.put ≤ max_size)
      → Along (Alternating m) (of_table r)
      → (answers (λ _. none) (calls_of s.history) ≡ (replies_of s.history, view s.table.table))
        × ((i : ℕ) → IsTold (s.mail.clients i) (by_client (suc i) s.history) (s.heard i))
  pool_is_atomic {s = s} slots lo hi r fits alternating = (
    Reach-IsRun lo hi r fits alternating,
    λ i.
        Books-IsTold s i (s.mail.clients i) refl (Reach-Inv slots (of_mail r)) (Reach-AtWork r)
          (Reach-Books slots r),
  )
