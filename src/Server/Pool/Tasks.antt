-- ===== src/Server/Pool/Tasks.antt =====
-- What a server thread is at, by its request (server.cpp, `receiveMsg` and `respond`): its place in the
-- call of the table is one of the call of its request, and it answers its request once.
use shared_memory_hashtable.Common.{
  ℕ, ◌≡◌, ◌≢◌, inl, inr, refl, sym, ◌∙◌, subst, Bool, true, false, Option, none, some, List, [],
  ◌∷◌, ◌++◌, append-nil, update, update_self, update_ne,
}
use shared_memory_hashtable.HashTable.Keys.{Key}
use shared_memory_hashtable.HashTable.Threads
use shared_memory_hashtable.HashTable.Threads.{
  Pc, idle, calling, gathering, Stage, entering, asking, measuring, resizing, working, first_stage,
  put_call, cut_call, look, look_bucket, look_up, list, gather, listed, miss, call, enter, content,
  ask, settled, unsettled, rehash, push, lack, uncount, drop,
}
use shared_memory_hashtable.HashTable.Threads.Atomic.{Event, event, looked_up}
use shared_memory_hashtable.HashTable.Dictionary.{Call, Reply, inserted, found}
use shared_memory_hashtable.Server.Pool.{
  Request, asks, bucket, unreadable, produced, Looks, Takes, ends,
}

module _ {K V : Type 0} where
  -- the one call that a request asks for, answered
  abbrev pub IsReply : Request K V → List (Call K V × Reply V) → Type 0
  IsReply (asks c) xs = (a : Reply V) × (xs ≡ (c, a) ∷ [])
  IsReply (bucket b) xs = xs ≡ []
  IsReply unreadable xs = ⊥

  -- the call of a thread, as one of a dictionary
  abbrev asked : Threads.Call K V → Call K V
  asked (put_call k v) = Call.insert k v
  asked (cut_call k) = Call.remove k

  abbrev Told : Request K V → Bool → List (Call K V × Reply V) → Type 0
  Told r true xs = IsReply r xs
  Told r false xs = xs ≡ []

  -- what a thread has said for an open request, by whether it is over with it, and where it is
  unfoldable pub Fit : Request K V → Bool → List (Call K V × Reply V) → Pc K V → Type 0
  Fit r o xs Pc.idle = Told r o xs
  Fit r o xs (calling st op) = (o ≡ false) × (xs ≡ []) × (r ≡ asks (asked op))
  Fit r o xs (gathering b pairs) = ⊥
  Fit r o xs (Pc.pushed k) = (o ≡ false) × IsReply r xs
  Fit r o xs (Pc.uncounted k v) = (o ≡ false) × (xs ≡ []) × (r ≡ asks (Call.remove k))

  -- A thread that is over with its request is not in a call.
  pub over-idle :
      (r : Request K V) (o : Bool) (xs : List (Call K V × Reply V)) (p : Pc K V)
      → o ≡ true
      → Fit r o xs p
      → (p ≡ Pc.idle) × IsReply r xs
  unfolding Fit
  over-idle r o xs Pc.idle h told = (refl, rw h at told)
  over-idle r o xs (calling st op) h (running, _, _) = cc
  over-idle r o xs (gathering b pairs) h f = absurd f
  over-idle r o xs (Pc.pushed k) h (running, _) = cc
  over-idle r o xs (Pc.uncounted k v) h (running, _, _) = cc

  Looks-IsReply :
      (r : Request K V) (k : K) (o : Option V)
      → Looks r k o
      → IsReply r (produced r (looked_up k o))
  Looks-IsReply r k (some u) (inl h) = rw h (found (some u), refl)
  Looks-IsReply r k (some u) (inr (v, h)) = rw h (inserted false, refl)
  Looks-IsReply r k none h = rw h (found none, refl)

  -- Thread `i`, which is `w`, before and behind its step.
  module _ (P : Pc K V → Type 0) (pc : ℕ → Pc K V) (i w : ℕ) where
    pub before : {p : Pc K V} → i ≡ w → pc i ≡ p → P (pc w) → P p
    before {p} same e = subst P (subst (λ x. pc x ≡ p) same e)

    behind : (a : Pc K V) → i ≡ w → P a → P (update pc i a w)
    behind a same h = subst (λ x. P (update pc i a x)) same (subst P (sym (update_self pc i a)) h)

    unmoved : {p : Pc K V} → i ≡ w → pc i ≡ p → P p → P (pc w)
    unmoved same e h = subst (λ x. P (pc x)) same (subst P (sym e) h)

  quiet : (r : Request K V) (xs : List (Call K V × Reply V)) → xs ++ produced r Event.silent ≡ xs
  quiet (asks c) xs = append-nil xs
  quiet (bucket b) xs = append-nil xs
  quiet unreadable xs = append-nil xs

  -- Thread `i`, which is `w`, goes on in its call.
  going :
      (w : ℕ) (r : Request K V) (xs : List (Call K V × Reply V)) (i : ℕ) (pc : ℕ → Pc K V)
      (st st' : Stage) (op : Threads.Call K V)
      → i ≡ w
      → pc i ≡ calling st op
      → Fit r false xs (pc w)
      → Fit r false (xs ++ produced r Event.silent) (update pc i (calling st' op) w)
  unfolding Fit
  going w r xs i pc st st' op same e fit =
      let (_, none_yet, h) = before (Fit r false xs) pc i w same e fit in
      behind (Fit r false _) pc i w (calling st' op) same (refl, quiet r xs ∙ none_yet, h)

module _ {K V : Type 0} ⦃key : Key K⦄ where
  -- A step of the table keeps the thread that takes it at the call of its request.
  pub Takes-Fit :
      {m : ℕ} {s t : Threads.System K V} (w : ℕ) (r : Request K V) (xs : List (Call K V × Reply V))
      → (st : Threads.Step m s t) → Takes w r st
      → Fit r false xs (s.pc w)
      → Fit r (ends st) (xs ++ produced r (event st)) (t.pc w)
  unfolding Takes Fit ends event
  Takes-Fit {s = s} w r xs (look i k {o} lt e free run) (same, looks) fit =
      let none_yet = before (Fit r false xs) s.pc i w same e fit in
      unmoved (Fit r true _) s.pc i w same e (rw none_yet (Looks-IsReply r k o looks))
  Takes-Fit {s = s} w r xs (look_bucket i b lt e free run) (same, h) fit =
      let none_yet = before (Fit r false xs) s.pc i w same e fit in
      unmoved (Fit r true _) s.pc i w same e (rw (none_yet, h) refl)
  Takes-Fit w r xs (look_up i k lt e free run) none_of_it fit = absurd none_of_it
  Takes-Fit w r xs (list i lt e) none_of_it fit = absurd none_of_it
  Takes-Fit w r xs (gather i lt e inside free run) none_of_it fit = absurd none_of_it
  Takes-Fit w r xs (listed i lt e end) none_of_it fit = absurd none_of_it
  Takes-Fit {s = s} w r xs (miss i k v lt e free run) (same, h) fit =
      let none_yet = before (Fit r false xs) s.pc i w same e fit in
      behind (Fit r false _) s.pc i w (calling entering (put_call k v)) same
        (refl, rw (none_yet, h) refl, h)
  Takes-Fit {s = s} w r xs (call i k lt e) (same, h) fit =
      let none_yet = before (Fit r false xs) s.pc i w same e fit in
      behind (Fit r false _) s.pc i w (calling entering (cut_call k)) same
        (refl, rw (none_yet, h) refl, h)
  Takes-Fit {s = s} w r xs (enter i {op} lt e) same fit =
      going w r xs i s.pc entering (first_stage s.table) op same e fit
  Takes-Fit {s = s} w r xs (content i {op} lt e none_in) same fit =
      going w r xs i s.pc asking working op same e fit
  Takes-Fit {s = s} w r xs (ask i {op} lt e some_in) same fit =
      going w r xs i s.pc asking measuring op same e fit
  Takes-Fit {s = s} w r xs (settled i {op} lt e fine) same fit =
      going w r xs i s.pc measuring working op same e fit
  Takes-Fit {s = s} w r xs (unsettled i {op} lt e wrong) same fit =
      going w r xs i s.pc measuring resizing op same e fit
  Takes-Fit {s = s} w r xs (rehash i {op} lt e free run) same fit =
      going w r xs i s.pc resizing entering op same e fit
  Takes-Fit {s = s} w r xs (push i {k} {v} lt e free run) same fit =
      let (_, none_yet, h) = before (Fit r false xs) s.pc i w same e fit in
      behind (Fit r false _) s.pc i w (Pc.pushed k) same
        (refl, rw (none_yet, h) (inserted true, refl))
  Takes-Fit {s = s} w r xs (Threads.Step.count i lt e) same fit =
      let (_, told) = before (Fit r false xs) s.pc i w same e fit in
      behind (Fit r true _) s.pc i w Pc.idle same (rw (quiet r xs) told)
  Takes-Fit {s = s} w r xs (lack i {k} lt e free run) same fit =
      let (_, none_yet, h) = before (Fit r false xs) s.pc i w same e fit in
      behind (Fit r true _) s.pc i w Pc.idle same (rw (none_yet, h) (found none, refl))
  Takes-Fit {s = s} w r xs (uncount i {k} {v} lt e free run) same fit =
      let (_, none_yet, h) = before (Fit r false xs) s.pc i w same e fit in
      behind (Fit r false _) s.pc i w (Pc.uncounted k v) same (refl, quiet r xs ∙ none_yet, h)
  Takes-Fit {s = s} w r xs (drop i {k} {v} lt e run) same fit =
      let (_, none_yet, h) = before (Fit r false xs) s.pc i w same e fit in
      behind (Fit r true _) s.pc i w Pc.idle same (rw (none_yet, h) (found (some v), refl))

  aside : (pc : ℕ → Pc K V) (i w j : ℕ) (a : Pc K V) → i ≡ w → w ≢ j → update pc i a j ≡ pc j
  aside pc i w j a same ne = update_ne pc i j a (λ h. ne (sym same ∙ h))

  -- It leaves the other threads where they are.
  pub Takes-others :
      {m : ℕ} {s t : Threads.System K V} (w j : ℕ) (r : Request K V) (st : Threads.Step m s t)
      → Takes w r st
      → w ≢ j
      → t.pc j ≡ s.pc j
  unfolding Takes
  Takes-others w j r (look i k lt e free run) same ne = refl
  Takes-others w j r (look_bucket i b lt e free run) same ne = refl
  Takes-others w j r (look_up i k lt e free run) none_of_it ne = absurd none_of_it
  Takes-others w j r (list i lt e) none_of_it ne = absurd none_of_it
  Takes-others w j r (gather i lt e inside free run) none_of_it ne = absurd none_of_it
  Takes-others w j r (listed i lt e end) none_of_it ne = absurd none_of_it
  Takes-others {s = s} w j r (miss i k v lt e free run) (same, _) ne = aside s.pc i w j _ same ne
  Takes-others {s = s} w j r (call i k lt e) (same, _) ne = aside s.pc i w j _ same ne
  Takes-others {s = s} w j r (enter i lt e) same ne = aside s.pc i w j _ same ne
  Takes-others {s = s} w j r (content i lt e none_in) same ne = aside s.pc i w j _ same ne
  Takes-others {s = s} w j r (ask i lt e some_in) same ne = aside s.pc i w j _ same ne
  Takes-others {s = s} w j r (settled i lt e fine) same ne = aside s.pc i w j _ same ne
  Takes-others {s = s} w j r (unsettled i lt e wrong) same ne = aside s.pc i w j _ same ne
  Takes-others {s = s} w j r (rehash i lt e free run) same ne = aside s.pc i w j _ same ne
  Takes-others {s = s} w j r (push i lt e free run) same ne = aside s.pc i w j _ same ne
  Takes-others {s = s} w j r (Threads.Step.count i lt e) same ne = aside s.pc i w j _ same ne
  Takes-others {s = s} w j r (lack i lt e free run) same ne = aside s.pc i w j _ same ne
  Takes-others {s = s} w j r (uncount i lt e free run) same ne = aside s.pc i w j _ same ne
  Takes-others {s = s} w j r (drop i lt e run) same ne = aside s.pc i w j _ same ne
