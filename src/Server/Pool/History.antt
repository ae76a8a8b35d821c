-- ===== src/Server/Pool/History.antt =====
-- The calls of the server threads (server.cpp, `respond`) in the order in which they happen at the
-- table (hashtable.h), as a sequence of calls of a dictionary.
use shared_memory_hashtable.Common.{
  ℕ, ◌≡◌, ◌⊎◌, inl, inr, refl, sym, ◌∙◌, ap, true, false, Option, none, some, List, [], ◌∷◌, ◌++◌,
  append-nil, map, Bool-cases,
}
use mathlib.Core.List.{map-append}
use mathlib.Core.Path.{fun_ext}
use shared_memory_hashtable.HashTable.Keys.{Key}
use shared_memory_hashtable.HashTable.Threads
use shared_memory_hashtable.HashTable.Threads.{
  Pc, look, look_bucket, look_up, list, gather, listed, miss, call, enter, content, ask, settled,
  unsettled, rehash, push, lack, uncount, drop,
}
use shared_memory_hashtable.HashTable.Threads.Atomic.{
  Event, silent, looked_up, bound, unbound, event, Happens,
}
use shared_memory_hashtable.HashTable.Dictionary.{
  Call, Reply, inserted, found, Dictionary, answer, answers, rebind, insert_new,
}
use shared_memory_hashtable.Server.Pool.{
  Request, asks, bucket, unreadable, produced, signed, reply, Looks, Takes,
}
use shared_memory_hashtable.Server.Pool.Tasks.{Fit, before}

module _ {K V : Type 0} where
  -- the calls of a history, and their replies
  abbrev pub calls_of : List (ℕ × (Call K V × Reply V)) → List (Call K V)
  calls_of h = map (λ x. x.1.0) h

  abbrev pub replies_of : List (ℕ × (Call K V × Reply V)) → List (Reply V)
  replies_of h = map (λ x. x.1.1) h

  -- the event is one of the call that a request asks for
  abbrev Says : Request K V → Event K V → Type 0
  Says r silent = Unit
  Says r (looked_up k (some u)) = Looks r k (some u)
  Says r (looked_up k none) = (r ≡ asks (Call.get k)) ⊎ (r ≡ asks (Call.remove k))
  Says r (bound k v) = r ≡ asks (Call.insert k v)
  Says r (unbound k v) = r ≡ asks (Call.remove k)

module _ {K V : Type 0} ⦃key : Key K⦄ where
  pub Takes-Says :
      {m : ℕ} {s t : Threads.System K V} (w : ℕ) (r : Request K V) (xs : List (Call K V × Reply V))
      → (st : Threads.Step m s t) → Takes w r st
      → Fit r false xs (s.pc w)
      → Says r (event st)
  unfolding Takes Fit event
  Takes-Says w r xs (look i k {o = some u} lt e free run) (same, looks) fit = looks
  Takes-Says w r xs (look i k {o = none} lt e free run) (same, looks) fit = inl looks
  Takes-Says w r xs (look_bucket i b lt e free run) takes fit = tt
  Takes-Says w r xs (look_up i k lt e free run) none_of_it fit = absurd none_of_it
  Takes-Says w r xs (list i lt e) none_of_it fit = absurd none_of_it
  Takes-Says w r xs (gather i lt e inside free run) none_of_it fit = absurd none_of_it
  Takes-Says w r xs (listed i lt e end) none_of_it fit = absurd none_of_it
  Takes-Says w r xs (miss i k v lt e free run) takes fit = tt
  Takes-Says w r xs (call i k lt e) takes fit = tt
  Takes-Says w r xs (enter i lt e) takes fit = tt
  Takes-Says w r xs (content i lt e none_in) takes fit = tt
  Takes-Says w r xs (ask i lt e some_in) takes fit = tt
  Takes-Says w r xs (settled i lt e fine) takes fit = tt
  Takes-Says w r xs (unsettled i lt e wrong) takes fit = tt
  Takes-Says w r xs (rehash i lt e free run) takes fit = tt
  Takes-Says {s = s} w r xs (push i {k} {v} lt e free run) same fit =
      (before (Fit r false xs) s.pc i w same e fit).2
  Takes-Says w r xs (Threads.Step.count i lt e) takes fit = tt
  Takes-Says {s = s} w r xs (lack i {k} lt e free run) same fit =
      inr (before (Fit r false xs) s.pc i w same e fit).2
  Takes-Says w r xs (uncount i lt e free run) takes fit = tt
  Takes-Says {s = s} w r xs (drop i {k} {v} lt e run) same fit =
      (before (Fit r false xs) s.pc i w same e fit).2

  -- The history is one of a dictionary that is empty at first and is `d` behind it.
  abbrev pub IsRun : List (ℕ × (Call K V × Reply V)) → Dictionary K V → Type 0
  IsRun h d = answers (λ _. none) (calls_of h) ≡ (replies_of h, d)

  answers-snoc :
      (d : Dictionary K V) (cs : List (Call K V)) (c : Call K V)
      → answers d (cs ++ c ∷ [])
        ≡ ((answers d cs).0 ++ (answer (answers d cs).1 c).0 ∷ [], (answer (answers d cs).1 c).1)
  unfolding answers
  answers-snoc d [] c = refl
  answers-snoc d (x ∷ cs) c = rw (answers-snoc (answer d x).1 cs c) refl

  IsRun-snoc :
      (h : List (ℕ × (Call K V × Reply V))) (p : ℕ) (c : Call K V) (a : Reply V)
      (d d' : Dictionary K V)
      → answer d c ≡ (a, d')
      → IsRun h d
      → IsRun (h ++ (p, (c, a)) ∷ []) d'
  IsRun-snoc h p c a d d' step run =
      rw
        (
          map-append (λ x. x.1.0) h ((p, (c, a)) ∷ []),
          map-append (λ x. x.1.1) h ((p, (c, a)) ∷ []),
          answers-snoc (λ _. none) (calls_of h) c,
          run,
          step,
        )
        refl

  -- What happens to the dictionary at an event is what the call of the request does to it.
  Happens-looked :
      (r : Request K V) (k : K) (o : Option V) (d d' : Dictionary K V)
      → Says r (looked_up k o)
      → o ≡ d k
      → ((q : K) → d' q ≡ d q)
      → (c : Call K V) × (r ≡ asks c) × (answer d c ≡ (reply c o, d'))
  unfolding answer insert_new
  Happens-looked r k (some u) d d' (inl h) found_it same =
      (Call.get k, h, rw (sym found_it, fun_ext same) refl)
  Happens-looked r k (some u) d d' (inr (v, h)) found_it same =
      (Call.insert k v, h, rw (sym found_it, fun_ext same) refl)
  Happens-looked r k none d d' (inl h) found_it same =
      (Call.get k, h, rw (sym found_it, fun_ext same) refl)
  Happens-looked r k none d d' (inr h) found_it same =
      let unchanged : rebind d k none ≡ d' = fun_ext (λ q. elim (Bool-cases (key.equal k q)) [
        | inl this ↦
            let here : k ≡ q = (key.equal_iff k q).0 this in
            rw this (found_it ∙ ap d here ∙ sym (same q))
        | inr other ↦ rw other (sym (same q))
      ]) in
      (Call.remove k, h, rw (sym found_it, unchanged) refl)

  pub Happens-IsRun :
      (h : List (ℕ × (Call K V × Reply V))) (p : ℕ) (r : Request K V) (e : Event K V)
      (d d' : Dictionary K V)
      → Says r e
      → Happens d e d'
      → IsRun h d
      → IsRun (h ++ signed p (produced r e)) d'
  unfolding Happens answer insert_new
  Happens-IsRun h p (asks c) silent d d' says same run = rw (append-nil h, fun_ext same) run
  Happens-IsRun h p (bucket b) silent d d' says same run = rw (append-nil h, fun_ext same) run
  Happens-IsRun h p unreadable silent d d' says same run = rw (append-nil h, fun_ext same) run
  Happens-IsRun h p r (looked_up k o) d d' says (found_it, same) run =
      let (c, e, step) = Happens-looked r k o d d' says found_it same in
      rw e (IsRun-snoc h p c (reply c o) d d' step run)
  Happens-IsRun h p r (bound k v) d d' says (absent, reads) run =
      rw says (
        IsRun-snoc h p (Call.insert k v) (inserted true) d d' (rw (absent, fun_ext reads) refl) run)
  Happens-IsRun h p r (unbound k v) d d' says (present, reads) run =
      rw says (
        IsRun-snoc h p (Call.remove k) (found (some v)) d d' (rw (present, fun_ext reads) refl) run)
