-- ===== src/Server/Pool/Working.antt =====
-- The books behind every step (server.cpp, `respond`): what the clients have heard, against the calls
-- that have happened at the table.
use shared_memory_hashtable.Common.{
  ℕ, suc, ◌<◌, ◌≡◌, ◌≢◌, inl, inr, refl, sym, ◌∙◌, ap, true, false, List, [], ◌∷◌, ◌++◌,
  append_assoc, arith, update, Bool-cases, equal-cases, if◌then◌else◌, ◌==◌,
}
use shared_memory_hashtable.Mailbox
use shared_memory_hashtable.Mailbox.{
  Entry, Client, Worker, send, notify, fetch, deliver, close, receive, resume,
}
use shared_memory_hashtable.Mailbox.Matching.{Inv}
use shared_memory_hashtable.HashTable.Dictionary.{Call, Reply}
use shared_memory_hashtable.Server.Pool.{Request, signed}
use shared_memory_hashtable.Server.Pool.Places.{not_held, held-queued, held-filled, held-held}
use shared_memory_hashtable.Server.Pool.Books.{Books}

module _ {K V : Type 0} where
  -- the calls of process `p`
  abbrev pub by_client : ℕ → List (ℕ × (Call K V × Reply V)) → List (Call K V × Reply V)
  by_client p [] = []
  by_client p (x ∷ h) = let rest = by_client p h in if x.0 == p then x.1 ∷ rest else rest

  pub by_client-own :
      (p : ℕ) (h : List (ℕ × (Call K V × Reply V))) (xs : List (Call K V × Reply V))
      → by_client p (h ++ signed p xs) ≡ by_client p h ++ xs
  by_client-own p [] [] = refl
  by_client-own p [] (x ∷ xs) =
      let same : (p == p) ≡ true = ground arith in rw (same, by_client-own p [] xs) refl
  by_client-own p (y ∷ h) xs = elim (Bool-cases (y.0 == p)) [
    | inl same ↦ rw (same, by_client-own p h xs) refl
    | inr other ↦ rw (other, by_client-own p h xs) refl
  ]

  pub by_client-other :
      (p q : ℕ) (h : List (ℕ × (Call K V × Reply V))) (xs : List (Call K V × Reply V))
      → (q == p) ≡ false
      → by_client p (h ++ signed q xs) ≡ by_client p h
  by_client-other p q [] [] ne = refl
  by_client-other p q [] (x ∷ xs) ne = rw (ne, by_client-other p q [] xs ne) refl
  by_client-other p q (y ∷ h) xs ne = elim (Bool-cases (y.0 == p)) [
    | inl same ↦ rw (same, by_client-other p q h xs ne) refl
    | inr other ↦ rw (other, by_client-other p q h xs ne) refl
  ]

  -- A thread does something for its request: `xs` are the calls of it that happen.
  pub work-Books :
      {n m : ℕ} {x : Mailbox.System (Request K V)}
      {said written heard past past' : ℕ → List (Call K V × Reply V)} (w : ℕ)
      (e : Entry (Request K V)) (xs : List (Call K V × Reply V))
      → Inv n m x
      → Books n m x said written heard past
      → w < m
      → x.workers w ≡ Worker.holding e
      → e.closing ≡ false
      → ((c : ℕ) → e.pid ≡ suc c → past' c ≡ past c ++ xs)
      → ((c : ℕ) → e.pid ≢ suc c → past' c ≡ past c)
      → Books n m x (update said w (said w ++ xs)) written heard past'
  work-Books {n} {m} {x} {said} {heard = heard} {past = past} w e xs inv b lt h open_request
        own_past other_past =
      record {
        at_queue = λ c e' is_queued. elim (equal-cases e.pid (suc c)) [
          | inl mine ↦ absurd (held-queued n m x c inv w e e' (lt, h, open_request, mine) is_queued)
          | inr other ↦ other_past c other ∙ b.at_queue c e' is_queued
        ];
        at_worker = λ c w' e' is_held. elim (equal-cases e.pid (suc c)) [
          | inl mine ↦ elim (Bool-cases (w == w')) [
            | inl same ↦
                let before = b.at_worker c w e (lt, h, open_request, mine) in
                rw same
                  (own_past c mine ∙ ap (λ l. l ++ xs) before ∙ append_assoc (heard c) (said w) xs)
            | inr ne ↦ absurd (
                held-held n m x c inv w w' e e' (λ i. ground arith) (lt, h, open_request, mine)
                  is_held)
          ]
          | inr other ↦ elim (Bool-cases (w == w')) [
            | inl same ↦
                let here : w' ≡ w = ground arith in
                let it : Worker.holding e ≡ Worker.holding e' =
                  sym h ∙ sym (ap x.workers here) ∙ is_held.1 in
                let same_entry : e ≡ e' = cc in
                let mine : e.pid ≡ suc c =
                  ap (λ (z : Entry (Request K V)). z.pid) same_entry ∙ is_held.3 in
                absurd (other mine)
            | inr ne ↦ rw ne (other_past c other ∙ b.at_worker c w' e' is_held)
          ]
        ];
        at_slot = λ c i is_filled. elim (equal-cases e.pid (suc c)) [
          | inl mine ↦ absurd (held-filled n m x c inv w i e (lt, h, open_request, mine) is_filled)
          | inr other ↦ other_past c other ∙ b.at_slot c i is_filled
        ];
        calm = λ c still. elim (equal-cases e.pid (suc c)) [
          | inl mine ↦ absurd (not_held n m x c inv still w e (lt, h, open_request, mine))
          | inr other ↦ other_past c other ∙ b.calm c still
        ];
        kept = b.kept;
        own = b.own;
      }
