-- ===== src/HashTable/Refinement.antt =====
-- Every sequence of calls of a valid `HashTable` (hashtable.h) gets the replies of the dictionary of
-- its bindings.
use shared_memory_hashtable.Common.{
  Bool, ◌+◌, ◌≤◌, ◌≡◌, refl, ap, ◌∙◌, true, false, inl, inr, Option-cases, List, [], ◌∷◌, length,
  arith, Run, ok, Returns, ◌>>=◌,
}
use mathlib.Core.Path.{fun_ext}
use shared_memory_hashtable.HashTable.{HashTable}
use shared_memory_hashtable.HashTable
use shared_memory_hashtable.HashTable.Keys.{Key}
use shared_memory_hashtable.HashTable.Buckets.{max_size, IsValid, view}
use shared_memory_hashtable.HashTable.Operations.{
  get-view, Inserted, insert-Inserted, remove-Removed,
}
use shared_memory_hashtable.HashTable.Dictionary.{
  Call, insert, get, remove, Reply, inserted, found, answer, answers,
}

module _ {ℓ} {K V : Type ℓ} ⦃key : Key K⦄ where
  -- a call of the table, with what it returns
  pub call : HashTable K V → Call K V → Run (Reply V × HashTable K V)
  call t (insert k v) = HashTable.insert t k v >>= λ r. ok (inserted r.0, r.1)
  call t (get k) = HashTable.get t k >>= λ r. ok (found r, t)
  call t (remove k) = HashTable.remove t k >>= λ r. ok (found r.0, r.1)

  pub calls : HashTable K V → List (Call K V) → Run (List (Reply V) × HashTable K V)
  calls t [] = ok ([], t)
  calls t (c ∷ cs) = do (r, t₁) ← call t c; (rs, t₂) ← calls t₁ cs; ok (r ∷ rs, t₂)

  -- A call returns what the dictionary answers, and leaves the table with what it leaves.
  record Answers (t : HashTable K V) (c : Call K V) (r : Reply V × HashTable K V) : Type ℓ where
    reply : r.0 ≡ (answer (view t) c).0
    bindings : view r.1 ≡ (answer (view t) c).1
    valid : IsValid r.1
    size : r.1.size ≤ t.size + 1

  -- what an insertion does to the dictionary of the bindings
  pub insert-answer :
      {t : HashTable K V} {r : Bool × HashTable K V} (k : K) (v : V)
      → Inserted t k v r
      → ◌≡◌ {A = Reply V} (inserted r.0) (answer (view t) (insert k v)).0
        × (view r.1 ≡ (answer (view t) (insert k v)).1)
  unfolding answer
  insert-answer {t} {r} k v i = elim (Option-cases (view t k)) [
    | inl absent ↦
        let done : r.0 ≡ true = i.result ∙ rw absent in
        (rw (absent, done), fun_ext (λ q. i.reads q ∙ rw (absent, done)))
    | inr (old, bound) ↦
        let refused : r.0 ≡ false = i.result ∙ rw bound in
        (rw (bound, refused), fun_ext (λ q. i.reads q ∙ rw (bound, refused)))
  ]

  call-Answers :
      {t : HashTable K V} (c : Call K V)
      → IsValid t
      → t.size + 1 ≤ max_size
      → Returns (call t c) (Answers t c)
  unfolding call answer
  call-Answers {t} (insert k v) valid small =
      let (r, run, i) = insert-Inserted k v valid (omega arith) in
      let (e, d) = insert-answer k v i in
      (
        (inserted r.0, r.1),
        rw run,
        record { reply = e; bindings = d; valid = i.valid; size = ground (arith, i.size) },
      )
  call-Answers {t} (get k) valid small = (
    (found (view t k), t),
    rw (get-view k valid),
    record { reply = refl; bindings = refl; valid = valid; size = omega arith },
  )
  call-Answers {t} (remove k) valid small =
      let (r, run, d) = remove-Removed k valid (omega arith) in
      (
        (found r.0, r.1),
        rw run,
        record {
          reply = ap found d.result;
          bindings = fun_ext d.reads;
          valid = d.valid;
          size = omega (arith, d.size);
        },
      )

  -- On a valid table that gets no more than 2 ^ 48 entries, no call of a sequence of insert, get
  -- and remove faults, the replies are those of the dictionary of the bindings, and the table is
  -- left valid, with the bindings of the dictionary.
  pub table_refines :
      (cs : List (Call K V)) {t : HashTable K V}
      → IsValid t
      → t.size + length cs ≤ max_size
      → Returns
          (calls t cs)
          λ r. (r.0 ≡ (answers (view t) cs).0) × (view r.1 ≡ (answers (view t) cs).1) × IsValid r.1
  unfolding calls answers
  table_refines [] {t} valid small = (([], t), refl, (refl, refl, valid))
  table_refines (c ∷ cs) {t} valid small =
      let (r, run, a) = call-Answers c valid (omega arith) in
      let (rs, run', (e, d, v)) = table_refines cs a.valid (omega (arith, a.size)) in
      (
        (r.0 ∷ rs.0, rs.1),
        rw (run, ◌>>=◌, run'),
        (rw (e, a.bindings, a.reply), rw (d, a.bindings), v),
      )
