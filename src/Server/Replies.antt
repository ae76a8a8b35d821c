-- ===== src/Server/Replies.antt =====
-- Requests that clients make, handled by a server thread and read by the clients (client.cpp,
-- `sendMsg`; server.cpp, `respond`), are calls of the dictionary.
use mathlib.Core.Path.{fun_ext}
use shared_memory_hashtable.Common.{
  ℕ, ◌+◌, ◌≤◌, ◌≡◌, refl, sym, subst, ap, ◌∙◌, inl, inr, Bool-cases, Option, none, some, List, [],
  ◌∷◌, length, arith, Run, ok, ◌>>=◌, Returns, ◌&&◌,
}
use shared_memory_hashtable.HashTable.Keys.{Key}
use shared_memory_hashtable.HashTable.Buckets.{max_size, IsValid, view}
use shared_memory_hashtable.HashTable.Operations.{insert-Inserted, remove-Removed}
use shared_memory_hashtable.HashTable.Dictionary.{Call, Reply, inserted, found, answer}
use shared_memory_hashtable.HashTable.Refinement.{insert-answer}
use shared_memory_hashtable.Message.{Bytes, max_length_val}
use shared_memory_hashtable.Server.{Os, Server}
use shared_memory_hashtable.Server.Exchange.{
  Fits, FitsCall, exchange, get-exchange, insert-exchange, remove-exchange,
}

-- every value of a dictionary fits the array of a message
abbrev pub AllFit : (Bytes → Option Bytes) → Type 0
AllFit d = (k v : Bytes) → d k ≡ some v → Fits max_length_val v

abbrev pub AllCallsFit : List (ℕ × Call Bytes Bytes) → Type 0
AllCallsFit [] = Unit {0}
AllCallsFit ((_, c) ∷ cs) = FitsCall c × AllCallsFit cs

module _ ⦃key : Key Bytes⦄ where
  -- the replies of the dictionary, each for the process that called
  unfoldable pub expected :
      (Bytes → Option Bytes)
      → List (ℕ × Call Bytes Bytes)
      → List (Option (Reply Bytes × ℕ)) × (Bytes → Option Bytes)
  expected d [] = ([], d)
  expected d ((id, c) ∷ cs) =
      let (r, d₁) = answer d c in let (rs, d₂) = expected d₁ cs in (some (r, id) ∷ rs, d₂)

module _ (os : Os) ⦃key : Key Bytes⦄ where
  -- what an exchange for the call `c` leaves
  pub record Exchanged (id : ℕ) (s : Server) (c : Call Bytes Bytes)
      (r : Option (Reply Bytes × ℕ) × Server) : Type 0 where
    pub reply : r.0 ≡ some ((answer (view s.table) c).0, id)
    pub bindings : view r.1.table ≡ (answer (view s.table) c).1
    pub valid : IsValid r.1.table
    pub fits : AllFit (view r.1.table)
    pub size : r.1.table.size ≤ s.table.size + 1
    pub segments : r.1.segments ≡ s.segments

  pub exchange-Exchanged :
      (id : ℕ) (s : Server) (c : Call Bytes Bytes)
      → FitsCall c
      → IsValid s.table
      → AllFit (view s.table)
      → s.table.size + 1 ≤ max_size
      → Returns (exchange os id s c) (Exchanged id s c)
  unfolding answer
  exchange-Exchanged id s (Call.get k) fk valid fits small = (
    (some (found (view s.table k), id), s),
    get-exchange os id s k fk valid (fits k),
    record {
      reply = refl;
      bindings = refl;
      valid = valid;
      fits = fits;
      size = omega arith;
      segments = refl;
    },
  )
  exchange-Exchanged id s (Call.insert k v) (fk, fv) valid fits small =
      let (r, run, i) = insert-Inserted k v valid (omega arith) in
      let (e, d) = insert-answer k v i in
      (
        (some (inserted r.0, id), record s { table = r.1 }),
        insert-exchange os id s k v r fk fv run,
        record {
          reply = ap (λ o. some (o, id)) e;
          bindings = d;
          valid = i.valid;
          fits = λ q w h. elim (Bool-cases (r.0 && key.equal k q)) [
            | inl here ↦
                let same : some v ≡ some w = sym (rw here at (i.reads q)) ∙ h in
                let e' : v ≡ w = cc in subst (Fits max_length_val) e' fv
            | inr other ↦ fits q w (sym (rw other at (i.reads q)) ∙ h)
          ];
          size = ground (arith, i.size);
          segments = refl;
        },
      )
  exchange-Exchanged id s (Call.remove k) fk valid fits small =
      let (r, run, d) = remove-Removed k valid (omega arith) in
      (
        (some (found r.0, id), record s { table = r.1 }),
        remove-exchange os id s k r fk run (λ v h. fits k v (sym d.result ∙ h)),
        record {
          reply = ap (λ o. some (found o, id)) d.result;
          bindings = fun_ext d.reads;
          valid = d.valid;
          fits = λ q w h. elim (Bool-cases (key.equal k q)) [
            | inl here ↦ let gone : none ≡ some w = sym (rw here at (d.reads q)) ∙ h in cc
            | inr other ↦ fits q w (sym (rw other at (d.reads q)) ∙ h)
          ];
          size = omega (arith, d.size);
          segments = refl;
        },
      )

  -- A sequence of calls, each by a process, one after the other.
  pub exchanges :
      List (ℕ × Call Bytes Bytes) → Server → Run (List (Option (Reply Bytes × ℕ)) × Server)
  exchanges [] s = ok ([], s)
  exchanges ((id, c) ∷ cs) s = do
    (r, s₁) ← exchange os id s c
    (rs, s₂) ← exchanges cs s₁
    ok (r ∷ rs, s₂)

  -- Calls that clients send one after the other, with texts that fit the arrays of a message, to a
  -- server whose table is valid and has only values that fit them, and does not get too large, are
  -- all handled without a fault. Every client reads the reply of the dictionary of the bindings, in a
  -- response to its process, and the table is left valid with the bindings of the dictionary.
  pub exchanges_refine :
      (cs : List (ℕ × Call Bytes Bytes)) (s : Server)
      → AllCallsFit cs
      → IsValid s.table
      → AllFit (view s.table)
      → s.table.size + length cs ≤ max_size
      → Returns (exchanges cs s) λ r.
        (r.0 ≡ (expected (view s.table) cs).0)
        × (view r.1.table ≡ (expected (view s.table) cs).1)
        × IsValid r.1.table
  unfolding exchanges expected
  exchanges_refine [] s calls_fit valid fits small = (([], s), refl, (refl, refl, valid))
  exchanges_refine ((id, c) ∷ cs) s (fc, calls_fit) valid fits small =
      let (r, run, x) = exchange-Exchanged id s c fc valid fits (omega arith) in
      let (rs, run', (e, d, v)) =
        exchanges_refine cs r.1 calls_fit x.valid x.fits (omega (arith, x.size)) in
      (
        (r.0 ∷ rs.0, rs.1),
        rw (run, ◌>>=◌, run'),
        (rw (e, x.bindings, x.reply), rw (d, x.bindings), v),
      )
