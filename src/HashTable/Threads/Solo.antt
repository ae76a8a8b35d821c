-- ===== src/HashTable/Threads/Solo.antt =====
-- A call of `insert` or `remove` (hashtable.h) that goes on while no other thread holds a lock.
use shared_memory_hashtable.Common.{
  ℕ, ◌+◌, ◌≤◌, ◌<◌, ◌≡◌, refl, ◌∙◌, ap, Bool, true, Option, none, some, arith, length, ok, update,
  update_self, total, total-update,
}
use shared_memory_hashtable.HashTable.{get}
use shared_memory_hashtable.HashTable.Keys.{Key}
use shared_memory_hashtable.HashTable.Chains.{find}
use shared_memory_hashtable.HashTable.Buckets.{chain_of, max_size}
use shared_memory_hashtable.HashTable.Threads.{
  Pc, calling, gathering, Stage, entering, asking, measuring, resizing, working, Call, put_call,
  cut_call, shares, System, Step, push, lack, uncount,
}
use shared_memory_hashtable.HashTable.Threads.Holding.{busy}
use shared_memory_hashtable.HashTable.Threads.Storing.{append-rebucket, get-find}
use shared_memory_hashtable.HashTable.Threads.Invariant.{Inv}
use shared_memory_hashtable.HashTable.Threads.Preserved.{Step-Inv}
use shared_memory_hashtable.HashTable.Threads.Progress.{calm-Unlocked}
use shared_memory_hashtable.HashTable.Threads.Going.{Continues, Goes, stay, go}

-- how much is left to do at a stage
abbrev weight : Stage → ℕ
weight entering = 10
weight asking = 13
weight measuring = 12
weight resizing = 10
weight working = 11

module _ {ℓ} {K V : Type ℓ} where
  -- the insertions to come
  abbrev pub adds : Pc K V → ℕ
  adds Pc.idle = 0
  adds (calling st (put_call k v)) = 1
  adds (calling st (cut_call k)) = 0
  adds (gathering b pairs) = 0
  adds (Pc.pushed k) = 0
  adds (Pc.uncounted k v) = 0

  abbrev pub burden : Pc K V → ℕ
  burden Pc.idle = 0
  burden (calling st op) = weight st
  burden (gathering b pairs) = 10
  burden (Pc.pushed k) = 5
  burden (Pc.uncounted k v) = 5

module _ {ℓ} {K V : Type ℓ} ⦃key : Key K⦄ where
  -- A resizable table can take the insertions to come.
  abbrev pub HasRoom : ℕ → Bool → System K V → Type 0
  HasRoom n dynamic s = dynamic ≡ true → length s.put + total adds n s.pc ≤ max_size

  -- There are steps after which there is less left to do than `m`.
  abbrev pub Below : ℕ → Bool → System K V → ℕ → Type ℓ
  Below n dynamic s m =
      (t : System K V) × Goes n s t
      × Inv n dynamic t
      × HasRoom n dynamic t
      × (total burden n t.pc < m)

  pub first :
      {n m : ℕ} {dynamic : Bool} {s t : System K V} (st : Step n s t)
      → Continues st
      → Below n dynamic t m
      → Below n dynamic s m
  first st c (u, r, inv, room, less) = (u, go st c r, inv, room, less)

  -- Thread `i` in a call, when no other thread holds a lock and `m` was left to do before.
  pub record IsSolo (n : ℕ) (dynamic : Bool) (i m : ℕ) (s : System K V) : Type ℓ where
    pub inv : Inv n dynamic s
    pub room : HasRoom n dynamic s
    pub owes : total burden n s.pc + 10 ≡ m + burden (s.pc i)
    pub alone : total shares n s.pc ≡ shares (s.pc i)
    pub calm : total busy n s.pc ≡ busy (s.pc i)

  pub adds-stage : (op : Call K V) (st st' : Stage) → adds (calling st' op) ≡ adds (calling st op)
  adds-stage (put_call k v) st st' = refl
  adds-stage (cut_call k) st st' = refl

  module _ {n : ℕ} {dynamic : Bool} (i m : ℕ) (lt : i < n) where
    stepped :
        {s t : System K V} (a : Pc K V)
        → IsSolo n dynamic i m s
        → Step n s t
        → t.pc ≡ update s.pc i a
        → length t.put + adds a ≡ length s.put + adds (s.pc i)
        → IsSolo n dynamic i m t
    stepped {s} {t} a solo st eq same = record {
      inv = Step-Inv st (λ d. omega (arith, solo.room d)) solo.inv;
      room = λ d. rw eq (omega (arith, solo.room d, same, total-update adds n s.pc i a lt));
      owes =
          rw (eq, update_self s.pc i a)
            (omega (arith, solo.owes, total-update burden n s.pc i a lt));
      alone =
          rw (eq, update_self s.pc i a)
            (omega (arith, solo.alone, total-update shares n s.pc i a lt));
      calm =
          rw (eq, update_self s.pc i a) (omega (arith, solo.calm, total-update busy n s.pc i a lt));
    }

    -- the last step of a thread here
    closing :
        {s t : System K V} (a : Pc K V)
        → IsSolo n dynamic i m s
        → (st : Step n s t) → Continues st
        → t.pc ≡ update s.pc i a
        → length t.put + adds a ≡ length s.put + adds (s.pc i)
        → burden a < 10
        → Below n dynamic s m
    closing {s} {t} a solo st c eq same small =
        let after = stepped a solo st eq same in
        let here : burden (t.pc i) ≡ burden a = rw eq (rw (update_self s.pc i a)) in
        first st c (t, stay, after.inv, after.room, omega (arith, after.owes, here, small))

    cutting :
        {s : System K V} (k : K) (o : Option V)
        → IsSolo n dynamic i m s
        → s.pc i ≡ calling working (cut_call k)
        → get s.table k ≡ ok o
        → Below n dynamic s m
    cutting {s} k none solo e run =
        let free = calm-Unlocked n s k (solo.calm ∙ ap busy e) in
        closing Pc.idle solo (lack i lt e free run) tt refl (omega (arith, ap adds e)) (omega arith)
    cutting {s} k (some v) solo e run =
        let free = calm-Unlocked n s k (solo.calm ∙ ap busy e) in
        closing (Pc.uncounted k v) solo (uncount i lt e free run) tt refl (omega (arith, ap adds e))
          (omega arith)

    pub solo_working :
        {s : System K V} (op : Call K V)
        → IsSolo n dynamic i m s
        → s.pc i ≡ calling working op
        → Below n dynamic s m
    solo_working {s} (put_call k v) solo e =
        let free = calm-Unlocked n s k (solo.calm ∙ ap busy e) in
        closing (Pc.pushed k) solo (push i lt e free (append-rebucket solo.inv.shape k v)) tt refl
          (omega (arith, ap adds e)) (omega arith)
    solo_working {s} (cut_call k) solo e =
        cutting k (find k (chain_of s.table k)) solo e (get-find solo.inv.shape k)

    -- a step to the next stage, and what is left from there
    pub onward :
        {s t : System K V} (op : Call K V) (st st' : Stage)
        → IsSolo n dynamic i m s
        → s.pc i ≡ calling st op
        → (step : Step n s t) → Continues step
        → t.pc ≡ update s.pc i (calling st' op)
        → t.put ≡ s.put
        → (IsSolo n dynamic i m t → t.pc i ≡ calling st' op → Below n dynamic t m)
        → Below n dynamic s m
    onward {s} {t} op st st' solo e step c eq kept rest =
        let same : length t.put + adds (calling st' op) ≡ length s.put + adds (s.pc i) =
          omega (arith, ap length kept, ap adds e, adds-stage op st st') in
        first step c (
          rest (stepped (calling st' op) solo step eq same)
            (rw eq (update_self s.pc i (calling st' op))))
