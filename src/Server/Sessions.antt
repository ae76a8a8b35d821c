-- ===== src/Server/Sessions.antt =====
-- A client with its server (client.cpp and server.cpp): what a session prints, from the lines that are
-- typed to the dictionary that the server keeps.
use shared_memory_hashtable.Common.{
  ℕ, Bool, true, false, ◌+◌, ◌≤◌, ◌<◌, ◌≡◌, refl, ap, ◌∙◌, Option, none, some, List, [], ◌∷◌, ◌++◌,
  length, codes, arith, pos, Run, ok, ◌>>=◌, ok-parts, ok-injective, Returns,
}
use shared_memory_hashtable.HashTable.Keys.{Key}
use shared_memory_hashtable.HashTable.Buckets.{max_size, IsValid, view}
use shared_memory_hashtable.HashTable.Dictionary.{Call, Reply, inserted, found, answer}
use shared_memory_hashtable.Message.{Bytes, Mode, Message}
use shared_memory_hashtable.Client.{command, printed}
use shared_memory_hashtable.Client.Session.{
  Host, Output, out, Round, value_text, success_text, returned, print_response, round, rounds,
  send_round, send_msg, get_line, insert_line, delete_line,
}
use shared_memory_hashtable.Server.{Os, Server, Outcome, Cell, respond}
use shared_memory_hashtable.Server.Exchange.{
  FitsCall, request, reading, delivered, handled, exchange,
}
use shared_memory_hashtable.Server.Replies.{AllFit, exchange-Exchanged}

-- what the client makes of the line for a call
abbrev pub asked : Call Bytes Bytes → Mode × Bytes × Bytes
asked (Call.insert k v) = (Mode.insert, k, v)
asked (Call.get k) = (Mode.get, k, [])
asked (Call.remove k) = (Mode.delete, k, [])

-- The lines up to the first interrupt ask for the calls, one each.
abbrev pub Types : Host → List (Bytes × Bool) → List (Call Bytes Bytes) → Type 0
Types host [] [] = Unit {0}
Types host ((line, running) ∷ lines) (c ∷ cs) =
    ((name : Bytes) × (args : List Bytes) × (host.words line ≡ name ∷ args)
      × (command host.tolower name args ≡ some (asked c)))
    × elim running [ true ↦ Types host lines cs | false ↦ (cs ≡ []) ]
Types host _ _ = ⊥

abbrev pub AllFitCalls : List (Call Bytes Bytes) → Type 0
AllFitCalls [] = Unit {0}
AllFitCalls (c ∷ cs) = FitsCall c × AllFitCalls cs

nonempty {ℓ} : {A : Type ℓ} (x : A) (xs : List A) → ¬ (x ∷ xs ≡ [])
nonempty x xs h = cc

-- what a client is told of the reply to its call
abbrev pub said : Call Bytes Bytes → Reply Bytes → Bytes
said (Call.insert k v) (inserted b) = codes "INSERT " ++ k ++ codes " -> " ++ v ++ success_text b
said (Call.get k) (found o) = codes "GET " ++ k ++ value_text o
said (Call.remove k) (found o) = codes "DELETE " ++ k ++ value_text o
said _ _ = []

module _ ⦃key : Key Bytes⦄ where
  -- the replies of a dictionary, as they are told, and the dictionary that is left
  unfoldable pub transcript :
      (Bytes → Option Bytes) → List (Call Bytes Bytes) → List Output × (Bytes → Option Bytes)
  transcript d [] = ([], d)
  transcript d (c ∷ cs) =
      let (r, d₁) = answer d c in let (lines, d₂) = transcript d₁ cs in (out (said c r) ∷ lines, d₂)

-- what a segment of the server holds
abbrev pub segment_of : Server → Bytes → List Cell
segment_of s name = elim (s.segments name) [ none ↦ [] | some segment ↦ segment.cells ]

module _ (os : Os) ⦃key : Key Bytes⦄ where
  -- the steps of an exchange that delivered a reply
  Parts : ℕ → Server → Call Bytes Bytes → Reply Bytes → Server → Type 0
  Parts id s c rep s' =
      (msg : Message) × (r : Message) × (request id c ≡ ok (some msg))
      × (respond os s msg ≡ ok (some r, s'))
      × (reading c r ≡ rep)

  delivered-some :
      (c : Call Bytes Bytes) (o : Outcome) {rep : Reply Bytes} {i : ℕ} {s' : Server}
      → delivered os c o ≡ (some (rep, i), s')
      → (r : Message) × (o ≡ (some r, s')) × (reading c r ≡ rep)
  delivered-some c (none, s₁) h = cc
  delivered-some c (some r, s₁) h = (r, cc, cc)

  handled-some :
      (s : Server) (c : Call Bytes Bytes) (o : Option Message) {rep : Reply Bytes} {i : ℕ}
      {s' : Server}
      → handled os s c o ≡ ok (some (rep, i), s')
      → (msg : Message) × (r : Message) × (o ≡ some msg)
        × (respond os s msg ≡ ok (some r, s'))
        × (reading c r ≡ rep)
  handled-some s c none h = cc
  handled-some s c (some msg) h =
      let (o, run, e) = ok-parts (respond os s msg) (λ o. ok (delivered os c o)) h in
      let (r, e', told) = delivered-some c o (ok-injective e) in
      (msg, r, refl, run ∙ ap ok e', told)

  exchange-Parts :
      (id : ℕ) (s : Server) (c : Call Bytes Bytes) {rep : Reply Bytes} {i : ℕ} {s' : Server}
      → exchange os id s c ≡ ok (some (rep, i), s')
      → Parts id s c rep s'
  unfolding Parts
  exchange-Parts id s c h =
      let (o, run, e) = ok-parts (request id c) (handled os s c) h in
      let (msg, r, e', run', told) = handled-some s c o e in (msg, r, run ∙ ap ok e', run', told)

  module _ (host : Host) (id : ℕ) where
    abbrev print : Server → Mode → Bytes → Bytes → Message → Run (Round Server)
    print = print_response host id (respond os) segment_of

    -- what a round has printed for a reply
    abbrev told_round : Server → Call Bytes Bytes → Reply Bytes → Run (Round Server)
    told_round s c rep = ok (out (said c rep) ∷ [], s, none)

    -- A response is told as the client reads it.
    print-said :
        (s : Server) (c : Call Bytes Bytes) (r : Message) {rep : Reply Bytes}
        → reading c r ≡ rep
        → print s (asked c).0 (asked c).1 (asked c).2 (returned (some r)) ≡ told_round s c rep
    unfolding print_response get_line insert_line delete_line returned printed
    print-said s (Call.insert k v) r told = ap (told_round s (Call.insert k v)) told
    print-said s (Call.get k) r told = ap (told_round s (Call.get k)) told
    print-said s (Call.remove k) r told = ap (told_round s (Call.remove k)) told

    send_round-said :
        (s s' : Server) (c : Call Bytes Bytes) (rep : Reply Bytes)
        → Parts id s c rep s'
        → send_round host id (respond os) segment_of s (asked c) ≡ told_round s' c rep
    unfolding send_round send_msg Parts
    send_round-said s s' (Call.insert k v) rep (msg, r, made, run, told) =
        rw (made, ◌>>=◌, run) (print-said s' (Call.insert k v) r told)
    send_round-said s s' (Call.get k) rep (msg, r, made, run, told) =
        rw (made, ◌>>=◌, run) (print-said s' (Call.get k) r told)
    send_round-said s s' (Call.remove k) rep (msg, r, made, run, told) =
        rw (made, ◌>>=◌, run) (print-said s' (Call.remove k) r told)

    -- what is left of a round that was told the dictionary's reply
    record Told (s : Server) (c : Call Bytes Bytes) (s' : Server) : Type 0 where
      bindings : view s'.table ≡ (answer (view s.table) c).1
      valid : IsValid s'.table
      fits : AllFit (view s'.table)
      size : s'.table.size ≤ s.table.size + 1

    round-Told :
        (s : Server) (c : Call Bytes Bytes) (name : Bytes) (args : List Bytes)
        → command host.tolower name args ≡ some (asked c)
        → FitsCall c
        → IsValid s.table
        → AllFit (view s.table)
        → s.table.size < max_size
        → (s' : Server) × (round host id (respond os) segment_of s name args
            ≡ told_round s' c (answer (view s.table) c).0)
          × Told s c s'
    unfolding round
    round-Told s c name args known fc valid fits small =
        let ((o, s'), run, x) = exchange-Exchanged os id s c fc valid fits (omega arith) in
        let rep = (answer (view s.table) c).0 in
        let parts : Parts id s c rep s' =
          exchange-Parts id s c (run ∙ ap (λ o. ok (o, s')) x.reply) in
        (
          s',
          rw (known, round) (send_round-said s s' c rep parts),
          record { bindings = x.bindings; valid = x.valid; fits = x.fits; size = x.size },
        )

    -- Lines that, up to the first interrupt, ask for calls, with texts that fit the arrays of a message,
    -- typed to a client of a server whose table is valid and has only values that fit them, and does not
    -- get too large: the session ends with the status 0, has printed the replies of the dictionary of
    -- the bindings, and leaves the table valid, with the bindings of the dictionary.
    pub rounds-transcript :
        (lines : List (Bytes × Bool)) (cs : List (Call Bytes Bytes)) (s : Server)
        → Types host lines cs
        → AllFitCalls cs
        → IsValid s.table
        → AllFit (view s.table)
        → s.table.size + length cs ≤ max_size
        → Returns (rounds host id (respond os) segment_of s lines) λ r.
          (r.0 ≡ (transcript (view s.table) cs).0)
          × (r.1 ≡ pos 0)
          × (view r.2.table ≡ (transcript (view s.table) cs).1)
          × IsValid r.2.table
    unfolding rounds round transcript
    rounds-transcript [] [] s typed calls_fit valid fits small =
        (([], pos 0, s), refl, (refl, refl, refl, valid))
    rounds-transcript [] (c ∷ cs) s typed calls_fit valid fits small = absurd typed
    rounds-transcript (line ∷ lines) [] s typed calls_fit valid fits small = absurd typed
    rounds-transcript ((line, false) ∷ lines) (c ∷ d ∷ cs) s (asks, last) calls_fit valid fits
          small =
        absurd (nonempty d cs last)
    rounds-transcript ((line, false) ∷ lines) (c ∷ []) s ((name, args, split, known), last)
          (fc, calls_fit) valid fits small =
        let (s', run, x) = round-Told s c name args known fc valid fits (omega arith) in
        (
          (out (said c (answer (view s.table) c).0) ∷ [], pos 0, s'),
          rw (split, rounds, run, ◌>>=◌),
          (refl, refl, x.bindings, x.valid),
        )
    rounds-transcript ((line, true) ∷ lines) (c ∷ cs) s ((name, args, split, known), typed)
          (fc, calls_fit) valid fits small =
        let (s', run, x) = round-Told s c name args known fc valid fits (omega arith) in
        let (rest, run', (e, zero_status, d, v)) =
          rounds-transcript lines cs s' typed calls_fit x.valid x.fits (omega (arith, x.size)) in
        (
          (out (said c (answer (view s.table) c).0) ∷ rest.0, rest.1, rest.2),
          rw (split, rounds, run, ◌>>=◌, run'),
          (rw (e, x.bindings), zero_status, rw (d, x.bindings), v),
        )
