-- ===== src/Server/Exchange.antt =====
-- One request and its response: the message that a client makes (client.cpp, `sendMsg`), what a server
-- thread does with it (server.cpp, `respond`), and what the client reads.
use shared_memory_hashtable.Common.{
  ℕ, ◌≤◌, ◌<◌, ◌≡◌, refl, Bool, true, false, Option, none, some, [], ◌∷◌, length, arith, Run, ok,
  ◌>>=◌, Returns,
}
use shared_memory_hashtable.HashTable.{HashTable}
use shared_memory_hashtable.HashTable
use shared_memory_hashtable.HashTable.Keys.{Key}
use shared_memory_hashtable.HashTable.Buckets.{IsValid, view}
use shared_memory_hashtable.HashTable.Operations.{get-view}
use shared_memory_hashtable.HashTable.Dictionary.{Call, Reply, inserted, found}
use shared_memory_hashtable.Message.{
  Bytes, Mode, Message, new_message, copy_bytes, c_str, uint8_to_string, max_length_key,
  max_length_val,
}
use shared_memory_hashtable.Message.Text.{
  IsText, copy_bytes-uint8_to_string, length-key, length-payload,
}
use shared_memory_hashtable.Client.{prepare, printed}
use shared_memory_hashtable.Server.{
  Os, Server, Outcome, respond, found_response, inserted_response, clear_first, serve,
}

-- a text that an array of `n` bytes holds with its terminator
abbrev pub Fits : ℕ → Bytes → Type 0
Fits n s = IsText s × (length s < n)

abbrev pub FitsCall : Call Bytes Bytes → Type 0
FitsCall (Call.insert k v) = Fits max_length_key k × Fits max_length_val v
FitsCall (Call.get k) = Fits max_length_key k
FitsCall (Call.remove k) = Fits max_length_key k

-- the message of a call
abbrev pub request : ℕ → Call Bytes Bytes → Run (Option Message)
request id (Call.insert k v) = prepare id Mode.insert k v
request id (Call.get k) = prepare id Mode.get k []
request id (Call.remove k) = prepare id Mode.delete k []

-- what the client takes from the response to a call
abbrev pub reading : Call Bytes Bytes → Message → Reply Bytes
reading (Call.insert k v) r = inserted r.success
reading (Call.get k) r = found (printed r)
reading (Call.remove k) r = found (printed r)

module _ (os : Os) ⦃key : Key Bytes⦄ where
  abbrev pub delivered : Call Bytes Bytes → Outcome → Option (Reply Bytes × ℕ) × Server
  delivered c (none, s) = (none, s)
  delivered c (some r, s) = (some (reading c r, r.client_id), s)

  abbrev pub handled :
      Server → Call Bytes Bytes → Option Message → Run (Option (Reply Bytes × ℕ) × Server)
  handled s c none = ok (none, s)
  handled s c (some msg) = respond os s msg >>= λ o. ok (delivered c o)

  -- A call by process `id`: its message, what the server does with it, and the reading of the
  -- response, with the process that the response is for.
  abbrev pub exchange : ℕ → Server → Call Bytes Bytes → Run (Option (Reply Bytes × ℕ) × Server)
  exchange id s c = request id c >>= handled s c

cleared : (v : Bytes) → 1 ≤ length v → Returns (clear_first v) λ _. Unit {0}
unfolding clear_first
cleared [] h = absurd (omega arith)
cleared (x ∷ v) h = (0 ∷ v, refl, tt)

first_byte : (v : Bytes) → 1 ≤ length v → Returns (copy_bytes v (1 ∷ [])) λ _. Unit {0}
unfolding copy_bytes
first_byte [] h = absurd (omega arith)
first_byte (x ∷ v) h = (1 ∷ v, refl, tt)

-- The response to a search is read as the value that was found.
found_response-printed :
    (r : Message) (o : Option Bytes)
    → ((v : Bytes) → o ≡ some v → Fits max_length_val v)
    → length r.payload ≡ max_length_val
    → Returns (found_response r o) λ a. (printed a ≡ o) × (a.client_id ≡ r.client_id)
unfolding found_response printed
found_response-printed r (some v) fits long =
    let (text, lt) = fits v refl in
    let (d, run, (same, _)) = copy_bytes-uint8_to_string r.payload v text (omega (arith, long)) in
    (record r { payload = d; success = true }, rw run, (rw same, refl))
found_response-printed r none fits long =
    let (d, run, _) = cleared r.payload (omega (arith, long)) in
    (record r { payload = d; success = false }, rw run, (refl, refl))

inserted_response-success :
    (r : Message) (b : Bool)
    → length r.payload ≡ max_length_val
    → Returns (inserted_response r b) λ a. (a.success ≡ b) × (a.client_id ≡ r.client_id)
unfolding inserted_response
inserted_response-success r true long =
    let (d, run, _) = first_byte r.payload (omega (arith, long)) in
    (record r { payload = d; success = true }, rw run, (refl, refl))
inserted_response-success r false long =
    let (d, run, _) = cleared r.payload (omega (arith, long)) in
    (record r { payload = d; success = false }, rw run, (refl, refl))

-- the message in a mode, with these arrays
abbrev sent : ℕ → Mode → Bytes → Bytes → Message
sent id mode a b = record new_message { mode = mode; client_id = id; key = a; payload = b }

key_copied :
    (k : Bytes)
    → Fits max_length_key k
    → Returns (copy_bytes new_message.key (c_str k)) λ a. uint8_to_string a ≡ k
key_copied k fk =
    let (a, run, (same, _)) =
      copy_bytes-uint8_to_string new_message.key k fk.0 (omega (arith, fk.1, length-key)) in
    (a, run, same)

payload_copied :
    (v : Bytes)
    → Fits max_length_val v
    → Returns (copy_bytes new_message.payload (c_str v)) λ b. uint8_to_string b ≡ v
payload_copied v fv =
    let (b, run, (same, _)) =
      copy_bytes-uint8_to_string new_message.payload v fv.0 (omega (arith, fv.1, length-payload)) in
    (b, run, same)

module _ (os : Os) ⦃key : Key Bytes⦄ where
  -- A search is answered by the value that the key is bound to.
  pub get-exchange :
      (id : ℕ) (s : Server) (k : Bytes)
      → Fits max_length_key k
      → IsValid s.table
      → ((v : Bytes) → view s.table k ≡ some v → Fits max_length_val v)
      → exchange os id s (Call.get k) ≡ ok (some (found (view s.table k), id), s)
  unfolding prepare respond serve
  get-exchange id s k fk valid fits =
      let (a, run, same) = key_copied k fk in
      let response : Message = record new_message {
        mode = Mode.response;
        client_id = id;
        key = a;
      } in
      let (r, run', (shown, mine)) =
        found_response-printed response (view s.table k) fits length-payload in
      rw (run, ◌>>=◌, same, get-view k valid, ◌>>=◌, run') (rw (shown, mine))

  pub insert-exchange :
      (id : ℕ) (s : Server) (k v : Bytes) (r : Bool × HashTable Bytes Bytes)
      → Fits max_length_key k
      → Fits max_length_val v
      → HashTable.insert s.table k v ≡ ok r
      → exchange os id s (Call.insert k v) ≡ ok (some (inserted r.0, id), record s { table = r.1 })
  unfolding prepare respond serve
  insert-exchange id s k v r fk fv done =
      let (a, run, same) = key_copied k fk in
      let (b, run', same') = payload_copied v fv in
      let response : Message = record new_message {
        mode = Mode.response;
        client_id = id;
        key = a;
      } in
      let (m, run'', (told, mine)) = inserted_response-success response r.0 length-payload in
      rw (run, ◌>>=◌, run', ◌>>=◌, same, same', done, ◌>>=◌, run'') (rw (told, mine))

  pub remove-exchange :
      (id : ℕ) (s : Server) (k : Bytes) (r : Option Bytes × HashTable Bytes Bytes)
      → Fits max_length_key k
      → HashTable.remove s.table k ≡ ok r
      → ((v : Bytes) → r.0 ≡ some v → Fits max_length_val v)
      → exchange os id s (Call.remove k) ≡ ok (some (found r.0, id), record s { table = r.1 })
  unfolding prepare respond serve
  remove-exchange id s k r fk done fits =
      let (a, run, same) = key_copied k fk in
      let response : Message = record new_message {
        mode = Mode.response;
        client_id = id;
        key = a;
      } in
      let (m, run', (shown, mine)) = found_response-printed response r.0 fits length-payload in
      rw (run, ◌>>=◌, same, done, ◌>>=◌, run') (rw (shown, mine))
