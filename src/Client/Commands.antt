-- ===== src/Client/Commands.antt =====
-- Which commands the client accepts, and what `sendMsg` makes of them (client.cpp).
use shared_memory_hashtable.Common.{
  ℕ, ◌≤◌, ◌<◌, ◌≡◌, refl, false, inl, inr, Bool-cases, ◌||◌, Option, none, some, List, [], ◌∷◌, map,
  length, ltb, arith, ok, fault, out_of_range, ◌>>=◌, Returns,
}
use shared_memory_hashtable.Message.{
  Bytes, Mode, Message, new_message, copy_bytes, c_str, uint8_to_string, max_length_key,
  max_length_val,
}
use shared_memory_hashtable.Message.Text.{
  IsText, copy_bytes-uint8_to_string, copy_bytes-overflow, length-key, length-payload,
  empty_payload,
}
use shared_memory_hashtable.Client.{
  insert_name, get_name, read_bucket_name, delete_name, same_text, command, insert_args, key_args,
  prepare,
}

-- What a command asks for: an insertion, or a message with a key alone.
data Asks : Mode → Bytes → Bytes → Type 0 where
  asks_insert :
      {k v : Bytes} → length k ≤ max_length_key → length v ≤ max_length_val → Asks Mode.insert k v
  asks_get : {k : Bytes} → length k ≤ max_length_key → Asks Mode.get k []
  asks_read_bucket : {k : Bytes} → length k ≤ max_length_key → Asks Mode.read_bucket k []
  asks_delete : {k : Bytes} → length k ≤ max_length_key → Asks Mode.delete k []

AsksAll : Option (Mode × Bytes × Bytes) → Type 0
AsksAll none = Unit {0}
AsksAll (some (m, k, v)) = Asks m k v

insert_args-AsksAll : (args : List Bytes) → AsksAll (insert_args args)
unfolding insert_args AsksAll
insert_args-AsksAll [] = tt
insert_args-AsksAll (k ∷ []) = tt
insert_args-AsksAll (k ∷ v ∷ []) =
    elim (Bool-cases (ltb max_length_key (length k) || ltb max_length_val (length v))) [
      | inl long ↦ rw long tt
      | inr short ↦ rw short (asks_insert (ground arith) (ground arith))
    ]
insert_args-AsksAll (k ∷ v ∷ w ∷ args) = tt

key_args-AsksAll :
    (m : Mode) (args : List Bytes)
    → ((k : Bytes) → length k ≤ max_length_key → Asks m k [])
    → AsksAll (key_args m args)
unfolding key_args AsksAll
key_args-AsksAll m [] asks = tt
key_args-AsksAll m (k ∷ args) asks = elim (Bool-cases (ltb max_length_key (length k))) [
  | inl long ↦ rw long tt
  | inr short ↦ rw short (asks k (ground arith))
]

command-AsksAll :
    (tolower : ℕ → ℕ) (name : Bytes) (args : List Bytes) → AsksAll (command tolower name args)
unfolding command AsksAll
command-AsksAll tolower name args =
    let word = map tolower name in
    elim (Bool-cases (same_text word insert_name)) [
      | inl here ↦ rw here (insert_args-AsksAll args)
      | inr e₁ ↦ elim (Bool-cases (same_text word get_name)) [
        | inl here ↦ rw (e₁, here) (key_args-AsksAll Mode.get args (λ k. asks_get))
        | inr e₂ ↦ elim (Bool-cases (same_text word read_bucket_name)) [
          | inl here ↦
              rw (e₁, e₂, here) (key_args-AsksAll Mode.read_bucket args (λ k. asks_read_bucket))
          | inr e₃ ↦ elim (Bool-cases (same_text word delete_name)) [
            | inl here ↦
                rw (e₁, e₂, e₃, here) (key_args-AsksAll Mode.delete args (λ k. asks_delete))
            | inr e₄ ↦ rw (e₁, e₂, e₃, e₄) tt
          ]
        ]
      ]
    ]

accepted :
    (tolower : ℕ → ℕ) (name : Bytes) (args : List Bytes) {m : Mode} {k v : Bytes}
    → command tolower name args ≡ some (m, k, v)
    → Asks m k v
unfolding AsksAll
accepted tolower name args h = rw h at (command-AsksAll tolower name args)

-- the message of an accepted command, as the server reads it
pub record Carries (id : ℕ) (m : Mode) (k v : Bytes) (o : Option Message) : Type 0 where
  pub message : Message
  pub made : o ≡ some message
  pub same_mode : message.mode ≡ m
  pub key_text : uint8_to_string message.key ≡ k
  pub payload_text : uint8_to_string message.payload ≡ v
  pub process : message.client_id ≡ id

keyed-Carries :
    (id : ℕ) (m : Mode) (k : Bytes)
    → IsText k
    → length k < max_length_key
    → Returns
        (copy_bytes new_message.key (c_str k) >>= λ a.
          ok (some (record new_message { client_id = id; mode = m; key = a })))
        (Carries id m k [])
keyed-Carries id m k text lt =
    let (a, run, (same, _)) =
      copy_bytes-uint8_to_string new_message.key k text (omega (arith, lt, length-key)) in
    let message : Message = record new_message { client_id = id; mode = m; key = a } in
    (
      some message,
      rw run,
      record {
        message = message;
        made = refl;
        same_mode = refl;
        key_text = same;
        payload_text = empty_payload;
        process = refl;
      },
    )

asked-Carries :
    (id : ℕ) (m : Mode) (k v : Bytes)
    → Asks m k v
    → IsText k
    → IsText v
    → length k < max_length_key
    → length v < max_length_val
    → Returns (prepare id m k v) (Carries id m k v)
unfolding prepare
asked-Carries id _ k v (asks_insert _ _) kt vt kl vl =
    let (a, run, (same, _)) =
      copy_bytes-uint8_to_string new_message.key k kt (omega (arith, kl, length-key)) in
    let (b, run', (same', _)) =
      copy_bytes-uint8_to_string new_message.payload v vt (omega (arith, vl, length-payload)) in
    let message : Message = record new_message {
      client_id = id;
      mode = Mode.insert;
      key = a;
      payload = b;
    } in
    (
      some message,
      rw (run, ◌>>=◌, run'),
      record {
        message = message;
        made = refl;
        same_mode = refl;
        key_text = same;
        payload_text = same';
        process = refl;
      },
    )
asked-Carries id _ k _ (asks_get _) kt vt kl vl = keyed-Carries id Mode.get k kt kl
asked-Carries id _ k _ (asks_read_bucket _) kt vt kl vl = keyed-Carries id Mode.read_bucket k kt kl
asked-Carries id _ k _ (asks_delete _) kt vt kl vl = keyed-Carries id Mode.delete k kt kl

-- For every line that the client accepts, whose key and value have no zero byte and are shorter than
-- the arrays of a message, `sendMsg` makes a message of which the server reads the mode, the key, the
-- value and the process.
pub command-prepare :
    (tolower : ℕ → ℕ) (name : Bytes) (args : List Bytes) (id : ℕ) {m : Mode} {k v : Bytes}
    → command tolower name args ≡ some (m, k, v)
    → IsText k
    → IsText v
    → length k < max_length_key
    → length v < max_length_val
    → Returns (prepare id m k v) (Carries id m k v)
command-prepare tolower name args id {m} {k} {v} h =
    asked-Carries id m k v (accepted tolower name args h)

asked-overflow :
    (id : ℕ) (m : Mode) (k v : Bytes)
    → Asks m k v
    → IsText k
    → length k ≡ max_length_key
    → prepare id m k v ≡ fault out_of_range
unfolding prepare
asked-overflow id m k v asks text long =
    let over = copy_bytes-overflow new_message.key k text (omega (arith, long, length-key)) in
    go asks over
  where
    go :
        {m : Mode} {k v : Bytes}
        → Asks m k v
        → copy_bytes new_message.key (c_str k) ≡ fault out_of_range
        → prepare id m k v ≡ fault out_of_range
    go (asks_insert _ _) over = rw over
    go (asks_get _) over = rw over
    go (asks_read_bucket _) over = rw over
    go (asks_delete _) over = rw over

-- the commands with a key: their names, their arguments, and the value that is sent
abbrev pub name_of : Mode → Bytes
name_of Mode.insert = insert_name
name_of Mode.get = get_name
name_of Mode.read_bucket = read_bucket_name
name_of Mode.delete = delete_name
name_of _ = []

abbrev pub args_of : Mode → Bytes → Bytes → List Bytes
args_of Mode.insert k v = k ∷ v ∷ []
args_of _ k v = k ∷ []

abbrev pub value_of : Mode → Bytes → Bytes
value_of Mode.insert v = v
value_of _ v = []

-- On a key of the length of the array, the value not longer than its array: the client accepts the
-- command.
long_key-command :
    (tolower : ℕ → ℕ) (name : Bytes) (m : Mode) (k v : Bytes)
    → 1 ≤ length (name_of m)
    → map tolower name ≡ name_of m
    → length k ≡ max_length_key
    → length v ≤ max_length_val
    → command tolower name (args_of m k v) ≡ some (m, k, value_of m v)
unfolding command same_text insert_args key_args
long_key-command tolower name m k v keyed named long short =
    let not_longer : ltb max_length_key (length k) ≡ false = ground arith in
    let not_longer' : ltb max_length_val (length v) ≡ false = ground arith in
    by_mode m keyed named not_longer not_longer'
  where
    by_mode :
        (m : Mode)
        → 1 ≤ length (name_of m)
        → map tolower name ≡ name_of m
        → ltb max_length_key (length k) ≡ false
        → ltb max_length_val (length v) ≡ false
        → command tolower name (args_of m k v) ≡ some (m, k, value_of m v)
    by_mode Mode.insert keyed named fits fits' = rw (named, fits, fits')
    by_mode Mode.get keyed named fits fits' = rw (named, fits)
    by_mode Mode.read_bucket keyed named fits fits' = rw (named, fits)
    by_mode Mode.delete keyed named fits fits' = rw (named, fits)
    by_mode Mode.default keyed named fits fits' = absurd (omega arith)
    by_mode Mode.close_shm keyed named fits fits' = absurd (omega arith)
    by_mode Mode.response keyed named fits fits' = absurd (omega arith)
    by_mode Mode.exit keyed named fits fits' = absurd (omega arith)

-- For each command with a key: when the key has no zero byte and is as long as the array of a message,
-- and the value is at most as long as its array, the client accepts the command, and `sendMsg` then
-- copies the key past the end of the array.
pub prepare-overflow :
    (tolower : ℕ → ℕ) (name : Bytes) (id : ℕ) (m : Mode) (k v : Bytes)
    → 1 ≤ length (name_of m)
    → map tolower name ≡ name_of m
    → IsText k
    → length k ≡ max_length_key
    → length v ≤ max_length_val
    → (command tolower name (args_of m k v) ≡ some (m, k, value_of m v))
      × (prepare id m k (value_of m v) ≡ fault out_of_range)
prepare-overflow tolower name id m k v keyed named text long short =
    let accepts = long_key-command tolower name m k v keyed named long short in
    (
      accepts,
      asked-overflow id m k (value_of m v) (accepted tolower name (args_of m k v) accepts) text
          long,
    )
