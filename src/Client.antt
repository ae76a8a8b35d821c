-- ===== src/Client.antt =====
-- The client's side of an exchange (client.cpp): the commands that it accepts, the message that
-- `sendMsg` makes of one, and what it reads out of a response. `tolower` is the C library's.
pub mod Commands
pub mod Session
mod Examples
use shared_memory_hashtable.Common.{
  ℕ, zero, suc, ◌-◌, out_of_range, Bool, true, false, ◌&&◌, ◌||◌, not, Option, none, some, List, [],
  ◌∷◌, map, length, if◌then◌else◌, ltb, ◌==◌, Run, ok, fault, ◌>>=◌,
}
use shared_memory_hashtable.Message.{
  Bytes, Mode, Message, new_message, copy_bytes, c_str, uint8_to_string, max_length_key,
  max_length_val,
}

-- the first part of `sendMsg`: `none` where it throws `std::invalid_argument`
unfoldable pub prepare : ℕ → Mode → Bytes → Bytes → Run (Option Message)
prepare client_id mode key value =
    let msg : Message = record new_message { client_id = client_id } in
    let keyed : Mode → Run (Option Message) =
      λ m. copy_bytes msg.key (c_str key) >>= λ k. ok (some (record msg { mode = m; key = k })) in
    elim mode [
      | Mode.get ↦ keyed Mode.get
      | Mode.insert ↦ (do
        k ← copy_bytes msg.key (c_str key)
        v ← copy_bytes msg.payload (c_str value)
        ok (some (record msg { mode = Mode.insert; key = k; payload = v })))
      | Mode.read_bucket ↦ keyed Mode.read_bucket
      | Mode.close_shm ↦ keyed Mode.close_shm
      | Mode.delete ↦ keyed Mode.delete
      | Mode.exit ↦ ok (some msg)
      | Mode.default ↦ ok none
      | Mode.response ↦ ok none
    ]

-- whether two strings are equal
unfoldable pub same_text : Bytes → Bytes → Bool
same_text [] [] = true
same_text [] (y ∷ t) = false
same_text (x ∷ s) [] = false
same_text (x ∷ s) (y ∷ t) = (x == y) && same_text s t

-- the names of the commands, as characters
abbrev pub insert_name : Bytes
insert_name = 105 ∷ 110 ∷ 115 ∷ 101 ∷ 114 ∷ 116 ∷ []

abbrev pub get_name : Bytes
get_name = 103 ∷ 101 ∷ 116 ∷ []

abbrev pub read_bucket_name : Bytes
read_bucket_name = 114 ∷ 101 ∷ 97 ∷ 100 ∷ 95 ∷ 98 ∷ 117 ∷ 99 ∷ 107 ∷ 101 ∷ 116 ∷ []

abbrev pub delete_name : Bytes
delete_name = 100 ∷ 101 ∷ 108 ∷ 101 ∷ 116 ∷ 101 ∷ []

-- the arguments of `insert`
unfoldable pub insert_args : List Bytes → Option (Mode × Bytes × Bytes)
insert_args (k ∷ v ∷ []) =
    if ltb max_length_key (length k) || ltb max_length_val (length v)
    then none
    else some (Mode.insert, k, v)
insert_args _ = none

-- the argument of the other commands
unfoldable pub key_args : Mode → List Bytes → Option (Mode × Bytes × Bytes)
key_args mode [] = none
key_args mode (k ∷ _) = if ltb max_length_key (length k) then none else some (mode, k, [])

-- what the words of a line ask for: `none` where the code throws `std::invalid_argument`
unfoldable pub command : (ℕ → ℕ) → Bytes → List Bytes → Option (Mode × Bytes × Bytes)
unfolding same_text insert_args key_args
command tolower name args =
    let word = map tolower name in
    if same_text word insert_name
    then insert_args args
    else if same_text word get_name
    then key_args Mode.get args
    else if same_text word read_bucket_name
    then key_args Mode.read_bucket args
    else if same_text word delete_name
    then key_args Mode.delete args
    else none

-- the value that the client prints for a response to `get` or `delete`
unfoldable pub printed : Message → Option Bytes
printed r = if r.success then some (uint8_to_string r.payload) else none

-- whether the first `n` bytes are 0, as `*((uint64_t*)ptr) == 0` asks for 8
unfoldable pub zero_prefix : ℕ → Bytes → Bool
zero_prefix zero v = true
zero_prefix (suc n) [] = true
zero_prefix (suc n) (x ∷ v) = (x == 0) && zero_prefix n v

-- the size of a pair of arrays
abbrev pub cell_size : ℕ
cell_size = 1152

-- The loop that copies the pairs of a segment, of which `left` bytes are mapped. Behind the pairs that
-- were written its bytes are 0. Each round reads 8 bytes, and then a pair.
unfoldable pub read_cells : ℕ → List (Bytes × Bytes) → Run (List (Bytes × Bytes))
unfolding zero_prefix
read_cells left [] = if ltb left 8 then fault out_of_range else ok []
read_cells left ((k, v) ∷ cells) =
    let rest = read_cells (left - cell_size) cells in
    if ltb left 8
    then fault out_of_range
    else if zero_prefix 8 k
    then ok []
    else if ltb left cell_size
    then fault out_of_range
    else rest >>= λ r. ok ((k, v) ∷ r)

-- what the client prints of the pairs
unfoldable pub shown_cells : List (Bytes × Bytes) → List (Bytes × Bytes)
shown_cells cells = map (λ c. (uint8_to_string c.0, uint8_to_string c.1)) cells
