-- ===== src/Message.antt =====
-- Messages (message.h) and the texts in their byte arrays (server.cpp and client.cpp,
-- `uint8_to_string`, and the calls of `memcpy`). Bytes and characters are their codes.
pub mod Text
pub mod Copies
mod Examples
use shared_memory_hashtable.Common.{
  ℕ, zero, suc, Bool, true, false, List, [], ◌∷◌, ◌++◌, if◌then◌else◌, ◌==◌, Run, ok, fault,
  out_of_range, ◌>>=◌,
}

abbrev pub Bytes : Type 0
Bytes = List ℕ

abbrev pub max_length_key : ℕ
max_length_key = 128

abbrev pub max_length_val : ℕ
max_length_val = 1024

pub data Mode : Type 0 where
  default : Mode
  get : Mode
  insert : Mode
  read_bucket : Mode
  close_shm : Mode
  delete : Mode
  response : Mode
  exit : Mode

pub record Message : Type 0 where
  pub mode : Mode
  pub success : Bool
  pub ready : Bool
  pub client_id : ℕ
  pub key : Bytes
  pub payload : Bytes  -- `data`

-- an array of `n` zero bytes
unfoldable pub zeros : ℕ → Bytes
zeros zero = []
zeros (suc n) = 0 ∷ zeros n

-- `Message()`
unfoldable pub new_message : Message
unfolding zeros
new_message = record {
  mode = Mode.default;
  success = false;
  ready = false;
  client_id = 0;
  key = zeros max_length_key;
  payload = zeros max_length_val;
}

-- `Message(mode_t)`
unfoldable pub message_of : Mode → Message
unfolding new_message
message_of m = record new_message { mode = m }

-- `std::copy` of a whole array to the start of another. It would write past the end of a shorter one.
pub copy_array : Bytes → Bytes → Run Bytes
copy_array source [] = elim source [ [] ↦ ok [] | _ ∷ _ ↦ fault out_of_range ]
copy_array [] (x ∷ target) = ok (x ∷ target)
copy_array (s ∷ source) (x ∷ target) = copy_array source target >>= λ r. ok (s ∷ r)

-- `ready.test_and_set()` and `ready.clear()`
unfoldable pub test_and_set : Bool → Bool
test_and_set flag = true

unfoldable pub clear_flag : Bool → Bool
clear_flag flag = false

-- the copy constructor and the move constructor: the array members are copied by either
pub copied_message : Message → Message
copied_message other = record {
  mode = other.mode;
  success = other.success;
  ready = other.ready;
  client_id = other.client_id;
  key = other.key;
  payload = other.payload;
}

-- `operator=(const Message&)`
pub assign : Message → Message → Run Message
unfolding copy_array test_and_set clear_flag
assign this other = do
  key ← copy_array other.key this.key
  payload ← copy_array other.payload this.payload
  ok (record {
    mode = other.mode;
    success = other.success;
    ready = if other.ready then test_and_set this.ready else clear_flag this.ready;
    client_id = other.client_id;
    key = key;
    payload = payload;
  })

-- `operator=(Message&&)`: an array is moved by a copy
pub move_assign : Message → Message → Message
unfolding test_and_set clear_flag
move_assign this other = record {
  mode = other.mode;
  success = other.success;
  ready = if other.ready then test_and_set this.ready else clear_flag this.ready;
  client_id = other.client_id;
  key = other.key;
  payload = other.payload;
}

-- `memcpy(array.data(), source, n)` for the `n` bytes of the source. It would write past the end of
-- a shorter array.
unfoldable pub copy_bytes : Bytes → Bytes → Run Bytes
copy_bytes array [] = ok array
copy_bytes [] (x ∷ source) = fault out_of_range
copy_bytes (a ∷ array) (x ∷ source) = copy_bytes array source >>= λ r. ok (x ∷ r)

unfoldable pub uint8_to_string : Bytes → Bytes
uint8_to_string [] = []
uint8_to_string (x ∷ v) = let rest = uint8_to_string v in if x == 0 then [] else x ∷ rest

-- the `strlen(s) + 1` bytes at `s`: up to the first terminator, and the terminator
pub c_str : Bytes → Bytes
unfolding uint8_to_string
c_str s = uint8_to_string s ++ 0 ∷ []
