-- ===== src/Server/Printing.antt =====
-- What the server prints (server.cpp, `uint8_to_hex_string`, `operator<<` and the loop of `main`).
-- Numbers are printed in decimal by the standard library, which is a parameter.
use shared_memory_hashtable.Common.{
  ℕ, ◌+◌, ◌-◌, ◌*◌, ◌/◌, ◌%◌, ◌<◌, ◌≡◌, refl, Bool, true, false, Bool-cases, inl, inr, List, [],
  ◌∷◌, ◌++◌, if◌then◌else◌, ltb, ◌==◌, arith, codes, Run, ok, ◌>>=◌, ap₂, pos, length,
}
use shared_memory_hashtable.Message.{Bytes, Mode, Message, uint8_to_string}
use shared_memory_hashtable.CircularBuffer.{CircularBuffer, print_buffer}
use shared_memory_hashtable.HashTable.{HashTable, Ratio, load_factor, size_of, capacity_of}

-- `std::hex` with a width of two and the fill character 0
hex_digit : ℕ → ℕ
hex_digit n = if ltb n 10 then 48 + n else 87 + n

pub uint8_to_hex_string : Bytes → Bytes
uint8_to_hex_string [] = []
uint8_to_hex_string (x ∷ v) =
    let rest = uint8_to_hex_string v in
    if x == 0 then [] else hex_digit (x / 16) ∷ hex_digit (x % 16) ∷ rest

-- the byte of two digits
digit_value : ℕ → ℕ
digit_value c = if ltb c 58 then c - 48 else c - 87

pub from_hex : Bytes → Bytes
from_hex [] = []
from_hex (a ∷ []) = []
from_hex (a ∷ b ∷ s) = (16 * digit_value a + digit_value b) ∷ from_hex s

abbrev pub AllBytes : Bytes → Type 0
AllBytes [] = Unit {0}
AllBytes (x ∷ v) = (x < 256) × AllBytes v

hex_digit-value : (n : ℕ) → n < 16 → digit_value (hex_digit n) ≡ n
unfolding hex_digit digit_value
hex_digit-value n h = ground arith

-- The hexadecimal text of an array of bytes spells the text that `uint8_to_string` reads out of it.
pub from_hex-uint8_to_hex_string :
    (v : Bytes) → AllBytes v → from_hex (uint8_to_hex_string v) ≡ uint8_to_string v
unfolding from_hex uint8_to_hex_string uint8_to_string
from_hex-uint8_to_hex_string [] h = refl
from_hex-uint8_to_hex_string (x ∷ v) (hx, hv) = elim (Bool-cases (x == 0)) [
  | inl stop ↦ rw stop
  | inr more ↦
      let byte : 16 * digit_value (hex_digit (x / 16)) + digit_value (hex_digit (x % 16)) ≡ x =
        rw (hex_digit-value (x / 16) (omega arith), hex_digit-value (x % 16) (omega arith))
          (omega arith) in
      rw more (ap₂ (λ y s. y ∷ s) byte (from_hex-uint8_to_hex_string v hv))
]

abbrev pub mode_name : Mode → Bytes
mode_name Mode.get = codes "(GET)"
mode_name Mode.insert = codes "(INSERT)"
mode_name Mode.read_bucket = codes "(READ_BUCKET)"
mode_name Mode.close_shm = codes "(CLOSE_SHM)"
mode_name Mode.delete = codes "(DELETE)"
mode_name Mode.response = codes "(RESPONSE)"
mode_name Mode.default = codes "(DEFAULT)"
mode_name Mode.exit = codes "(DEFAULT)"

abbrev pub truth : Bool → Bytes
truth true = codes "1"
truth false = codes "0"

module _ (numeral : ℕ → Bytes) where
  -- `operator<<` of a message
  pub print_message : Message → Bytes
  unfolding uint8_to_hex_string
  print_message m =
      mode_name m.mode
      ++ codes " KeyLength: "
      ++ numeral (length m.key)
      ++ codes " Key (Hex): "
      ++ uint8_to_hex_string m.key
      ++ codes " DataLength: "
      ++ numeral (length m.payload)
      ++ codes " Data (Hex): "
      ++ uint8_to_hex_string m.payload
      ++ codes " PID: "
      ++ numeral m.client_id
      ++ codes " Success: "
      ++ truth m.success
      ++ codes " Ready: "
      ++ truth m.ready
      ++ 10 ∷ []

  pub print_messages : List Message → Bytes
  unfolding print_message
  print_messages [] = []
  print_messages (m ∷ ms) = print_message m ++ print_messages ms

  -- One round of the loop of `main`: what is printed of the buffer, the response slots and the table.
  -- A load factor is printed by `ratio`.
  pub report :
      (Ratio → Bytes)
      → CircularBuffer Message
      → List Message
      → HashTable Bytes Bytes
      → Run (Bytes × CircularBuffer Message)
  unfolding print_messages
  report ratio msgs responses table = do
    (printed, msgs') ← print_buffer numeral print_message msgs
    let line = codes "---------------" ++ 10 ∷ []
    ok (
      codes "CircularBuffer:"
          ++ 10 ∷ printed
          ++ line
          ++ codes "Responses:"
          ++ 10 ∷ print_messages responses
          ++ line
          ++ codes "HashTable:"
          ++ 10 ∷ codes "Size: "
          ++ numeral (size_of table)
          ++ codes "; Capacity: "
          ++ numeral (capacity_of table)
          ++ codes "; Load Factor: "
          ++ ratio (load_factor table (pos 0))
          ++ 10 ∷ line,
      msgs',
    )
