-- ===== src/Client/Examples.antt =====
-- The theorems on commands, and some lines with their commands (client.cpp).
use shared_memory_hashtable.Common.{
  ℕ, zero, suc, ◌≡◌, refl, none, some, [], ◌∷◌, length, arith, fault, out_of_range, Returns,
}
use shared_memory_hashtable.Message.{Bytes, Mode}
use shared_memory_hashtable.Message.Text.{IsText}
use shared_memory_hashtable.Client.{
  same_text, command, insert_args, key_args, insert_name, get_name, prepare,
}
use shared_memory_hashtable.Client.Commands.{Carries, command-prepare, prepare-overflow}

abbrev key : Bytes
key = 97 ∷ 98 ∷ []

abbrev value : Bytes
value = 120 ∷ []

letters : ℕ → Bytes
letters zero = []
letters (suc n) = 97 ∷ letters n

length-letters : (n : ℕ) → length (letters n) ≡ n
unfolding letters
length-letters zero = refl
length-letters (suc n) = omega (arith, length-letters n)

abbrev long_key : Bytes
long_key = letters 128

letters-IsText : (n : ℕ) → IsText (letters n)
unfolding letters
letters-IsText zero = tt
letters-IsText (suc n) = ((λ e. omega arith), letters-IsText n)

insert_line : command (λ c. c) insert_name (key ∷ value ∷ []) ≡ some (Mode.insert, key, value)
unfolding command same_text insert_args
insert_line = refl

missing_value : command (λ c. c) insert_name (key ∷ []) ≡ none
unfolding command same_text insert_args
missing_value = refl

long_line : command (λ c. c) get_name (long_key ∷ []) ≡ some (Mode.get, long_key, [])
unfolding command same_text key_args
long_line = rw (length-letters 128)

command-prepare_example :
    Returns (prepare 11 Mode.insert key value) (Carries 11 Mode.insert key value)
command-prepare_example =
    command-prepare (λ c. c) insert_name (key ∷ value ∷ []) 11 insert_line
      ((λ e. omega arith), ((λ e. omega arith), tt)) ((λ e. omega arith), tt) (omega arith)
      (omega arith)

prepare-overflow_example :
    (command (λ c. c) get_name (long_key ∷ []) ≡ some (Mode.get, long_key, []))
    × (prepare 11 Mode.get long_key [] ≡ fault out_of_range)
prepare-overflow_example =
    prepare-overflow (λ c. c) get_name 11 Mode.get long_key [] (omega arith) refl
      (letters-IsText 128) (length-letters 128) (omega arith)
