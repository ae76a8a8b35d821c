-- ===== src/Server/Walkthrough.antt =====
-- The theorems on a session, on the handover of a response and on the hexadecimal
-- text of an array, for the server of `Examples`.
use shared_memory_hashtable.Common.{
  ℕ, ◌+◌, ◌≡◌, refl, Bool, true, false, some, List, [], ◌∷◌, ◌++◌, if◌then◌else◌, ◌==◌, leb, ◌&&◌,
  codes, arith, ok, pos, Returns,
}
use shared_memory_hashtable.HashTable.Buckets.{IsValid, view}
use shared_memory_hashtable.HashTable.Dictionary.{Call}
use shared_memory_hashtable.Message.{Bytes, Mode, Message, new_message, uint8_to_string}
use shared_memory_hashtable.Client.{command, same_text, insert_args, key_args}
use shared_memory_hashtable.Client.Session.{Host, returned, rounds}
use shared_memory_hashtable.Server.{respond}
use shared_memory_hashtable.Server.Printing.{
  from_hex, uint8_to_hex_string, from_hex-uint8_to_hex_string,
}
use shared_memory_hashtable.Server.Delivery.{
  is_free, answers, fill, reset, deliver, receive, handover,
}
use shared_memory_hashtable.Server.Sessions.{Types, transcript, segment_of, rounds-transcript}
use shared_memory_hashtable.Server.Examples.{
  text_key, os, fresh, fresh-IsEmpty, fresh-fits, key_fits, value_fits,
}

-- the words between single spaces, with what was read of the current one
words_from : Bytes → Bytes → List Bytes
words_from word [] = word ∷ []
words_from word (x ∷ s) = elim (x == 32) [
  | true ↦ word ∷ words_from [] s
  | false ↦ words_from (word ++ x ∷ []) s
]

abbrev host : Host
host = record {
  tolower = λ c. if leb 65 c && leb c 90 then c + 32 else c;
  words = λ line. elim line [ [] ↦ [] | x ∷ s ↦ words_from (x ∷ []) s ];
  stoul = λ _. some 1;
  shm_open = λ _. true;
  mmap = λ _ _. true;
}

-- the third line is followed by an interrupt
abbrev lines : List (Bytes × Bool)
lines =
    (codes "insert ab x", true)
    ∷ (codes "GET ab", true)
    ∷ (codes "Delete ab", false)
    ∷ (codes "get ab", true)
    ∷ []

abbrev ab : Bytes
ab = 97 ∷ 98 ∷ []

abbrev lines_calls : List (Call Bytes Bytes)
lines_calls = Call.insert ab (120 ∷ []) ∷ Call.get ab ∷ Call.remove ab ∷ []

lines_typed : Types host lines lines_calls
unfolding words_from command same_text insert_args key_args
lines_typed = (
  (codes "insert", ab ∷ (120 ∷ []) ∷ [], refl, refl),
  ((codes "GET", ab ∷ [], refl, refl), ((codes "Delete", ab ∷ [], refl, refl), refl)),
)

rounds-transcript_example : Returns (rounds host 11 (respond os) segment_of fresh lines) λ r.
    (r.0 ≡ (transcript (view fresh.table) lines_calls).0)
    × (r.1 ≡ pos 0)
    × (view r.2.table ≡ (transcript (view fresh.table) lines_calls).1)
    × IsValid r.2.table
rounds-transcript_example =
    rounds-transcript os host 11 lines lines_calls fresh lines_typed
      ((key_fits, value_fits), (key_fits, (key_fits, tt))) fresh-IsEmpty.0 fresh-fits
      (rw fresh-IsEmpty.1 (omega arith))

-- a slot that holds a response to process 12, and free again, and a response to process 11
abbrev taken_slot : Message
taken_slot = record new_message { mode = Mode.response; ready = true; client_id = 12 }

abbrev free_slot : Message
free_slot = record new_message { mode = Mode.response }

abbrev response : Message
response = record new_message { mode = Mode.response; success = true; client_id = 11; key = ab }

slots_lem :
    (is_free taken_slot ≡ false)
    × (is_free free_slot ≡ true)
    × (answers 11 taken_slot ≡ false)
    × (answers 11 free_slot ≡ false)
unfolding is_free answers new_message
slots_lem = (refl, refl, refl, refl)

handover_example :
    (deliver 0 (taken_slot ∷ free_slot ∷ []) response ≡ ok (some (fill free_slot response)))
    × (is_free (fill free_slot response) ≡ false)
    × ((c : ℕ) → answers c (fill free_slot response) ≡ (c == 11))
    × (receive 11 0 (taken_slot ∷ free_slot ∷ fill free_slot response ∷ [])
        ≡ ok (some (returned (some response), reset (fill free_slot response))))
    × (is_free (reset (fill free_slot response)) ≡ true)
handover_example =
    handover free_slot response (taken_slot ∷ []) [] (taken_slot ∷ free_slot ∷ []) []
      (slots_lem.0, tt) slots_lem.1 (slots_lem.2, (slots_lem.3, tt))

hex_read_back :
    from_hex (uint8_to_hex_string (171 ∷ 5 ∷ 0 ∷ 7 ∷ [])) ≡ uint8_to_string (171 ∷ 5 ∷ 0 ∷ 7 ∷ [])
hex_read_back =
    from_hex-uint8_to_hex_string (171 ∷ 5 ∷ 0 ∷ 7 ∷ [])
      (omega arith, (omega arith, (omega arith, (omega arith, tt))))
