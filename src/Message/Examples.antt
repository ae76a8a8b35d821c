-- ===== src/Message/Examples.antt =====
-- The theorem on the assignment of messages, for a response that overwrites a request.
use shared_memory_hashtable.Common.{◌≡◌, refl, true, false, [], ◌∷◌, ok}
use shared_memory_hashtable.Message.{Mode, Message, assign, move_assign}
use shared_memory_hashtable.Message.Copies.{assign_lem}

abbrev request : Message
request = record {
  mode = Mode.get;
  success = false;
  ready = true;
  client_id = 7;
  key = 97 ∷ 0 ∷ [];
  payload = 1 ∷ [];
}

abbrev answer : Message
answer = record {
  mode = Mode.response;
  success = true;
  ready = false;
  client_id = 8;
  key = 98 ∷ 0 ∷ [];
  payload = 2 ∷ [];
}

overwritten : (assign request answer ≡ ok answer) × (move_assign request answer ≡ answer)
overwritten = assign_lem request answer refl refl
