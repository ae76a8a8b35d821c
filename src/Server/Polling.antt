-- ===== src/Server/Polling.antt =====
-- What `receiveMsg` (server.cpp) asks of a message that it takes.
use shared_memory_hashtable.Common.{Bool, true, false}
use shared_memory_hashtable.Message.{Mode, Message}

-- `msg.mode == Message::EXIT`
abbrev pub is_exit : Message → Bool
is_exit m = elim (m.mode) [ Mode.exit ↦ true | _ ↦ false ]
