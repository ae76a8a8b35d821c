-- ===== src/Server/Delivery.antt =====
-- The handover of a response in its slot: the end of `respond` (server.cpp) and the end of `sendMsg`
-- (client.cpp), each under the mutex of the slot. A wait on the condition variable gives up the mutex,
-- so a wait is described by the contents of the slot that each test of its loop sees.
use shared_memory_hashtable.Common.{
  ℕ, ◌≡◌, refl, Bool, true, false, not, ◌||◌, Option, none, some, List, [], ◌∷◌, ◌++◌, arith,
  if◌then◌else◌, ◌==◌, Run, ok,
}
use shared_memory_hashtable.Message.{Message, test_and_set, clear_flag}
use shared_memory_hashtable.Sync.Primitives.{checked}
use shared_memory_hashtable.Client.Session.{returned}

-- The slot as the first test that succeeds sees it: `none` while the loop waits.
pub await : (Message → Bool) → List Message → Option Message
await test [] = none
await test (slot ∷ later) = let rest = await test later in if test slot then some slot else rest

-- the negated conditions of the two loops
unfoldable pub is_free : Message → Bool
is_free slot = not (slot.ready || not (slot.client_id == 0))

unfoldable pub answers : ℕ → Message → Bool
answers client_id slot = not (not slot.ready || not (slot.client_id == client_id))

-- what `respond` writes to the slot
pub fill : Message → Message → Message
unfolding test_and_set
fill slot response = record slot {
  key = response.key;
  payload = response.payload;
  success = response.success;
  ready = test_and_set slot.ready;
  client_id = response.client_id;
}

-- what `sendMsg` leaves of the slot
pub reset : Message → Message
unfolding clear_flag
reset slot = record slot { ready = clear_flag slot.ready; client_id = 0 }

-- the end of `respond`, by the code of `pthread_cond_broadcast`: the slot, once it is free
pub deliver : ℕ → List Message → Message → Run (Option Message)
unfolding await fill
deliver code seen response = elim (await is_free seen) [
  | none ↦ ok none
  | some slot ↦ checked code (some (fill slot response))
]

-- the end of `sendMsg`: the message that it returns, and the slot
pub receive : ℕ → ℕ → List Message → Run (Option (Message × Message))
unfolding await reset
receive client_id code seen = elim (await (answers client_id) seen) [
  | none ↦ ok none
  | some slot ↦ checked code (some (returned (some slot), reset slot))
]

abbrev pub AllFail : (Message → Bool) → List Message → Type 0
AllFail test [] = Unit
AllFail test (slot ∷ slots) = (test slot ≡ false) × AllFail test slots

await-first :
    (test : Message → Bool) (seen : List Message) (slot : Message) (later : List Message)
    → AllFail test seen
    → test slot ≡ true
    → await test (seen ++ slot ∷ later) ≡ some slot
unfolding await
await-first test [] slot later fails holds = rw holds
await-first test (s ∷ seen) slot later (here, fails) holds =
    rw here (await-first test seen slot later fails holds)

answers-fill :
    (slot response : Message) (c : ℕ) → answers c (fill slot response) ≡ (c == response.client_id)
unfolding answers fill test_and_set
answers-fill slot response c = ground arith

-- The end of respond writes its response as soon as it sees the slot free. Then the slot is not
-- free, and it answers exactly the client whose process ID the response has. As soon as that client
-- sees it, its sendMsg returns the success, the key and the data of the response, and the slot is
-- free again.
pub handover :
    (slot response : Message) (occupied later earlier rest : List Message)
    → AllFail is_free occupied
    → is_free slot ≡ true
    → AllFail (answers response.client_id) earlier
    → (deliver 0 (occupied ++ slot ∷ later) response ≡ ok (some (fill slot response)))
      × (is_free (fill slot response) ≡ false)
      × ((c : ℕ) → answers c (fill slot response) ≡ (c == response.client_id))
      × (receive response.client_id 0 (earlier ++ fill slot response ∷ rest)
          ≡ ok (some (returned (some response), reset (fill slot response))))
      × (is_free (reset (fill slot response)) ≡ true)
unfolding deliver receive returned is_free reset fill clear_flag test_and_set
handover slot response occupied later earlier rest busy free others =
    let mine : answers response.client_id (fill slot response) ≡ true =
      rw (answers-fill slot response response.client_id) (ground arith) in
    (
      rw (deliver, await-first is_free occupied slot later busy free),
      refl,
      answers-fill slot response,
      rw (
        receive,
        await-first (answers response.client_id) earlier (fill slot response) rest others mine,
      ),
      refl,
    )
