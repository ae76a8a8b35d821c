-- ===== src/Server.antt =====
-- What a server thread does with one request, up to its wait for the response slot (server.cpp,
-- `respond`). The operating system and the standard library are the parameter `Os`: which calls
-- succeed, the numerals, and what an uninitialised array holds.
pub mod Exchange
pub mod Printing
pub mod Replies
pub mod Snapshot
pub mod Main
pub mod Pool
pub mod Sessions
pub mod Delivery
pub mod Polling
mod Examples
mod Walkthrough
use shared_memory_hashtable.Common.{
  ℕ, zero, suc, ◌+◌, ◌*◌, Bool, true, false, not, Option, none, some, List, [], ◌∷◌, ◌++◌, length,
  if◌then◌else◌, leb, ltb, Run, ok, fault, out_of_range, exited, ◌>>=◌,
}
use shared_memory_hashtable.HashTable.Keys.{Key}
use shared_memory_hashtable.HashTable.{HashTable}
use shared_memory_hashtable.HashTable
use shared_memory_hashtable.Message.{
  Bytes, Mode, Message, new_message, copy_bytes, c_str, uint8_to_string,
}
use shared_memory_hashtable.Client.{cell_size}

pub record Os : Type 0 where
  pub stoul : Bytes → Option ℕ  -- `none` where it throws
  pub to_string : ℕ → Bytes
  pub shm_open : Bytes → Bool
  pub ftruncate : Bytes → ℕ → Bool
  pub mmap : Bytes → ℕ → Bool
  pub shm_unlink : Bytes → Bool
  pub truncated : List (Bytes × Bytes) → ℕ → List (Bytes × Bytes)  -- what a shorter segment keeps
  pub stale_key : Bytes  -- an uninitialised array of `MAX_LENGTH_KEY` bytes
  pub stale_val : Bytes

-- a pair of arrays in a shared memory segment
abbrev pub Cell : Type 0
Cell = Bytes × Bytes

-- A segment of `bytes` bytes, with the pairs at its start; all bytes behind are 0.
pub record Segment : Type 0 where
  pub bytes : ℕ
  pub cells : List Cell

pub record Server : Type 0 where
  pub table : HashTable Bytes Bytes
  pub segments : Bytes → Option Segment

-- what `respond` sends, if it sends a response
abbrev pub Outcome : Type 0
Outcome = Option Message × Server

-- `response.data[0] = 0`
pub clear_first : Bytes → Run Bytes
clear_first [] = fault out_of_range
clear_first (x ∷ v) = ok (0 ∷ v)

-- the response to a search: the value, or a failure
pub found_response : Message → Option Bytes → Run Message
found_response response (some value) = copy_bytes response.payload (c_str value) >>= λ d.
    ok (record response { payload = d; success = true })
found_response response none =
    clear_first response.payload >>= λ d. ok (record response { payload = d; success = false })

-- the response to an insertion: `true` as a byte, or a failure
pub inserted_response : Message → Bool → Run Message
inserted_response response true = copy_bytes response.payload (1 ∷ []) >>= λ d.
    ok (record response { payload = d; success = true })
inserted_response response false =
    clear_first response.payload >>= λ d. ok (record response { payload = d; success = false })

-- "Index out of bounds!"
abbrev index_message : Bytes
index_message =
    73 ∷ 110 ∷ 100 ∷ 101 ∷ 120 ∷ 32 ∷ 111 ∷ 117 ∷ 116 ∷ 32 ∷ 111 ∷ 102 ∷ 32 ∷ 98 ∷ 111 ∷ 117 ∷ 110
    ∷ 100 ∷ 115 ∷ 33 ∷ []

-- a segment that `shm_open` creates is empty
or_empty : Option Segment → List Cell
or_empty none = []
or_empty (some segment) = segment.cells

-- `std::copy` into a segment of which `size` bytes are mapped
pub store_cells : ℕ → List Cell → Run Segment
store_cells size cells =
    if ltb size (cell_size * length cells)
    then fault out_of_range
    else ok (record { bytes = size; cells = cells })

module _ (os : Os) where
  -- the `std::transform` in the case `READ_BUCKET`
  pub to_cells : List (Bytes × Bytes) → Run (List Cell)
  to_cells [] = ok []
  to_cells ((k, v) ∷ es) = do
    first ← copy_bytes os.stale_key (k ++ 0 ∷ [])
    second ← copy_bytes os.stale_val (v ++ 0 ∷ [])
    rest ← to_cells es
    ok ((first, second) ∷ rest)

  -- `totalLength`
  pub total_length : List (Bytes × Bytes) → ℕ
  total_length entries = cell_size * length entries + 24

module _ (os : Os) ⦃key : Key Bytes⦄ where
  abbrev pub set_segment : Server → Bytes → Option Segment → Server
  set_segment s name x = record s { segments = λ q. if key.equal name q then x else s.segments q }

  -- the case `READ_BUCKET` from `shm_open` on
  pub write_segment : Server → Message → Bytes → List (Bytes × Bytes) → Run Outcome
  unfolding to_cells store_cells
  write_segment s response name entries =
      let failed = record response { success = false } in
      let size = total_length os entries in
      let written : Run Outcome = (do
        cells ← to_cells os entries
        segment ← store_cells size cells
        k ← copy_bytes response.key (c_str name)
        d ← copy_bytes response.payload (os.to_string size)
        ok (
          some (record response { key = k; payload = d; success = true }),
          set_segment s name (some segment),
        )) in
      if not (os.shm_open name)
      then ok (some failed, s)
      else if not (os.ftruncate name size)
      then ok (some failed, set_segment s name none)
      else if not (os.mmap name size)
      then ok (
        some failed,
        set_segment s name (
            some (record { bytes = size; cells = os.truncated (or_empty (s.segments name)) size })),
      )
      else written

  -- the case `READ_BUCKET`
  pub read_bucket : Server → Message → Message → Run Outcome
  unfolding write_segment
  read_bucket s msg response = elim (os.stoul (uint8_to_string msg.key)) [
    | none ↦ fault exited
    | some idx ↦
        if leb s.table.capacity idx
        then (copy_bytes response.payload (index_message ++ 0 ∷ []) >>= λ d.
            ok (some (record response { payload = d; success = false }), s))
        else (HashTable.get_bucket s.table idx >>= λ entries.
            write_segment s response (47 ∷ os.to_string msg.client_id) entries)
  ]

  -- the case `CLOSE_SHM`, which returns without a response
  pub close_shm : Server → Message → Run Outcome
  close_shm s msg =
      let name = uint8_to_string msg.key in
      if os.shm_unlink name then ok (none, set_segment s name none) else fault exited

  -- the `switch` of `respond`
  pub serve : Server → Message → Mode → Run Outcome
  unfolding read_bucket close_shm found_response inserted_response
  serve s msg mode =
      let response : Message = record new_message {
        mode = Mode.response;
        client_id = msg.client_id;
        key = msg.key;
      } in
      let key_text = uint8_to_string msg.key in
      elim mode [
        | Mode.get ↦ (do
          result ← HashTable.get s.table key_text
          r ← found_response response result
          ok (some r, s))
        | Mode.insert ↦ (do
          (result, t) ← HashTable.insert s.table key_text (uint8_to_string msg.payload)
          r ← inserted_response response result
          ok (some r, record s { table = t }))
        | Mode.read_bucket ↦ read_bucket s msg response
        | Mode.close_shm ↦ close_shm s msg
        | Mode.delete ↦ (do
          (result, t) ← HashTable.remove s.table key_text
          r ← found_response response result
          ok (some r, record s { table = t }))
        | Mode.response ↦ fault exited
        | Mode.default ↦ fault exited
        | Mode.exit ↦ fault exited
      ]

  pub respond : Server → Message → Run Outcome
  unfolding serve
  respond s msg = serve s msg msg.mode
