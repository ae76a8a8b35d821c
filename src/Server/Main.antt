-- ===== src/Server/Main.antt =====
-- The start and the end of the server (server.cpp, `main`). What the operating system and the compiler
-- decide is the parameter `Host`; the threads run between the two.
pub mod Startup
pub mod Joining
mod Examples
use shared_memory_hashtable.Common.{
  ℕ, suc, ◌+◌, ◌*◌, ◌/◌, Bool, true, false, not, Option, none, some, List, [], ◌∷◌, length,
  if◌then◌else◌, ◌==◌, codes, ℤ, pos, negsuc, Run, ok, ◌>>=◌,
}
use shared_memory_hashtable.Message.{Bytes, Mode, Message, new_message}
use shared_memory_hashtable.HashTable.{HashTable, new_default, new_sized, print_table}
use shared_memory_hashtable.HashTable.Keys.{Key}
use shared_memory_hashtable.CircularBuffer.{CircularBuffer}
use shared_memory_hashtable.CircularBuffer.Filling.{push_times}
use shared_memory_hashtable.Mailbox.Construction.{
  Mailbox, Codes, BufferCodes, new_mailbox, delete_conditions, delete_mutexes,
}

-- `slots` of message.h
abbrev pub slots : ℕ
slots = 8

pub record Host : Type 0 where
  pub stoul : Bytes → Option ℕ  -- `none` where it throws
  pub shm_open : Bytes → Bool
  pub ftruncate : Bytes → ℕ → Bool
  pub mmap : Bytes → ℕ → Bool
  pub page_size : ℕ  -- `getpagesize()`
  pub mailbox_size : ℕ  -- `sizeof(MMap<slots>)`
  pub message_size : ℕ  -- `sizeof(Message)`
  pub codes : ℕ → Codes  -- of the calls that make the slots of the mailbox
  pub buffer_codes : BufferCodes  -- of those that make its buffer
  pub alloc : ℕ → Bool  -- whether the buckets of the table can be allocated, by the number

-- the name of the shared memory object
abbrev pub shm_name : Bytes
shm_name = codes "/shm_ipc"

-- `table`, by the number on the command line
pub make_table {ℓ} : {K V : Type ℓ} → ℕ → HashTable K V
make_table table_size = if table_size == 0 then new_default else new_sized table_size false

-- the bytes that are mapped, and the pages that the object is given
pub map_size : Host → ℕ
map_size h = h.mailbox_size + h.message_size * slots

pub num_pages : Host → ℕ
unfolding map_size
num_pages h = map_size h / h.page_size + 1

-- What `main` has done when it gets to its threads, or when it has returned or exited before; `linked`
-- says whether there is a shared memory object of the name.
pub data Start : Type 0 where
  ended : (status : ℤ) (linked : Bool) → Start
  aborted : (linked : Bool) → Start  -- behind a `std::bad_alloc` that nothing catches
  started : (mailbox : Mailbox) (table : HashTable Bytes Bytes) (size : ℕ) → Start

module _ (h : Host) where
  -- behind `mmap`: placement new of the mailbox
  pub place : ℕ → Run Start
  place table_size = new_mailbox slots h.buffer_codes h.codes >>= λ mb.
      ok (started mb (make_table table_size) (num_pages h * h.page_size))

  -- from `shm_open` on
  pub open_mailbox : Bool → ℕ → Run Start
  unfolding place
  open_mailbox before table_size =
      if not (h.shm_open shm_name)
      then ok (ended (pos 1) before)
      else if not (h.ftruncate shm_name (num_pages h * h.page_size))
      then ok (ended (pos 1) false)
      else if not (h.mmap shm_name (map_size h))
      then ok (ended (pos 1) false)
      else place table_size

  -- Whether there was an object of the name before, and `argv`, with the name of the program in front.
  pub start : Bool → List Bytes → Run Start
  unfolding open_mailbox
  start before (name ∷ number ∷ []) = elim (h.stoul number) [
    | none ↦ ok (ended (negsuc 0) before)
    | some table_size ↦
        if h.alloc table_size then open_mailbox before table_size else ok (aborted before)
  ]
  start before [] = ok (ended (pos 1) before)
  start before (name ∷ []) = ok (ended (pos 1) before)
  start before (name ∷ number ∷ more ∷ rest) = ok (ended (pos 1) before)

-- `signal_handler`, on `running`
pub signal_handler : Bool → Bool
signal_handler running = false

abbrev pub exit_message : Message
exit_message = record new_message { mode = Mode.exit }

-- Behind the joins: what is printed of the table, the status, and that the object is unlinked. The
-- codes are those of the destruction of the condition variables and mutexes of the mailbox.
pub finish :
    (ℕ → ℕ) → (ℕ → ℕ) → Mailbox → HashTable Bytes Bytes → Run (List (Bytes × Bytes) × ℤ × Bool)
finish cond_codes mutex_codes mb table = do
  lines ← print_table table
  _ ← delete_conditions mb.rcvs cond_codes 0
  _ ← delete_mutexes mb.mutexes mutex_codes 0
  ok (lines, pos 0, false)
