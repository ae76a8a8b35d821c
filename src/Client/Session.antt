-- ===== src/Client/Session.antt =====
-- The main loop of the client (client.cpp, `main`). The C library, the splitting of a line into words
-- and the calls of the operating system are the parameter `Host`; `ask` is what becomes of a message
-- that `sendMsg` pushes, up to the response, and `segment` what a shared memory segment holds.
use shared_memory_hashtable.Common.{
  ℕ, Bool, true, false, not, Option, none, some, List, [], ◌∷◌, ◌++◌, if◌then◌else◌, codes, ℤ, pos,
  Run, ok, fault, exited, ◌>>=◌,
}
use shared_memory_hashtable.Message.{Bytes, Mode, Message, new_message, uint8_to_string}
use shared_memory_hashtable.Client.{command, prepare, printed, read_cells}

pub record Host : Type 0 where
  pub tolower : ℕ → ℕ
  pub words : Bytes → List Bytes
  pub stoul : Bytes → Option ℕ  -- `none` where it throws
  pub shm_open : Bytes → Bool
  pub mmap : Bytes → ℕ → Bool

-- a line on `std::cout`, or the text of an exception on `std::cerr`
pub data Output : Type 0 where
  out : Bytes → Output
  refused : Output

-- The end of `sendMsg`: the message that it returns, made of the response if it waits for one.
unfoldable pub returned : Option Message → Message
returned none = new_message
returned (some r) = record new_message {
  mode = Mode.response;
  success = r.success;
  key = r.key;
  payload = r.payload;
}

-- what is printed behind the key of `get` and `delete`
abbrev pub value_text : Option Bytes → Bytes
value_text none = codes " failed"
value_text (some v) = codes " -> " ++ v ++ codes " succeeded"

abbrev pub success_text : Bool → Bytes
success_text true = codes " succeeded"
success_text false = codes " failed"

unfoldable pub get_line : Bytes → Message → Bytes
unfolding printed
get_line k r = codes "GET " ++ k ++ value_text (printed r)

unfoldable pub insert_line : Bytes → Bytes → Message → Bytes
insert_line k v r = codes "INSERT " ++ k ++ codes " -> " ++ v ++ success_text r.success

unfoldable pub delete_line : Bytes → Message → Bytes
unfolding printed
delete_line k r = codes "DELETE " ++ k ++ value_text (printed r)

-- the lines of the pairs of a bucket
pub cell_lines : List (Bytes × Bytes) → List Output
cell_lines [] = []
cell_lines ((k, v) ∷ cells) =
    out (uint8_to_string k ++ codes " -> " ++ uint8_to_string v) ∷ cell_lines cells

-- `signal_handler`, on `running`
pub signal_handler : Bool → Bool
signal_handler running = false

-- what a round prints, the state, and the status if `main` returns
abbrev pub Round : Type 0 → Type 0
Round S = List Output × S × Option ℤ

module _ {S : Type 0} (host : Host) (client_id : ℕ) (ask : S → Message → Run (Option Message × S))
    (segment : S → Bytes → List (Bytes × Bytes)) where
  -- `sendMsg`: `none` where it throws
  unfoldable pub send_msg : S → Mode → Bytes → Bytes → Run (Option Message × S)
  unfolding returned
  send_msg s mode key value = prepare client_id mode key value >>= λ o. elim o [
    | none ↦ ok (none, s)
    | some msg ↦ ask s msg >>= λ r. ok (some (returned r.0), r.1)
  ]

  -- the printing of a bucket, with the message that its segment may be closed
  unfoldable pub bucket_round : S → Bytes → Message → Run (Round S)
  unfolding send_msg cell_lines
  bucket_round s index r =
      if not r.success
      then ok (out (codes "read_bucket() failed") ∷ out (uint8_to_string r.key) ∷ [], s, none)
      else (let name = uint8_to_string r.key in
          elim (host.stoul (uint8_to_string r.payload)) [
            | none ↦ fault exited
            | some size ↦
                if not (host.shm_open name)
                then ok (out name ∷ [], s, some (pos 1))
                else if not (host.mmap name size)
                then fault exited
                else (do
                  cells ← read_cells size (segment s name)
                  (_, s') ← send_msg s Mode.close_shm name []
                  ok (
                    out name
                        ∷ out (codes "READ_BUCKET " ++ index ++ codes " successful:")
                        ∷ cell_lines cells,
                    s',
                    none,
                  ))
          ])

  -- the printing of a response
  unfoldable pub print_response : S → Mode → Bytes → Bytes → Message → Run (Round S)
  unfolding bucket_round get_line insert_line delete_line
  print_response s Mode.get k v r = ok (out (get_line k r) ∷ [], s, none)
  print_response s Mode.insert k v r = ok (out (insert_line k v r) ∷ [], s, none)
  print_response s Mode.delete k v r = ok (out (delete_line k r) ∷ [], s, none)
  print_response s Mode.read_bucket k v r = bucket_round s k r
  print_response s _ k v r = ok ([], s, none)

  -- the sending of an accepted command, with the exception that `sendMsg` may throw
  unfoldable pub send_round : S → Mode × Bytes × Bytes → Run (Round S)
  unfolding send_msg print_response
  send_round s (mode, k, v) = send_msg s mode k v >>= λ r. elim (r.0) [
    | none ↦ ok (refused ∷ [], r.1, none)
    | some response ↦ print_response r.1 mode k v response
  ]

  -- one round of the loop, for a line that is not empty
  unfoldable pub round : S → Bytes → List Bytes → Run (Round S)
  unfolding send_round
  round s name args = elim (command host.tolower name args) [
    | none ↦ ok (refused ∷ [], s, none)
    | some asked ↦ send_round s asked
  ]

  -- The loop over the lines of the input, each with the value of `running` at the end of its round. It
  -- ends at an empty line, and so at the end of the input, and when `running` is false.
  unfoldable pub rounds : S → List (Bytes × Bool) → Run (List Output × ℤ × S)
  unfolding round
  rounds s [] = ok ([], pos 0, s)
  rounds s ((line, running) ∷ lines) = elim (host.words line) [
    | [] ↦ ok ([], pos 0, s)
    | name ∷ args ↦ (do
      (printed_lines, s', status) ← round s name args
      elim status [
        | some code ↦ ok (printed_lines, code, s')
        | none ↦ elim running [
          | true ↦ rounds s' lines >>= λ r. ok (printed_lines ++ r.0, r.1, r.2)
          | false ↦ ok (printed_lines, pos 0, s')
        ]
      ])
  ]

  -- `main`: the mailbox has `size` bytes
  pub main : ℕ → S → List (Bytes × Bool) → Run (List Output × ℤ × S)
  unfolding rounds
  main size s lines =
      if not (host.shm_open (codes "/shm_ipc"))
      then ok ([], pos 1, s)
      else if not (host.mmap (codes "/shm_ipc") size)
      then ok ([], pos 1, s)
      else rounds s lines
