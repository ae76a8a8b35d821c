-- ===== src/Mailbox/Construction.antt =====
-- The mailbox as it is constructed and destroyed (message.h, `Mailbox`), and that it stands for the
-- first state of the exchange.
use shared_memory_hashtable.Common.{
  ℕ, zero, suc, ◌+◌, ◌^◌, ◌≤◌, ◌<◌, ◌≡◌, refl, Bool, true, false, List, [], ◌∷◌, length, get_or,
  replicate, length-replicate, arith, Run, ok, ◌>>=◌, Returns, map,
}
use shared_memory_hashtable.Sync.Primitives.{Mutex, new_semaphore, new_mutex, delete_mutex, checked}
use shared_memory_hashtable.Message.{Message, Mode, new_message, message_of}
use shared_memory_hashtable.CircularBuffer
use shared_memory_hashtable.CircularBuffer.{CircularBuffer}
use shared_memory_hashtable.CircularBuffer.Shape.{contents, contents-nil}
use shared_memory_hashtable.CircularBuffer.Fifo.{IsValid, new-IsValid}
use shared_memory_hashtable.Mailbox.{Entry, System, init}

-- `rcvs[i]`
pub record Condition : Type 0 where
  pub live : Bool
  pub shared : Bool

pub record Mailbox : Type 0 where
  pub msgs : CircularBuffer Message
  pub responses : List Message
  pub mutexes : List Mutex
  pub rcvs : List Condition

-- The codes of the calls for one slot: for the member of the array `mutexes`, for the temporary mutex
-- that is assigned to it and for its destruction, and for the condition variable.
pub record Codes : Type 0 where
  pub member_init : ℕ
  pub temporary_init : ℕ
  pub temporary_destroy : ℕ
  pub cond_init : ℕ

-- The codes of the calls for the members of the buffer: its mutex, and the mutex and the semaphore or
-- condition variable of both of its semaphores.
pub record BufferCodes : Type 0 where
  pub mutex_init : ℕ
  pub open_mutex_init : ℕ
  pub open_init : ℕ
  pub full_mutex_init : ℕ
  pub full_init : ℕ

-- the construction of `msgs`
pub new_msgs : ℕ → BufferCodes → Run (CircularBuffer Message)
new_msgs slots codes = do
  _ ← new_mutex (codes.mutex_init)
  _ ← new_semaphore (codes.open_mutex_init) (codes.open_init) slots
  _ ← new_semaphore (codes.full_mutex_init) (codes.full_init) 0
  ok (CircularBuffer.new slots new_message)

-- The implicit assignment of a `PMutex` copies its handle. The copy is not a mutex that
-- `pthread_mutex_init` has made, and POSIX leaves its use undefined: it is not live.
pub copy_mutex : Mutex → Mutex
copy_mutex m = record m { live = false }

-- the member array `mutexes`, before the body of the constructor
pub new_mutexes : ℕ → ℕ → (ℕ → Codes) → Run (List Mutex)
new_mutexes zero i codes = ok []
new_mutexes (suc n) i codes = do
  m ← new_mutex ((codes i).member_init)
  ms ← new_mutexes n (i + 1) codes
  ok (m ∷ ms)

-- The loop of the constructor for the slots from `i` on, `n` of them. The temporary mutex is destroyed
-- behind the assignment.
pub set_slots : ℕ → ℕ → (ℕ → Codes) → Run (List Message × List Mutex × List Condition)
unfolding copy_mutex
set_slots zero i codes = ok ([], [], [])
set_slots (suc n) i codes = do
  temporary ← new_mutex ((codes i).temporary_init)
  _ ← delete_mutex ((codes i).temporary_destroy) temporary
  cond ← checked ((codes i).cond_init) (record { live = true; shared = true })
  (rs, ms, cs) ← set_slots n (i + 1) codes
  ok (message_of Mode.response ∷ rs, copy_mutex temporary ∷ ms, cond ∷ cs)

-- the constructor of `Mailbox<slots>`
pub new_mailbox : ℕ → BufferCodes → (ℕ → Codes) → Run Mailbox
unfolding new_msgs new_mutexes set_slots
new_mailbox slots buffer_codes codes = do
  msgs ← new_msgs slots buffer_codes
  _ ← new_mutexes slots 0 codes
  (rs, ms, cs) ← set_slots slots 0 codes
  ok (record { msgs = msgs; responses = rs; mutexes = ms; rcvs = cs })

-- the destructor: the loop over the condition variables, and then the members
pub delete_conditions : List Condition → (ℕ → ℕ) → ℕ → Run (List Condition)
delete_conditions [] codes i = ok []
delete_conditions (c ∷ cs) codes i = do
  c' ← checked (codes i) (record c { live = false })
  rest ← delete_conditions cs codes (i + 1)
  ok (c' ∷ rest)

pub delete_mutexes : List Mutex → (ℕ → ℕ) → ℕ → Run (List Mutex)
delete_mutexes [] codes i = ok []
delete_mutexes (m ∷ ms) codes i = do
  m' ← delete_mutex (codes i) m
  rest ← delete_mutexes ms codes (i + 1)
  ok (m' ∷ rest)

-- the calls of the libraries succeed
pub record BufferSucceeds (codes : BufferCodes) : Type 0 where
  pub mutex_made : codes.mutex_init ≡ 0
  pub open_mutex_made : codes.open_mutex_init ≡ 0
  pub open_made : codes.open_init ≡ 0
  pub full_mutex_made : codes.full_mutex_init ≡ 0
  pub full_made : codes.full_init ≡ 0

abbrev pub Succeeds : (ℕ → Codes) → Type 0
Succeeds codes =
    (i : ℕ)
    → ((codes i).member_init ≡ 0)
      × ((codes i).temporary_init ≡ 0)
      × ((codes i).temporary_destroy ≡ 0)
      × ((codes i).cond_init ≡ 0)

abbrev live_mutex : Mutex
live_mutex = record { live = true; shared = true; locked = false }

abbrev copied_mutex : Mutex
copied_mutex = record { live = false; shared = true; locked = false }

abbrev live_condition : Condition
live_condition = record { live = true; shared = true }

new_mutexes-ok :
    (codes : ℕ → Codes)
    → Succeeds codes
    → (n i : ℕ) → new_mutexes n i codes ≡ ok (replicate n live_mutex)
unfolding new_mutexes new_mutex
new_mutexes-ok codes good zero i = refl
new_mutexes-ok codes good (suc n) i = rw ((good i).0, new_mutexes-ok codes good n (i + 1))

set_slots-ok :
    (codes : ℕ → Codes)
    → Succeeds codes
    → (n i : ℕ)
    → set_slots n i codes
      ≡ ok (
        replicate n (message_of Mode.response),
        replicate n copied_mutex,
        replicate n live_condition,
      )
unfolding set_slots copy_mutex new_mutex delete_mutex
set_slots-ok codes good zero i = refl
set_slots-ok codes good (suc n) i =
    rw ((good i).1, (good i).2, (good i).3, set_slots-ok codes good n (i + 1))

-- whether a message gets no response
abbrev pub closes : Mode → Bool
closes Mode.close_shm = true
closes _ = false

-- the requests that a buffer holds
abbrev pub entries_of : List (Message × ℕ) → List (Entry Message)
entries_of =
    map (λ e. record { pid = e.0.client_id; req = e.0; idx = e.1; closing = closes e.0.mode })

-- A mailbox with `n` slots stands for a state of the exchange in which no thread is on its way.
pub record Represents (n : ℕ) (mb : Mailbox) (s : System Message) : Type 0 where
  pub queue : s.queue ≡ entries_of (contents new_message mb.msgs)
  pub next : s.next ≡ mb.msgs.tail_idx
  pub ready : (i : ℕ) → i < n → (get_or mb.responses i new_message).ready ≡ (s.responses i).ready
  pub client_id :
      (i : ℕ) → i < n → (get_or mb.responses i new_message).client_id ≡ (s.responses i).client_id

abbrev pub AllOf {ℓ} : {A : Type ℓ} → A → List A → Type ℓ
AllOf a [] = Unit
AllOf a (x ∷ xs) = (x ≡ a) × AllOf a xs

AllOf-replicate {ℓ} : {A : Type ℓ} (a : A) (n : ℕ) → AllOf a (replicate n a)
AllOf-replicate a zero = tt
AllOf-replicate a (suc n) = (refl, AllOf-replicate a n)

-- what the constructor makes of `n` slots
pub record Made (n : ℕ) (mb : Mailbox) : Type 0 where
  pub represents : Represents n mb init
  pub valid : IsValid mb.msgs
  pub slots : mb.msgs.capacity ≡ n
  pub responses : (length mb.responses ≡ n) × AllOf (message_of Mode.response) mb.responses
  pub mutexes : (length mb.mutexes ≡ n) × AllOf copied_mutex mb.mutexes
  pub conditions : (length mb.rcvs ≡ n) × AllOf live_condition mb.rcvs

get_or-response :
    (n i : ℕ)
    → i < n
    → get_or (replicate n (message_of Mode.response)) i new_message ≡ message_of Mode.response
get_or-response zero i lt = absurd (omega arith)
get_or-response (suc n) zero lt = refl
get_or-response (suc n) (suc i) lt = get_or-response n i (omega arith)

pub new_mailbox-Made :
    (n : ℕ) (buffer_codes : BufferCodes) (codes : ℕ → Codes)
    → 1 ≤ n
    → n < 2 ^ 31
    → BufferSucceeds buffer_codes
    → Succeeds codes
    → Returns (new_mailbox n buffer_codes codes) (Made n)
unfolding new_mailbox new_msgs new_mutex new_semaphore message_of new_message CircularBuffer.new
new_mailbox-Made n buffer_codes codes lo hi made good =
    let mb : Mailbox = record {
      msgs = CircularBuffer.new n new_message;
      responses = replicate n (message_of Mode.response);
      mutexes = replicate n copied_mutex;
      rcvs = replicate n live_condition;
    } in
    (
      mb,
      rw (
        made.mutex_made,
        made.open_mutex_made,
        made.open_made,
        made.full_mutex_made,
        made.full_made,
        new_mutexes-ok codes good n 0,
        ◌>>=◌,
        set_slots-ok codes good n 0,
      ),
      record {
        represents = record {
          queue = rw (contents-nil new_message (CircularBuffer.new n new_message) refl);
          next = refl;
          ready = λ i lt. rw (get_or-response n i lt);
          client_id = λ i lt. rw (get_or-response n i lt);
        };
        valid = new-IsValid n new_message lo hi;
        slots = refl;
        responses = (length-replicate n _, AllOf-replicate _ n);
        mutexes = (length-replicate n _, AllOf-replicate _ n);
        conditions = (length-replicate n _, AllOf-replicate _ n);
      },
    )
