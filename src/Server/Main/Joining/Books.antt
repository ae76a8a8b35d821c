-- ===== src/Server/Main/Joining/Books.antt =====
-- What holds until the threads of the server are joined (server.cpp, the end of `main`).
use shared_memory_hashtable.Common.{
  ℕ, ◌+◌, ◌≤◌, ◌<◌, ◌≡◌, ◌≢◌, refl, sym, ◌∙◌, ap, false, some, arith, pos, negsuc, update, inl, inr,
  total, total-update, total-zero, ◌==◌, Bool-cases, if◌then◌else◌,
}
use shared_memory_hashtable.Message.{Message, new_message}
use shared_memory_hashtable.CircularBuffer.{CircularBuffer}
use shared_memory_hashtable.CircularBuffer.Shape.{contents}
use shared_memory_hashtable.CircularBuffer.Fifo.{IsValid}
use shared_memory_hashtable.CircularBuffer.Filling.{counted, Pushed, Pushed-counted, Pushed-of_run}
use shared_memory_hashtable.CircularBuffer.Popping.{Popped, Popped-of_run}
use shared_memory_hashtable.Server.Polling.{is_exit}
use shared_memory_hashtable.Server.Main.{slots, exit_message}
use shared_memory_hashtable.Server.Main.Joining.{
  Receiver, polling, answering, returned, State, Step, request, poll, take, answer, leave,
  push_exit, lose_exit, join, Steps, done, more, ending,
}

-- the messages in a buffer that end a thread
abbrev pub exits_in : CircularBuffer Message → ℕ
exits_in b = counted is_exit (contents new_message b)

-- whether a thread has returned, as a number
abbrev pub gone : Receiver → ℕ
gone polling = 0
gone (answering m) = 0
gone returned = 1

pub record IsBooked (s : State) : Type 0 where
  pub valid : IsValid s.buffer
  pub width : s.buffer.capacity ≡ slots
  pub books : exits_in s.buffer + total gone slots s.worker + s.lost ≡ s.pushes
  pub bounded : s.pushes ≤ slots
  pub few : s.joined ≤ slots
  pub over : (t : ℕ) → t < s.joined → s.worker t ≡ returned

-- A push of a message that ends no thread.
kept_by_push :
    {b b' : CircularBuffer Message} {m : Message}
    → is_exit m ≡ false
    → Pushed new_message b m b'
    → exits_in b' ≡ exits_in b
kept_by_push {b} {b'} {m} quiet p =
    Pushed-counted new_message is_exit p ∙ (elim (Bool-cases (b.size == b.capacity)) [
      | inl full ↦ rw full (omega arith)
      | inr room ↦ rw (room, quiet) (omega arith)
    ])

-- A push of `exit_message`.
pub made_by_push :
    {b b' : CircularBuffer Message}
    → Pushed new_message b exit_message b'
    → exits_in b' ≡ exits_in b + (if b.size == b.capacity then 0 else 1)
made_by_push p = Pushed-counted new_message is_exit p

pub lost_by_pop :
    {b b' : CircularBuffer Message} {m : Message} {i : ℕ}
    → Popped new_message b (some (m, i)) b'
    → exits_in b ≡ (if is_exit m then 1 else 0) + exits_in b'
lost_by_pop {m = m} {i = i} p = ap (counted is_exit) (p.first refl)

-- what a step of thread `t` does to the number of those that have returned
moved :
    (w : ℕ → Receiver) (t : ℕ) {p : Receiver} (a : Receiver)
    → t < slots
    → w t ≡ p
    → total gone slots (update w t a) + gone p ≡ total gone slots w + gone a
moved w t a lt e = rw e at (total-update gone slots w t a lt)

-- A thread that has returned stays where it is.
still :
    {s : State} (t : ℕ) {p : Receiver} (a : Receiver)
    → IsBooked s
    → s.worker t ≡ p
    → p ≢ returned
    → (j : ℕ) → j < s.joined
    → update s.worker t a j ≡ returned
still {s} t a b e out j lt = elim (Bool-cases (t == j)) [
  | inl same ↦
      let here : t ≡ j = ground arith in absurd (out (sym e ∙ ap s.worker here ∙ b.over j lt))
  | inr other ↦ rw other (b.over j lt)
]

pos-not-negsuc : {i j : ℕ} → pos i ≢ negsuc j
pos-not-negsuc h = cc

pub Step-IsBooked : {s t : State} → Step s t → IsBooked s → IsBooked t
Step-IsBooked (request m quiet run) b =
    let (index, p) = Pushed-of_run new_message m b.valid run in
    record {
      valid = p.valid';
      width = p.width' ∙ b.width;
      books = omega (arith, b.books, kept_by_push quiet p);
      bounded = b.bounded;
      few = b.few;
      over = b.over;
    }
Step-IsBooked (poll t lt e run) b =
    let p = Popped-of_run new_message b.valid run in
    let (before, after) = p.nothing refl in
    record {
      valid = p.valid;
      width = p.width ∙ b.width;
      books = omega (arith, b.books, ap (counted is_exit) before, ap (counted is_exit) after);
      bounded = b.bounded;
      few = b.few;
      over = b.over;
    }
Step-IsBooked {s} (take t {m} lt e run quiet) b =
    let p = Popped-of_run new_message b.valid run in
    let left = rw quiet at (lost_by_pop p) in
    record {
      valid = p.valid;
      width = p.width ∙ b.width;
      books = omega (arith, b.books, left, moved s.worker t (answering m) lt e);
      bounded = b.bounded;
      few = b.few;
      over = still t (answering m) b e (λ h. cc);
    }
Step-IsBooked {s} (answer t lt e) b = record {
  valid = b.valid;
  width = b.width;
  books = omega (arith, b.books, moved s.worker t polling lt e);
  bounded = b.bounded;
  few = b.few;
  over = still t polling b e (λ h. cc);
}
Step-IsBooked {s} (leave t lt e run exits) b =
    let p = Popped-of_run new_message b.valid run in
    let left = rw exits at (lost_by_pop p) in
    record {
      valid = p.valid;
      width = p.width ∙ b.width;
      books = omega (arith, b.books, left, moved s.worker t returned lt e);
      bounded = b.bounded;
      few = b.few;
      over = still t returned b e (λ h. cc);
    }
Step-IsBooked {s} (push_exit {i} lt run) b =
    let (index, p) = Pushed-of_run new_message exit_message b.valid run in
    record {
      valid = p.valid';
      width = p.width' ∙ b.width;
      books = elim (Bool-cases (s.buffer.size == s.buffer.capacity)) [
        | inl full ↦ let clash = rw full at index in absurd (pos-not-negsuc clash)
        | inr room ↦ let made = rw room at (made_by_push p) in omega (arith, b.books, made)
      ];
      bounded = omega arith;
      few = b.few;
      over = b.over;
    }
Step-IsBooked {s} (lose_exit lt run) b =
    let (index, p) = Pushed-of_run new_message exit_message b.valid run in
    record {
      valid = p.valid';
      width = p.width' ∙ b.width;
      books = elim (Bool-cases (s.buffer.size == s.buffer.capacity)) [
        | inl full ↦ let made = rw full at (made_by_push p) in omega (arith, b.books, made)
        | inr room ↦ let clash = rw room at index in absurd (pos-not-negsuc (sym clash))
      ];
      bounded = omega arith;
      few = b.few;
      over = b.over;
    }
Step-IsBooked {s} (join pushed lt here) b = record {
  valid = b.valid;
  width = b.width;
  books = b.books;
  bounded = b.bounded;
  few = omega arith;
  over = λ t below. elim (Bool-cases (t == s.joined)) [
    | inl last ↦ let e : t ≡ s.joined = ground arith in rw e here
    | inr other ↦ b.over t (ground arith)
  ];
}

pub Steps-IsBooked : {s t : State} → Steps s t → IsBooked s → IsBooked t
Steps-IsBooked done b = b
Steps-IsBooked (more r st) b = Step-IsBooked st (Steps-IsBooked r b)

-- `main` does not take back a lost push.
Step-lost : {s t : State} → Step s t → s.lost ≤ t.lost
Step-lost (request m quiet run) = omega arith
Step-lost (poll t lt e run) = omega arith
Step-lost (take t lt e run quiet) = omega arith
Step-lost (answer t lt e) = omega arith
Step-lost (leave t lt e run exits) = omega arith
Step-lost (push_exit lt run) = omega arith
Step-lost (lose_exit lt run) = omega arith
Step-lost (join pushed lt here) = omega arith

pub Steps-lost : {s t : State} → Steps s t → s.lost ≤ t.lost
Steps-lost done = omega arith
Steps-lost (more r st) = omega (arith, Steps-lost r, Step-lost st)

-- a valid buffer of `slots` slots in which no message ends a thread
pub ending-IsBooked :
    (b : CircularBuffer Message)
    → IsValid b
    → b.capacity ≡ slots
    → exits_in b ≡ 0
    → IsBooked (ending b)
unfolding ending
ending-IsBooked b valid wide none_yet = record {
  valid = valid;
  width = wide;
  books = omega (arith, none_yet, total-zero gone slots polling refl);
  bounded = omega arith;
  few = omega arith;
  over = λ t lt. absurd (omega arith);
}
