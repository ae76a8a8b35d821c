-- ===== src/Server/Main/Joining/Completion.antt =====
-- Whether the server can end (server.cpp, the end of `main`): its joins against its pushes.
use shared_memory_hashtable.Common.{
  ℕ, zero, suc, ◌+◌, ◌*◌, ◌-◌, ◌≤◌, ◌<◌, ◌≡◌, refl, ◌∙◌, ap, false, some, none, arith, ok, pos,
  update, inl, inr, total, total-update, total-pos, total-cases, ◌==◌, Bool-cases, length, [],
  Option, ℤ,
}
use native.Mathlib.Decide.{dec_lt}
use shared_memory_hashtable.Message.{Message, new_message}
use shared_memory_hashtable.CircularBuffer.{CircularBuffer, pop}
use shared_memory_hashtable.CircularBuffer.Shape.{contents}
use shared_memory_hashtable.CircularBuffer.Fifo.{IsValid, length-contents}
use shared_memory_hashtable.CircularBuffer.Filling.{counted, Pushed-size, push_back-Pushed}
use shared_memory_hashtable.CircularBuffer.Popping.{Popped, pop-Popped}
use shared_memory_hashtable.Server.Polling.{is_exit}
use shared_memory_hashtable.Server.Main.{slots, exit_message}
use shared_memory_hashtable.Server.Main.Joining.{
  Receiver, polling, answering, returned, State, Step, take, answer, leave, push_exit, join, Steps,
  done, more, ending,
}
use shared_memory_hashtable.Server.Main.Joining.Books.{
  IsBooked, gone, exits_in, Step-IsBooked, Steps-IsBooked, Steps-lost, ending-IsBooked,
}

-- whether a thread runs, and whether it has a request, as numbers
abbrev here : Receiver → ℕ
here polling = 1
here (answering m) = 1
here returned = 0

abbrev loaded : Receiver → ℕ
loaded polling = 0
loaded (answering m) = 1
loaded returned = 0

gone-or-here : (n : ℕ) (w : ℕ → Receiver) → total gone n w + total here n w ≡ n
unfolding total
gone-or-here zero w = refl
gone-or-here (suc n) w = omega (arith, one (w n), gone-or-here n w)
  where
    one : (x : Receiver) → gone x + here x ≡ 1
    one polling = refl
    one (answering m) = refl
    one returned = refl

-- What is left to do: pushes, messages to take, requests to answer, threads to join.
abbrev work : State → ℕ
work s =
    3 * (slots - s.pushes) + 2 * s.buffer.size + total loaded slots s.worker + (slots - s.joined)

-- a step that loses no push and leaves less to do
abbrev Onward : State → Type 0
Onward s = (t : State) × Step s t × (t.lost ≡ s.lost) × (work t < work s)

loading :
    (w : ℕ → Receiver) (t : ℕ) {p : Receiver} (a : Receiver)
    → t < slots
    → w t ≡ p
    → total loaded slots (update w t a) + loaded p ≡ total loaded slots w + loaded a
loading w t a lt e = rw e at (total-update loaded slots w t a lt)

Popped-size :
    {b b' : CircularBuffer Message} {e : Message × ℕ}
    → Popped new_message b (some e) b'
    → b.size ≡ b'.size + 1
Popped-size {b} {b'} p =
    let longer = ap length (p.first refl) in
    omega (arith, longer, length-contents new_message b, length-contents new_message b')

-- A thread that has taken a message returns, or has a request.
taking :
    {s : State} (t : ℕ) (m : Message) {i : ℕ} {b : CircularBuffer Message}
    → t < slots
    → s.worker t ≡ polling
    → pop s.buffer ≡ ok (some (m, i), b)
    → Popped new_message s.buffer (some (m, i)) b
    → Onward s
taking {s} t m {b = b} lt e run p = elim (Bool-cases (is_exit m)) [
  | inl exits ↦ (
    record s { buffer = b; worker = update s.worker t returned },
    leave t lt e run exits,
    refl,
    omega (arith, Popped-size p, loading s.worker t returned lt e),
  )
  | inr quiet ↦ (
    record s { buffer = b; worker = update s.worker t (answering m) },
    take t lt e run quiet,
    refl,
    omega (arith, Popped-size p, loading s.worker t (answering m) lt e),
  )
]

-- With an empty buffer, `main` pushes.
pushing :
    {s : State} → IsBooked s → contents new_message s.buffer ≡ [] → s.pushes < slots → Onward s
pushing {s} booked empty lt =
    let ((i, b), run, (index, p)) =
      push_back-Pushed new_message {b = s.buffer} exit_message booked.valid in
    let none_in : s.buffer.size ≡ 0 =
      omega (arith, ap length empty, length-contents new_message s.buffer) in
    let room : (s.buffer.size == s.buffer.capacity) ≡ false =
      ground (arith, none_in, booked.width) in
    let first : i ≡ pos s.buffer.tail_idx = rw room at index in
    let one : b.size ≡ s.buffer.size + 1 = rw room at (Pushed-size new_message p) in
    (
      record s { buffer = b; pushes = s.pushes + 1 },
      push_exit lt (run ∙ ap (λ (j : ℤ). ok (j, b)) first),
      refl,
      omega (arith, one),
    )

-- a thread that runs, on a buffer from which `pop` takes `o`
running :
    {s : State} (t : ℕ) (o : Option (Message × ℕ)) {b : CircularBuffer Message}
    → IsBooked s
    → s.lost ≡ 0
    → t < slots
    → s.worker t ≡ polling
    → pop s.buffer ≡ ok (o, b)
    → Popped new_message s.buffer o b
    → Onward s
running {s} t none booked clean lt e run p =
    let (empty, _) = p.nothing refl in
    let some_here = rw e at (total-pos here slots s.worker t lt) in
    pushing booked empty (
      omega (
        arith,
        booked.books,
        clean,
        ap (counted is_exit) empty,
        gone-or-here slots s.worker,
        some_here,
      ))
running t (some (m, i)) booked clean lt e run p = taking t m lt e run p

-- a thread that runs
at_work :
    {s : State} (t : ℕ) (w : Receiver)
    → IsBooked s
    → s.lost ≡ 0
    → t < slots
    → s.worker t ≡ w
    → 1 ≤ here w
    → Onward s
at_work {s} t polling booked clean lt e runs =
    let ((o, b), run, p) = pop-Popped new_message {b = s.buffer} booked.valid in
    running t o booked clean lt e run p
at_work {s} t (answering m) booked clean lt e runs = (
  record s { worker = update s.worker t polling },
  answer t lt e,
  refl,
  omega (arith, loading s.worker t polling lt e),
)
at_work t returned booked clean lt e runs = absurd (omega arith)

not_here : (w : Receiver) → here w ≡ 0 → w ≡ returned
not_here polling h = absurd (omega arith)
not_here (answering m) h = absurd (omega arith)
not_here returned h = refl

onward : {s : State} → IsBooked s → s.lost ≡ 0 → s.joined < slots → Onward s
onward {s} booked clean lt = elim (total-cases here slots s.worker) [
  | inr (t, below, runs) ↦ at_work t (s.worker t) booked clean below refl runs
  | inl all_gone ↦
      let last =
        not_here (s.worker s.joined)
          (omega (arith, all_gone, total-pos here slots s.worker s.joined lt)) in
      (
        record s { joined = s.joined + 1 },
        join (omega (arith, booked.books, booked.bounded, all_gone, gone-or-here slots s.worker)) lt
            last,
        refl,
        omega arith,
      )
]

Steps-cons : {s t u : State} → Step s t → Steps t u → Steps s u
Steps-cons st done = more done st
Steps-cons st (more r last) = more (Steps-cons st r) last

completed :
    (fuel : ℕ) {s : State}
    → IsBooked s
    → s.lost ≡ 0
    → work s < fuel
    → (t : State) × Steps s t × (t.joined ≡ slots)
completed zero booked clean enough = absurd (omega arith)
completed (suc fuel) {s} booked clean enough = elim (dec_lt s.joined slots) [
  | no all ↦ (s, done, omega (arith, booked.few))
  | yes lt ↦
      let (t, st, same, less) = onward booked clean lt in
      let (u, rest, all) =
        completed fuel (Step-IsBooked st booked) (same ∙ clean) (omega (arith, less, enough)) in
      (u, Steps-cons st rest, all)
]

-- All threads that are joined have returned.
all_joined : {s : State} → IsBooked s → s.joined ≡ slots → total gone slots s.worker ≡ slots
all_joined {s} booked all = elim (total-cases here slots s.worker) [
  | inl all_gone ↦ omega (arith, all_gone, gone-or-here slots s.worker)
  | inr (t, lt, runs) ↦
      let still_here = rw (booked.over t (omega arith)) at runs in
      absurd (omega (arith, still_here))
]

-- The server ends behind the main loop, with a valid buffer of the slots of the mailbox that holds no
-- EXIT message: once a push of an EXIT message has returned -1, main has not joined every thread in
-- any later state, whatever clients, threads and main do.
pub lost_exit :
    {b : CircularBuffer Message} {s t : State}
    → IsValid b
    → b.capacity ≡ slots
    → exits_in b ≡ 0
    → Steps (ending b) s
    → 1 ≤ s.lost
    → Steps s t
    → t.joined < slots
lost_exit {b} {s} {t} valid wide none_yet r lost later =
    let after = Steps-IsBooked later (Steps-IsBooked r (ending-IsBooked b valid wide none_yet)) in
    elim (dec_lt t.joined slots) [
      | yes few ↦ few
      | no all ↦
          let everyone = all_joined after (omega (arith, all, after.few)) in
          absurd (omega (arith, lost, everyone, after.books, after.bounded, Steps-lost later))
    ]

-- When respond ends for every request, and no push of an EXIT message has returned -1 so far, there
-- are steps to a state in which main has joined every thread.
pub joins :
    {b : CircularBuffer Message} {s : State}
    → IsValid b
    → b.capacity ≡ slots
    → exits_in b ≡ 0
    → Steps (ending b) s
    → s.lost ≡ 0
    → (t : State) × Steps s t × (t.joined ≡ slots)
joins {b} {s} valid wide none_yet r clean =
    let booked = Steps-IsBooked r (ending-IsBooked b valid wide none_yet) in
    completed (suc (work s)) booked clean (omega arith)
