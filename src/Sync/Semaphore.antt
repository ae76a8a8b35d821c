-- ===== src/Sync/Semaphore.antt =====
-- The semaphore of mutex.cpp on macOS, `CountingSemaphore` with a mutex and a condition variable, used
-- by any number of threads. What a thread does under the mutex between two waits on the condition
-- variable is one step. A signal moves a sleeping thread, if there is one, to the woken threads, which
-- go on when they get the mutex; so may a spurious wakeup.
use shared_memory_hashtable.Common.{
  ℕ, ◌+◌, ◌-◌, ◌<◌, ◌≡◌, refl, inl, inr, Bool-cases, arith, if◌then◌else◌, ltb, ◌==◌, size_mod,
  increment,
}

-- `taken` and `posted` count the calls of `wait` and `post` that are over.
pub record Semaphore : Type 0 where
  pub count : ℕ
  pub asleep : ℕ
  pub woken : ℕ
  pub taken : ℕ
  pub posted : ℕ

-- the constructor
abbrev pub semaphore : ℕ → Semaphore
semaphore value = record { count = value; asleep = 0; woken = 0; taken = 0; posted = 0 }

-- `pthread_cond_signal`
abbrev pub signal : Semaphore → Semaphore
signal s = if s.asleep == 0 then s else record s { asleep = s.asleep - 1; woken = s.woken + 1 }

-- `if(_count > 0) pthread_cond_signal(…)`
abbrev pub notify : Semaphore → Semaphore
notify s = if ltb 0 s.count then signal s else s

-- the end of `wait`, once the count is positive
abbrev pub take : Semaphore → Semaphore
take s = notify (record s { count = s.count - 1; taken = s.taken + 1 })

-- `post`
abbrev pub give : Semaphore → Semaphore
give s = notify (record s { count = increment s.count; posted = s.posted + 1 })

pub data Step (s : Semaphore) : Semaphore → Type 0 where
  -- a thread calls `wait`, and need not sleep
  pass : 0 < s.count → Step s (take s)
  -- a thread calls `wait`, and sleeps
  sleep : s.count ≡ 0 → Step s (record s { asleep = s.asleep + 1 })
  -- a woken thread finds a positive count
  resume : 0 < s.woken → 0 < s.count → Step s (take (record s { woken = s.woken - 1 }))
  -- a woken thread sleeps again
  relapse :
      0 < s.woken → s.count ≡ 0 → Step s (record s { woken = s.woken - 1; asleep = s.asleep + 1 })
  -- a spurious wakeup
  stir : 0 < s.asleep → Step s (record s { asleep = s.asleep - 1; woken = s.woken + 1 })
  -- a thread calls `post`
  post : Step s (give s)

pub data Reach (value : ℕ) : Semaphore → Type 0 where
  start : Reach value (semaphore value)
  later : {s t : Semaphore} → Reach value s → Step s t → Reach value t

-- A sleeping thread beside a positive count has one before it that is awake.
abbrev Heeded : Semaphore → Type 0
Heeded s = 0 < s.count → 0 < s.asleep → 0 < s.woken

notify-Heeded : (s : Semaphore) → Heeded (notify s)
notify-Heeded s = elim (Bool-cases (ltb 0 s.count)) [
  | inl some_left ↦ elim (Bool-cases (s.asleep == 0)) [
    | inl none_asleep ↦ rw (some_left, none_asleep) (λ _ q. absurd (ground arith))
    | inr sleeper ↦ rw (some_left, sleeper) (λ _ _. omega arith)
  ]
  | inr none_left ↦ rw none_left (λ p. absurd (ground arith))
]

Step-Heeded : {s t : Semaphore} → Heeded s → Step s t → Heeded t
Step-Heeded {s} h (pass some_left) =
    notify-Heeded (record s { count = s.count - 1; taken = s.taken + 1 })
Step-Heeded h (sleep none_left) = λ p. absurd (omega arith)
Step-Heeded {s} h (resume _ _) =
    notify-Heeded (record s { woken = s.woken - 1; count = s.count - 1; taken = s.taken + 1 })
Step-Heeded h (relapse _ none_left) = λ p. absurd (omega arith)
Step-Heeded h (stir _) = λ _ _. omega arith
Step-Heeded {s} h post =
    notify-Heeded (record s { count = increment s.count; posted = s.posted + 1 })

pub no_lost_wakeup :
    {value : ℕ} {s : Semaphore} → Reach value s → 0 < s.count → 0 < s.asleep → 0 < s.woken
no_lost_wakeup start = λ _ p. absurd (omega arith)
no_lost_wakeup (later r st) = Step-Heeded (no_lost_wakeup r) st

-- what `notify` does not touch
notify-count :
    (s : Semaphore)
    → ((notify s).count ≡ s.count) × ((notify s).taken ≡ s.taken) × ((notify s).posted ≡ s.posted)
notify-count s = elim (Bool-cases (ltb 0 s.count)) [
  | inl some_left ↦ elim (Bool-cases (s.asleep == 0)) [
    | inl none_asleep ↦ rw (some_left, none_asleep) (refl, refl, refl)
    | inr sleeper ↦ rw (some_left, sleeper) (refl, refl, refl)
  ]
  | inr none_left ↦ rw none_left (refl, refl, refl)
]

-- In every reachable state in which the initial value and the calls of `post` are together below the
-- modulus of `size_t`, the count and the calls of `wait` that are over add up to them.
pub counted :
    {value : ℕ} {s : Semaphore}
    → Reach value s
    → value + s.posted < size_mod
    → s.count + s.taken ≡ value + s.posted
counted start small = omega arith
counted {value} (later {s = s} r (pass some_left)) small =
    let (c, t, p) = notify-count (record s { count = s.count - 1; taken = s.taken + 1 }) in
    omega (arith, c, t, p, small, counted r (omega (arith, p, small)))
counted (later r (sleep _)) small = counted r small
counted (later {s = s} r (resume woken some_left)) small =
    let (c, t, p) =
      notify-count (record s { woken = s.woken - 1; count = s.count - 1; taken = s.taken + 1 }) in
    omega (arith, c, t, p, small, counted r (omega (arith, p, small)))
counted (later r (relapse _ _)) small = counted r small
counted (later r (stir _)) small = counted r small
counted (later {s = s} r post) small =
    let (c, t, p) = notify-count (record s { count = increment s.count; posted = s.posted + 1 }) in
    omega (arith, c, t, p, small, counted r (omega (arith, p, small)))
