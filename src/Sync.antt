-- ===== src/Sync.antt =====
-- The wrappers of the process-shared primitives (mutex.h, mutex.cpp), as one thread sees them between
-- the steps of others. The pthread and semaphore calls inside them are not part of the repository:
-- they are taken to succeed, and a call that would wait is `blocked`.
pub mod Semaphore
pub mod Primitives
mod Examples
use shared_memory_hashtable.Common.{
  ℕ, ◌+◌, ◌-◌, Bool, true, false, if◌then◌else◌, ◌==◌, Run, ok, fault, blocked, ◌≤◌, ◌≡◌, arith,
}

-- `PMutex::lock`, on whether the mutex is held
unfoldable pub lock : Bool → Run Bool
lock held = if held then fault blocked else ok true

-- `PMutex::unlock`
unfoldable pub unlock : Bool → Bool
unlock held = false

-- `CountingSemaphore::wait`
unfoldable pub wait : ℕ → Run ℕ
wait value = if value == 0 then fault blocked else ok (value - 1)

-- `CountingSemaphore::post`
unfoldable pub post : ℕ → ℕ
post value = value + 1

pub wait-pos : (n : ℕ) → 1 ≤ n → wait n ≡ ok (n - 1)
unfolding wait
wait-pos n h = ground arith
