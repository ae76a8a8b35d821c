-- ===== src/Sync/Primitives.antt =====
-- Making and destroying the primitives (mutex.h and mutex.cpp). Each call of the
-- pthread and semaphore libraries is known by the code that it returns, 0 for success. The calls that
-- set an attribute are taken to do so.
use shared_memory_hashtable.Common.{
  ℕ, ◌%◌, ◌^◌, Bool, true, false, if◌then◌else◌, ◌==◌, Run, ok, fault, exited,
}

pub data Platform : Type 0 where
  apple : Platform
  posix : Platform

-- `PMutex`: whether its handle is initialised, and for use between processes
pub record Mutex : Type 0 where
  pub live : Bool
  pub shared : Bool
  pub locked : Bool

-- `CountingSemaphore`: `live` is about `_cond` on macOS and `_sem` on POSIX systems
pub record CountingSemaphore : Type 0 where
  pub mutex : Mutex
  pub live : Bool
  pub count : ℕ

-- `if((errno = call) != 0) { …; std::exit(-1); }`
abbrev pub checked {ℓ} : {A : Type ℓ} → ℕ → A → Run A
checked code a = if code == 0 then ok a else fault exited

-- `PMutex::PMutex`
unfoldable pub new_mutex : ℕ → Run Mutex
new_mutex init_code = checked init_code (record { live = true; shared = true; locked = false })

-- `PMutex::~PMutex`
unfoldable pub delete_mutex : ℕ → Mutex → Run Mutex
delete_mutex destroy_code m = checked destroy_code (record m { live = false })

-- `CountingSemaphore::CountingSemaphore`: the second code is that of `pthread_cond_init` or `sem_init`
unfoldable pub new_semaphore : ℕ → ℕ → ℕ → Run CountingSemaphore
new_semaphore mutex_code code value =
    if mutex_code == 0
    then checked code (record {
      mutex = record { live = true; shared = true; locked = false };
      live = true;
      count = value;
    })
    else fault exited

-- `CountingSemaphore::~CountingSemaphore`
pub delete_semaphore : ℕ → ℕ → CountingSemaphore → Run CountingSemaphore
delete_semaphore mutex_code code s =
    if mutex_code == 0
    then checked code (record s { mutex = record (s.mutex) { live = false }; live = false })
    else fault exited

-- `CountingSemaphore::current_value`, cast to a 32-bit number: on POSIX systems `sem_getvalue` may fail
pub current_value : Platform → ℕ → CountingSemaphore → Run ℕ
current_value Platform.apple code s = ok (s.count % 2 ^ 32)
current_value Platform.posix code s = checked code (s.count % 2 ^ 32)
