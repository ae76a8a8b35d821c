-- ===== src/Sync/Examples.antt =====
-- The theorems on the semaphore of macOS at a run: two threads sleep, and a call of `post` wakes one.
use shared_memory_hashtable.Common.{◌+◌, ◌<◌, ◌≡◌, refl, arith}
use shared_memory_hashtable.Sync.Semaphore.{
  Semaphore, Reach, start, later, sleep, post, counted, no_lost_wakeup,
}

abbrev reached : (s : Semaphore) × Reach 0 s × (s.count ≡ 1) × (s.asleep ≡ 1) × (s.posted ≡ 1)
reached = (_, later (later (later start (sleep refl)) (sleep refl)) post, refl, refl, refl)

no_lost_wakeup_example : 0 < reached.0.woken
no_lost_wakeup_example = no_lost_wakeup reached.1 (omega arith) (omega arith)

counted_example : reached.0.count + reached.0.taken ≡ 0 + reached.0.posted
counted_example = counted reached.1 (omega arith)
