-- ===== src/Sync/Semaphore.antt =====
-- The waiters of a semaphore.
use finux.Prelude.{ℕ, ◌^◌, ◌<◌, ◌≡◌, refl, true, false, List, [], ◌∷◌, ◌++◌}
use finux.Prelude.Int.{negsuc, is_neg}
use finux.Sched.{Kernel}
use finux.Sync.{Sema, sema_acquire, sema_realse}
use finux.Sync.Queue.{Waits, gives_away, wake_first-Waits}

-- When two or more threads are ready, a thread that finds the semaphore below zero goes behind the
-- other waiters, and the first ready thread gets the processor, as for a lock.
pub sema_acquire-Waits :
    {k : Kernel} {lock : Sema} {r t u : ℕ} {us ws : List ℕ}
    → is_neg lock.value ≡ true
    → Waits k lock.list r (t ∷ u ∷ us) ws
    → let (acquired, lock', k') = sema_acquire lock k in
      (acquired ≡ false) × (lock' ≡ lock) × Waits k' lock.list t (u ∷ us) (ws ++ r ∷ [])
unfolding sema_acquire
sema_acquire-Waits {lock} busy waits = rw busy (refl, refl, gives_away lock.list false waits)

-- A release that brings the count to 0, while a thread waits and another is ready, puts the thread
-- that has waited longest behind the ready threads; the other waiters and the ready threads keep
-- their order.
pub sema_realse-Waits :
    {k : Kernel} {lock : Sema} {r t w : ℕ} {ts ws : List ℕ}
    → lock.value ≡ negsuc 0
    → w < 2 ^ 32
    → Waits k lock.list r (t ∷ ts) (w ∷ ws)
    → Waits (sema_realse lock k).1 lock.list r (t ∷ ts ++ w ∷ []) ws
unfolding sema_realse
sema_realse-Waits held small waits = rw held (wake_first-Waits waits small)
