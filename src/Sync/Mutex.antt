-- ===== src/Sync/Mutex.antt =====
-- Threads that share one lock, as a step relation: who is between `lock_acquire` and `lock_realse`.
use finux.Prelude.{
  ℕ, ◌≡◌, refl, ◌∙◌, ap, true, false, if◌then◌else◌, List, [], ◌∷◌, arith, ◌==◌, ◌∈◌,
}
use finux.Prelude.Int.{pos, negsuc, pred, succ, is_neg}
use finux.Display.{Screen}
use finux.Sched.{Kernel, timer_ticks}
use finux.Sync.{Lock, get_lock, lock_acquire, lock_realse}

pub record System : Type 0 where
  pub lock : Lock
  pub kernel : Kernel
  pub holders : List ℕ

-- The list without the first `t`.
abbrev pub without : ℕ → List ℕ → List ℕ
without t [] = []
without t (x ∷ xs) = if x == t then xs else x ∷ without t xs

-- The thread that runs does a round of an acquire.
abbrev pub acquired : System → System
acquired s =
    let (got, lock, kernel) = lock_acquire s.lock s.kernel in
    record {
      lock = lock;
      kernel = kernel;
      holders = if got then s.kernel.current_thread ∷ s.holders else s.holders;
    }

-- It gives the lock back.
abbrev pub realsed : System → System
realsed s =
    let (lock, kernel) = lock_realse s.lock s.kernel in
    record { lock = lock; kernel = kernel; holders = without s.kernel.current_thread s.holders }

-- It writes to the screen.
abbrev pub shown : Screen → System → System
shown screen s = record s { kernel = record (s.kernel) { screen = screen } }

-- The steps when no interrupt comes inside of the two functions: only holders give the lock back,
-- and the timer ticks between the calls.
pub data Step : System → System → Type 0 where
  acquires : (s : System) → Step s (acquired s)
  realses : (s : System) → s.kernel.current_thread ∈ s.holders → Step s (realsed s)
  ticks : (s : System) (n : ℕ) → Step s (record s { kernel = timer_ticks n s.kernel })
  shows : (s : System) (screen : Screen) → Step s (shown screen s)

pub data Reach (s : System) : System → Type 0 where
  start : Reach s s
  later : {t u : System} → Reach s t → Step t u → Reach s u

-- The lock is free and nobody holds it, or one thread holds it and the count is -1.
pub data Exclusive : System → Type 0 where
  free : {s : System} → s.lock.value ≡ pos 0 → s.holders ≡ [] → Exclusive s
  held : {s : System} (h : ℕ) → s.lock.value ≡ negsuc 0 → s.holders ≡ h ∷ [] → Exclusive s

pub lock_acquire-free :
    (lock : Lock) (k : Kernel)
    → lock.value ≡ pos 0
    → ((lock_acquire lock k).0 ≡ true) × ((lock_acquire lock k).1.value ≡ negsuc 0)
unfolding lock_acquire
lock_acquire-free lock k count =
    let not_taken : is_neg lock.value ≡ false = ap is_neg count in
    rw not_taken (refl, ap pred count)

pub lock_acquire-held :
    (lock : Lock) (k : Kernel)
    → lock.value ≡ negsuc 0
    → ((lock_acquire lock k).0 ≡ false) × ((lock_acquire lock k).1.value ≡ negsuc 0)
unfolding lock_acquire
lock_acquire-held lock k count =
    let taken : is_neg lock.value ≡ true = ap is_neg count in rw taken (refl, count)

lock_realse-value : (lock : Lock) (k : Kernel) → (lock_realse lock k).0.value ≡ succ lock.value
unfolding lock_realse
lock_realse-value lock k = refl

acquired-Exclusive : (s : System) → Exclusive s → Exclusive (acquired s)
acquired-Exclusive s (free count nobody) =
    let (got, now) = lock_acquire-free s.lock s.kernel count in
    held s.kernel.current_thread now (rw (got, nobody) refl)
acquired-Exclusive s (held h count one) =
    let (got, now) = lock_acquire-held s.lock s.kernel count in held h now (rw (got, one) refl)

realsed-Exclusive :
    (s : System) → s.kernel.current_thread ∈ s.holders → Exclusive s → Exclusive (realsed s)
realsed-Exclusive s holds (free count nobody) = absurd (ground (arith, nobody, holds))
realsed-Exclusive s holds (held h count one) =
    let holds_h : (s.kernel.current_thread ∈ (h ∷ [])) = rw one at holds in
    let same : (h == s.kernel.current_thread) ≡ true = ground (arith, holds_h) in
    free (lock_realse-value s.lock s.kernel ∙ ap succ count) (rw (one, same) refl)

Step-Exclusive : {s t : System} → Step s t → Exclusive s → Exclusive t
Step-Exclusive (acquires s) exclusive = acquired-Exclusive s exclusive
Step-Exclusive (realses s holds) exclusive = realsed-Exclusive s holds exclusive
Step-Exclusive (ticks s n) (free count nobody) = free count nobody
Step-Exclusive (ticks s n) (held h count one) = held h count one
Step-Exclusive (shows s screen) (free count nobody) = free count nobody
Step-Exclusive (shows s screen) (held h count one) = held h count one

pub Reach-from : {s t : System} → Reach s t → Exclusive s → Exclusive t
Reach-from start exclusive = exclusive
Reach-from (later reach step) exclusive = Step-Exclusive step (Reach-from reach exclusive)

-- From a lock that `get_lock` has set up, whatever the ready list and the waiters are, every sequence
-- of acquire rounds of the running thread, releases by holders, writes to the screen and timer ticks
-- between them keeps the lock exclusive: the count is 0 and no thread holds it, or the count is -1 and one does.
pub Reach-Exclusive :
    (lock : Lock) (k : Kernel) (t : System)
    → Reach (record { lock = (get_lock lock k).0; kernel = (get_lock lock k).1; holders = [] }) t
    → Exclusive t
unfolding get_lock
Reach-Exclusive lock k t reach = Reach-from reach (free refl refl)
