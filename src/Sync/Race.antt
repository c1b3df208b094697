-- ===== src/Sync/Race.antt =====
-- An acquire that a timer interrupt cuts in two: interrupts are on between the test of the count
-- and its decrement.
use finux.Prelude.{ℕ, ◌≡◌, refl, ap, Bool, true, false, List, [], ◌∷◌, arith, ◌∈◌}
use finux.Prelude.Int.{pos, negsuc, pred, is_neg}
use finux.Sched.{Kernel, timer_ticks}
use finux.Sched.Queue.{Runs}
use finux.Sched.Slices.{AtSlice, slice}
use finux.Sync.{Lock, lock_acquire}
use finux.Sync.Mutex.{without}

-- The test of the `while` loop.
abbrev pub lock_test : Lock → Bool
lock_test lock = is_neg lock.value

-- `lock->value--`
abbrev pub lock_take : Lock → Lock
lock_take lock = record lock { value = pred lock.value }

-- The two together, without an interrupt between them, are a round that acquires the lock.
lock_acquire-lock_take :
    (lock : Lock) (k : Kernel)
    → lock_test lock ≡ false
    → lock_acquire lock k ≡ (true, lock_take lock, k)
unfolding lock_acquire
lock_acquire-lock_take lock k passed = rw passed refl

-- The threads behind the test, and those that hold the lock.
pub record Cut : Type 0 where
  pub lock : Lock
  pub kernel : Kernel
  pub behind_test : List ℕ
  pub holders : List ℕ

-- The steps of the running thread `t`: the test lets it pass, or it goes on behind the test.
pub data CutStep : Cut → Cut → Type 0 where
  tests :
      (s : Cut) (t : ℕ)
      → s.kernel.current_thread ≡ t
      → lock_test s.lock ≡ false
      → CutStep s (record s { behind_test = t ∷ s.behind_test })
  takes :
      (s : Cut) (t : ℕ)
      → s.kernel.current_thread ≡ t
      → t ∈ s.behind_test
      → CutStep s (record s {
        lock = lock_take s.lock;
        behind_test = without t s.behind_test;
        holders = t ∷ s.holders;
      })
  ticks : (s : Cut) (n : ℕ) → CutStep s (record s { kernel = timer_ticks n s.kernel })

pub data CutReach (s : Cut) : Cut → Type 0 where
  start : CutReach s s
  later : {t u : Cut} → CutReach s t → CutStep t u → CutReach s u

-- A run of two threads: `a` tests, its slice ends, `b` tests and takes the lock, its slice ends, and
-- `a` takes the lock too.
module _ (a b : ℕ) (k : Kernel) (lock : Lock) where
  abbrev k1 : Kernel
  k1 = timer_ticks 20 k

  abbrev k2 : Kernel
  k2 = timer_ticks 20 k1

  abbrev cut : Kernel → Lock → List ℕ → List ℕ → Cut
  cut kernel lock behind holders = record {
    lock = lock;
    kernel = kernel;
    behind_test = behind;
    holders = holders;
  }

  -- If the lock is free, `a` runs at the start of a time slice and `b` is the ready thread, both can
  -- come to hold the lock, with the count at -2, when the timer interrupt comes between the test and
  -- the decrement of an acquire.
  pub lock_acquire-both_hold :
      lock.value ≡ pos 0
      → AtSlice 40 k
      → Runs k a (b ∷ [])
      → (s : Cut) × CutReach (record { lock = lock; kernel = k; behind_test = []; holders = [] }) s
        × (s.holders ≡ a ∷ b ∷ [])
        × (s.lock.value ≡ negsuc 1)
  lock_acquire-both_hold free at runs =
      let first = slice (record { whole = at.whole; room = omega (arith, at.room) }) runs in
      let second =
        slice
          (record {
            whole = omega (arith, first.counted, at.whole);
            room = omega (arith, first.counted, at.room);
          })
          first.runs in
      let passes : lock_test lock ≡ false = ap is_neg free in
      let taken = lock_take lock in
      let a_tests = tests (cut k lock [] []) a runs.current passes in
      let b_tests = tests (cut k1 lock (a ∷ []) []) b first.runs.current passes in
      let b_takes = takes (cut k1 lock (b ∷ a ∷ []) []) b first.runs.current (ground arith) in
      let left : without b (b ∷ a ∷ []) ≡ a ∷ [] = ground arith in
      let a_takes = takes (cut k2 taken (a ∷ []) (b ∷ [])) a second.runs.current (ground arith) in
      (
        _,
        later
            (later
              (rw left at (
                later
                  (later (later (later start a_tests) (ticks (cut k lock (a ∷ []) []) 20)) b_tests)
                  b_takes))
              (ticks (cut k1 taken (a ∷ []) (b ∷ [])) 20))
            a_takes,
        refl,
        ap (λ v. pred (pred v)) free,
      )
