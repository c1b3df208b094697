-- ===== src/Tests/Sched.antt =====
-- The scheduler with the running thread 1000 and the queue of 2000 and 3000.
use finux.Prelude.{ℕ, ◌≡◌, refl, true, [], ◌∷◌, update, arith}
use finux.Links.Ring.{is_chain-Chain}
use finux.Sched.{Kernel, timer_handler, timer_ticks, thread_yield, make_ready}
use finux.Sched.Queue.{Runs}
use finux.Sched.Slices.{AtSlice, timer_ticks-Runs}
use finux.Sched.Yield.{Solo, thread_yield-Runs, wakeup_lost}

abbrev two_ready : ℕ → Kernel
two_ready ticks = record {
  links = record {
    next = update (update (λ a. 0) 2032 3032) 3032 2032;
    prev = update (update (λ a. 0) 2032 3032) 3032 2032;
  };
  ready_list = 2032;
  ready_thread = 0;
  current_thread = 1000;
  ticks = ticks;
  interrupts = true;
  screen = λ a. 0;
}

two_ready-Runs : (ticks : ℕ) → Runs (two_ready ticks) 1000 (2000 ∷ 3000 ∷ [])
two_ready-Runs ticks = record {
  current = refl;
  ready = (
    refl,
    record {
      chain = is_chain-Chain (two_ready ticks).links 2032 (3032 ∷ []) 2032 refl;
      distinct = (refl, (refl, tt));
    },
  );
  apart = refl;
  small = (omega arith, (omega arith, (omega arith, tt)));
}

two_ready-AtSlice : AtSlice 40 (two_ready 20)
two_ready-AtSlice = record { whole = refl; room = omega arith }

timer_ticks-Runs_example : Runs (timer_ticks 40 (two_ready 20)) 3000 (1000 ∷ 2000 ∷ [])
timer_ticks-Runs_example = timer_ticks-Runs (2000 ∷ []) [] two_ready-AtSlice (two_ready-Runs 20)

thread_yield-Runs_example :
    Runs (thread_yield (two_ready 0)) 2000 (3000 ∷ [])
    × ((thread_yield (two_ready 0)).interrupts ≡ true)
thread_yield-Runs_example = thread_yield-Runs (two_ready-Runs 0)

abbrev one_ready : ℕ → Kernel
one_ready ticks = record (two_ready ticks) { links = record { next = λ a. 2032; prev = λ a. 2032 } }

abbrev solo : Kernel
solo = record (one_ready 19) { current_thread = 2000 }

solo-Solo : Solo solo 2000
solo-Solo = record { current = refl; head = refl; forth = refl; back = refl }

wakeup_lost_example : Solo (timer_ticks 1000 (timer_handler (make_ready 4032 solo))) 2000
wakeup_lost_example = wakeup_lost 1000 2000 4032 solo-Solo (omega arith) (omega arith) refl
