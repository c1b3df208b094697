-- ===== src/Tests/Mutex.antt =====
-- Runs of threads that share a lock.
use finux.Prelude.{◌≡◌, refl, true, [], ◌∷◌, arith}
use finux.Prelude.Int.{pos, negsuc}
use finux.Links.Ring.{is_chain-Chain}
use finux.Sched.{Kernel, timer_ticks}
use finux.Sched.Queue.{Runs}
use finux.Sync.{Lock, get_lock}
use finux.Sync.Mutex.{System, acquired, acquires, ticks, start, later, Exclusive, Reach-Exclusive}
use finux.Sync.Race.{Cut, CutReach, lock_acquire-both_hold}

-- Thread 1000 runs and thread 2000 is ready.
abbrev pub two_threads : Kernel
two_threads = record {
  links = record { next = λ a. 2032; prev = λ a. 2032 };
  ready_list = 2032;
  ready_thread = 0;
  current_thread = 1000;
  ticks = 20;
  interrupts = true;
  screen = λ a. 0;
}

abbrev pub lock : Lock
lock = record { value = pos 0; list = 4000 }

abbrev pub initial : System
initial = record {
  lock = (get_lock lock two_threads).0;
  kernel = (get_lock lock two_threads).1;
  holders = [];
}

abbrev ticked : System
ticked = record (acquired initial) { kernel = timer_ticks 20 (acquired initial).kernel }

Reach-Exclusive_example : Exclusive (acquired ticked)
Reach-Exclusive_example =
    Reach-Exclusive lock two_threads (acquired ticked) (
      later (later (later start (acquires initial)) (ticks (acquired initial) 20))
        (acquires ticked))

pub two_threads-Runs : Runs two_threads 1000 (2000 ∷ [])
two_threads-Runs = record {
  current = refl;
  ready = (
    refl,
    record { chain = is_chain-Chain two_threads.links 2032 [] 2032 refl; distinct = (refl, tt) },
  );
  apart = refl;
  small = (omega arith, (omega arith, tt));
}

lock_acquire-both_hold_example :
    (s : Cut) × CutReach
      (record { lock = lock; kernel = two_threads; behind_test = []; holders = [] })
      s
    × (s.holders ≡ 1000 ∷ 2000 ∷ [])
    × (s.lock.value ≡ negsuc 1)
lock_acquire-both_hold_example =
    lock_acquire-both_hold 1000 2000 two_threads lock refl
      (record { whole = refl; room = omega arith }) two_threads-Runs
