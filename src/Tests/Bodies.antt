-- ===== src/Tests/Bodies.antt =====
-- The two test threads on a lock that is free.
use finux.Prelude.{◌≡◌, refl, true, arith}
use finux.Sync.{get_lock}
use finux.Sync.Mutex.{Exclusive}
use finux.Thread.Bodies.{
  beginning, Demo, test_lock1_step, in_lock, step1, runs1, demo_start, demo_later,
}
use finux.Thread.Bodies.Exclusion.{IsNew, test_locks-Exclusive}
use finux.Tests.Mutex.{initial}

-- Thread 1000 is that of `test_lock1` and runs; 2000 is that of `test_lock2`, and 3000 the first one.
abbrev demo : Demo
demo = record { system = initial; place1 = beginning; place2 = beginning }

demo-IsNew : IsNew 3000 1000 2000 demo
unfolding get_lock
demo-IsNew = record { value = refl; nobody = refl; place1 = refl; place2 = refl }

-- `test_lock1` has the lock when the time slice ends.
test_locks-Exclusive_example :
    let e = step1 (step1 demo) in
    Exclusive e.system × ¬ ((in_lock e.place1 ≡ true) × (in_lock e.place2 ≡ true))
unfolding test_lock1_step get_lock
test_locks-Exclusive_example =
    test_locks-Exclusive 3000 1000 2000 demo (step1 (step1 demo)) (omega arith) demo-IsNew
      (demo_later (demo_later demo_start (runs1 demo refl)) (runs1 (step1 demo) refl))
