-- ===== src/Thread/Bodies.antt =====
-- The bodies of the two threads that test the lock, kernel/thread/init.c, as programs that take a step
-- when their thread runs.
pub mod Exclusion
use finux.Prelude.{ℕ, zero, suc, ◌+◌, ◌*◌, ◌/◌, ◌≡◌, Bool, true, false, if◌then◌else◌, update, List}
use finux.Prelude.Bits.{u8}
use finux.Display.{Screen, literal, dis_str}
use finux.Sched.{timer_ticks}
use finux.Sync.{lock_acquire}
use finux.Sync.Mutex.{System, shown, acquired, realsed}

-- Where a body is: before its text, in `lock_acquire`, between the acquire and the release with so
-- many rounds to go, or in the loop behind the release.
pub data Place : Type 0 where
  beginning : Place
  acquiring : Place
  counting : ℕ → Place
  finished : Place

-- The lock with its threads, and where the two bodies are.
pub record Demo : Type 0 where
  pub system : System
  pub place1 : Place
  pub place2 : Place

-- `incb %gs:(cell)`
abbrev pub incb : ℕ → System → System
incb cell s = let screen = s.kernel.screen in shown (update screen cell (u8 (screen cell + 1))) s

abbrev pub show : List ℕ → ℕ → System → System
show text row s = shown (dis_str text 0xb row 0 s.kernel.screen).1 s

abbrev pub has_lock : System → Bool
has_lock s = (lock_acquire s.lock s.kernel).0

abbrev pub rounds1 : ℕ
rounds1 = 21474800 / 2

-- One step of `test_lock1`; a round of the acquire that fails is done again.
unfoldable pub test_lock1_step : Place → System → Place × System
test_lock1_step beginning s = (acquiring, show (literal "in the test_lock1 thread") 1 s)
test_lock1_step acquiring s = (if has_lock s then counting rounds1 else acquiring, acquired s)
test_lock1_step (counting zero) s = (finished, realsed s)
test_lock1_step (counting (suc left)) s = (counting left, incb (160 + 40) s)
test_lock1_step finished s = (finished, incb (160 + 50) s)

-- One step of `test_lock2`, which never gives the lock back.
unfoldable pub test_lock2_step : Place → System → Place × System
test_lock2_step beginning s = (acquiring, show (literal "in the test_lock2 thread") 2 s)
test_lock2_step acquiring s = (if has_lock s then counting 0 else acquiring, acquired s)
test_lock2_step (counting left) s = (counting left, incb (160 + 160 + 40) s)
test_lock2_step finished s = (finished, s)

-- Whether it is between the acquire and the release.
abbrev pub in_lock : Place → Bool
in_lock (counting left) = true
in_lock _ = false

abbrev pub step1 : Demo → Demo
step1 d =
    let (place, system) = test_lock1_step d.place1 d.system in
    record d { system = system; place1 = place }

abbrev pub step2 : Demo → Demo
step2 d =
    let (place, system) = test_lock2_step d.place2 d.system in
    record d { system = system; place2 = place }

-- The loop of `init_thread`.
abbrev pub idle : Demo → Demo
idle d = record d { system = incb 40 d.system }

module _ (init_struct t1 t2 : ℕ) where
  -- The thread that runs takes a step, or the timer ticks.
  pub data DemoStep : Demo → Demo → Type 0 where
    runs1 : (d : Demo) → d.system.kernel.current_thread ≡ t1 → DemoStep d (step1 d)
    runs2 : (d : Demo) → d.system.kernel.current_thread ≡ t2 → DemoStep d (step2 d)
    idles : (d : Demo) → d.system.kernel.current_thread ≡ init_struct → DemoStep d (idle d)
    interrupted :
        (d : Demo) (n : ℕ)
        → DemoStep d
            (record d { system = record (d.system) { kernel = timer_ticks n d.system.kernel } })

  pub data DemoReach (d : Demo) : Demo → Type 0 where
    demo_start : DemoReach d d
    demo_later : {e f : Demo} → DemoReach d e → DemoStep e f → DemoReach d f
