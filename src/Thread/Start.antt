-- ===== src/Thread/Start.antt =====
-- The queues that `init_thread` sets up for the scheduler.
use finux.Prelude.{ℕ, ◌^◌, ◌<◌, ◌≡◌, refl, arith, [], ◌∷◌, Distinct, some, true}
use finux.Prelude.Int.{pos}
use finux.Links.{init_list_head, list_add_tail, link_between}
use finux.Links.Ring.{last, step}
use finux.Page.{Pages, get_pages, got}
use finux.Sched.Queue.{elems}
use finux.Sync.{get_lock}
use finux.Sync.Queue.{Waits}
use finux.Thread.{
  Globals, Threads, get_pid, fill_thread, fill_creat, start_threads, init_thread, init_elem,
  running_text,
}
use finux.Thread.Creation.{thread_creat_got}
use finux.Display.{literal, dis_str}

-- The four calls of the allocator, and where they lead.
pub record Allocates (s : Threads) (t1 u1 t2 u2 : ℕ) : Type 0 where
  pub pages1 : Pages
  pub pages2 : Pages
  pub pages3 : Pages
  pub pages4 : Pages
  pub first_thread : get_pages 1 s.pages ≡ got t1 pages1
  pub first_stack : get_pages 3 pages1 ≡ got u1 pages2
  pub second_thread : get_pages 1 pages2 ≡ got t2 pages3
  pub second_stack : get_pages 3 pages3 ≡ got u2 pages4

-- The state before the endless loop.
pub record Started (globals : Globals) (list t1 t2 : ℕ) (s : Threads) : Type 0 where
  pub waits : Waits s.kernel list globals.init_struct (t1 ∷ t2 ∷ []) []
  pub free : s.test_lock.value ≡ pos 0
  pub at : s.test_lock.list ≡ list
  pub interrupts : s.kernel.interrupts ≡ true

module _ (globals : Globals) (s : Threads) (list t1 t2 : ℕ) where
  abbrev started : Threads
  started = start_threads globals t1 t2 (init_elem t2 (init_elem t1 s))

  started-Started :
      s.test_lock.list ≡ list
      → Distinct (list ∷ elems (globals.init_struct ∷ t1 ∷ t2 ∷ []))
      → globals.init_struct < 2 ^ 32
      → t1 < 2 ^ 32
      → t2 < 2 ^ 32
      → Started globals list t1 t2 started
  unfolding start_threads get_lock init_list_head list_add_tail link_between
  started-Started at apart small small1 small2 = record {
    waits = record {
      runs = record {
        current = refl;
        ready = (
          refl,
          record {
            chain =
                step (record { forth = ground arith; back = ground arith })
                  (last (record { forth = ground arith; back = ground arith }));
            distinct = ground arith;
          },
        );
        apart = ground arith;
        small = (small, (small1, (small2, tt)));
      };
      ring = record {
        chain = last (record { forth = ground arith; back = ground arith });
        distinct = (refl, tt);
      };
      apart = λ a i. ground arith;
    };
    free = refl;
    at = at;
    interrupts = refl;
  }

-- If the allocator gives each thread its pages, then `init_thread` reaches its endless loop as the
-- running thread, with the two threads ready in the order of their creation, and with a free lock
-- that nobody waits for. The three threads, and the lock's list, stand at different addresses
-- below 2^32.
pub init_thread-Started :
    (globals : Globals) (s : Threads) (t1 u1 t2 u2 : ℕ)
    → Allocates s t1 u1 t2 u2
    → Distinct (s.test_lock.list ∷ elems (globals.init_struct ∷ t1 ∷ t2 ∷ []))
    → globals.init_struct < 2 ^ 32
    → t1 < 2 ^ 32
    → t2 < 2 ^ 32
    → (s' : Threads) × (init_thread globals s ≡ some s') × Started globals s.test_lock.list t1 t2 s'
unfolding init_thread fill_creat fill_thread get_pid start_threads get_lock
init_thread-Started globals s t1 u1 t2 u2 pages apart small small1 small2 =
    let s1 : Threads = record s {
      kernel = record (s.kernel) {
        screen = (dis_str (running_text globals) 0xb 0 0 s.kernel.screen).1;
      };
    } in
    let name1 = literal "test_LOCK1" in
    let name2 = literal "test_LOCK2" in
    let first =
      thread_creat_got globals name1 globals.test_lock1 s1 pages.first_thread pages.first_stack in
    let s2 : Threads =
      fill_creat globals name1 globals.test_lock1 t1 u1 (record s1 { pages = pages.pages2 }) in
    let second =
      thread_creat_got globals name2 globals.test_lock2 s2 pages.second_thread pages.second_stack in
    let s3 : Threads = record s1 {
      kernel = record (s1.kernel) { current_thread = globals.init_struct };
    } in
    let ready = started-Started globals s3 s.test_lock.list t1 t2 refl apart small small1 small2 in
    rw (first, second)
      (
        _,
        refl,
        record {
          waits = ready.waits;
          free = ready.free;
          at = ready.at;
          interrupts = ready.interrupts;
        },
      )
