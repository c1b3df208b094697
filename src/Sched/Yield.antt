-- ===== src/Sched/Yield.antt =====
-- What the yield does with the queue and with its caller.
use finux.Prelude.{
  ℕ, zero, suc, ◌^◌, ◌<◌, ◌≡◌, ◌≢◌, refl, true, inl, inr, ◌∙◌, Bool-cases, List, [], ◌∷◌, arith,
  ◌∉◌,
}
use finux.Links.{list_del, list_add_tail, unlink, init_list_head, link_between}
use finux.Links.Ring.{SameOutside, next-alone, prev-alone}
use finux.Links.Remove.{list_del-SameOutside}
use finux.Sched.{
  elem_of, Kernel, run_next, make_ready, timer_handler, timer_ticks, yield_thread, thread_yield,
  syscall_handler,
}
use finux.Sched.Queue.{elems, Runs, list_entry-elem_of}
use finux.Sched.Rotate.{is_due, ticked, timer-due, run_next-IsReady}

-- A yield with two or more ready threads runs the first of them, keeps the order of the others,
-- and puts the caller `r` in no place of the queue.
pub yield_thread-Runs :
    {k : Kernel} {r t u : ℕ} {us : List ℕ}
    → Runs k r (t ∷ u ∷ us)
    → Runs (yield_thread k) t (u ∷ us) × (elem_of r ∉ elems (t ∷ u ∷ us))
unfolding yield_thread
yield_thread-Runs {k} {r} {t} {u} {us} runs =
    let (head, ring) = runs.ready in
    let (ready, current) = run_next-IsReady k t u us head runs.small.1.0 ring in
    (
      record { current = current; ready = ready; apart = ring.distinct.0; small = runs.small.1 },
      runs.apart,
    )

-- `READY_LIST` points to the running thread itself, which is alone in its ring.
pub record Solo (k : Kernel) (t : ℕ) : Type 0 where
  pub current : k.current_thread ≡ t
  pub head : k.ready_list ≡ elem_of t
  pub forth : k.links.next (elem_of t) ≡ elem_of t
  pub back : k.links.prev (elem_of t) ≡ elem_of t

Solo-ticked : {k : Kernel} {t : ℕ} → Solo k t → Solo (ticked k) t
Solo-ticked solo = record {
  current = solo.current;
  head = solo.head;
  forth = solo.forth;
  back = solo.back;
}

-- A yield when only the thread `t` is ready runs `t` and leaves READY_LIST pointing to `t`, alone
-- in its ring.
pub yield_thread-Solo : {k : Kernel} {r t : ℕ} → Runs k r (t ∷ []) → Solo (yield_thread k) t
unfolding yield_thread run_next list_del unlink init_list_head
yield_thread-Solo {k} {r} {t} runs =
    let e = list_entry-elem_of t runs.small.1.0 in
    let forth = next-alone runs.ready.1.chain in
    let back = prev-alone runs.ready.1.chain in
    rw (runs.ready.0, e)
      (record {
        current = refl;
        head = ground (arith, forth);
        forth = ground arith;
        back = ground arith;
      })

requeued-Solo :
    (e t : ℕ) (k : Kernel)
    → t < 2 ^ 32
    → k.ready_list ≡ elem_of t
    → (make_ready e k).links.next (elem_of t) ≡ elem_of t
    → Solo (run_next (make_ready e k)) t
unfolding run_next make_ready list_del unlink init_list_head
requeued-Solo e t k small head forth =
    rw (head, list_entry-elem_of t small)
      (record {
        current = refl;
        head = rw head at forth;
        forth = ground arith;
        back = ground arith;
      })

-- Putting a thread that is alone behind itself leaves it alone.
readied_self :
    {k : Kernel} (t : ℕ)
    → Solo k t
    → (make_ready (elem_of k.current_thread) (ticked k)).links.next (elem_of t) ≡ elem_of t
unfolding make_ready list_add_tail link_between
readied_self t solo = ground (arith, solo.head, solo.forth, solo.back)

-- The second `list_add_tail` puts the running thread behind a thread that waits behind it.
readied_twice :
    {k : Kernel} (t w : ℕ)
    → Solo k t
    → w ≢ elem_of t
    → let k' = make_ready w k in
      (make_ready (elem_of k'.current_thread) (ticked k')).links.next (elem_of t) ≡ elem_of t
unfolding make_ready list_add_tail link_between
readied_twice t w solo other = ground (arith, solo.head, solo.forth, solo.back, solo.current)

-- A timer interrupt does not move the processor from a thread that is alone in this way.
timer_handler-Solo : {k : Kernel} (t : ℕ) → t < 2 ^ 32 → Solo k t → Solo (timer_handler k) t
timer_handler-Solo {k} t small solo = elim (Bool-cases (is_due k)) [
  | inl due ↦
      rw (timer-due k t due solo.head)
        (requeued-Solo _ t (ticked k) small solo.head (readied_self t solo))
  | inr not_due ↦ unfold timer_handler in rw not_due (Solo-ticked solo)
]

timer_ticks-Solo : (n : ℕ) {k : Kernel} (t : ℕ) → t < 2 ^ 32 → Solo k t → Solo (timer_ticks n k) t
unfolding timer_ticks
timer_ticks-Solo zero t small solo = solo
timer_ticks-Solo (suc n) t small solo = timer_handler-Solo t small (timer_ticks-Solo n t small solo)

make_ready-head : (e : ℕ) (k : Kernel) → (make_ready e k).ready_list ≡ k.ready_list
unfolding make_ready
make_ready-head e k = refl

make_ready-is_due : (e : ℕ) (k : Kernel) → is_due (make_ready e k) ≡ is_due k
unfolding make_ready
make_ready-is_due e k = refl

-- When READY_LIST points to the running thread `t`, alone in its ring, then a thread that is made
-- ready just before the timer interrupt that ends the slice is lost: `t` keeps the processor for
-- good, alone in its ring, however many interrupts come.
pub wakeup_lost :
    {k : Kernel} (n t w : ℕ)
    → Solo k t
    → t < 2 ^ 32
    → w ≢ elem_of t
    → is_due k ≡ true
    → Solo (timer_ticks n (timer_handler (make_ready w k))) t
wakeup_lost {k} n t w solo small other due =
    let k' = make_ready w k in
    let head = make_ready-head w k ∙ solo.head in
    timer_ticks-Solo n t small (
      rw (timer-due k' t (make_ready-is_due w k ∙ due) head)
        (requeued-Solo _ t (ticked k') small head (readied_twice t w solo other)))

-- The yield system call, with two or more ready threads, runs the first of them, keeps the order of
-- the others, and returns with interrupts on.
pub thread_yield-Runs :
    {k : Kernel} {r t u : ℕ} {us : List ℕ}
    → Runs k r (t ∷ u ∷ us)
    → Runs (thread_yield k) t (u ∷ us) × ((thread_yield k).interrupts ≡ true)
unfolding thread_yield syscall_handler yield_thread run_next
thread_yield-Runs {k} {r} {t} {u} {us} runs =
    let after : Runs (yield_thread k) t (u ∷ us) = (yield_thread-Runs runs).0 in
    (
      record {
        current = after.current;
        ready = after.ready;
        apart = after.apart;
        small = after.small;
      },
      refl,
    )

-- It takes the thread that it runs out of the ready list, and links no other node anew.
pub thread_yield-SameOutside :
    {k : Kernel} {r t : ℕ} {ts : List ℕ}
    → Runs k r (t ∷ ts)
    → SameOutside (elems (t ∷ ts)) k.links (thread_yield k).links
unfolding thread_yield syscall_handler yield_thread run_next
thread_yield-SameOutside {t} runs =
    rw (runs.ready.0, list_entry-elem_of t runs.small.1.0) (list_del-SameOutside runs.ready.1)
