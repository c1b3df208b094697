-- ===== src/Sched/Rotate.antt =====
-- One switch of the round robin.
use finux.Prelude.{
  ℕ, ◌+◌, ◌%◌, ◌^◌, ◌<◌, ◌≡◌, refl, Bool, true, false, inl, inr, List, [], ◌∷◌, ◌++◌, arith, ◌==◌,
  if◌then◌else◌, Bool-cases, ◌∉◌, has-append,
}
use finux.Prelude.Bits.{u32}
use finux.Links.Ring.{IsRing, SameOutside, next-first}
use finux.Links.Insert.{list_add_tail-IsRing}
use finux.Links.Remove.{list_del-head}
use finux.Sched.{elem_of, Kernel, run_next, make_ready, timer_handler}
use finux.Sched.Queue.{elems, IsReady, Runs, elems-append, All32-append, list_entry-elem_of}

-- The head of the ready list gets the processor and leaves the list.
pub run_next-IsReady :
    (k : Kernel) (t u : ℕ) (us : List ℕ)
    → k.ready_list ≡ elem_of t
    → t < 2 ^ 32
    → IsRing k.links (elem_of t) (elem_of u ∷ elems us)
    → IsReady (run_next k) (u ∷ us) × ((run_next k).current_thread ≡ t)
unfolding run_next
run_next-IsReady k t u us head small ring =
    rw (head, list_entry-elem_of t small) ((next-first ring.chain, (list_del-head ring).0), refl)

-- The thread that is made ready waits behind all others.
pub make_ready-IsReady :
    (k : Kernel) (r t : ℕ) (ts : List ℕ)
    → IsReady k (t ∷ ts)
    → elem_of r ∉ elems (t ∷ ts)
    → IsReady (make_ready (elem_of r) k) (t ∷ ts ++ r ∷ [])
      × SameOutside (elems (r ∷ t ∷ ts)) k.links (make_ready (elem_of r) k).links
unfolding make_ready
make_ready-IsReady k r t ts (head, ring) out =
    let added = list_add_tail-IsRing (elem_of r) ring out in
    ((head, rw (head, elems-append ts (r ∷ [])) added.0), rw head added.1)

-- The first of the queue runs, and the thread that ran waits behind the others.
pub switch-IsReady :
    (k : Kernel) (r t : ℕ) (ts : List ℕ)
    → IsReady k (t ∷ ts)
    → elem_of r ∉ elems (t ∷ ts)
    → t < 2 ^ 32
    → let k' = run_next (make_ready (elem_of r) k) in
      IsReady k' (ts ++ r ∷ []) × (k'.current_thread ≡ t)
switch-IsReady k r t [] ready out small =
    let (head, ring) = (make_ready-IsReady k r t [] ready out).0 in
    run_next-IsReady (make_ready (elem_of r) k) t r [] head small ring
switch-IsReady k r t (u ∷ us) ready out small =
    let (head, ring) = (make_ready-IsReady k r t (u ∷ us) ready out).0 in
    run_next-IsReady (make_ready (elem_of r) k) t u (us ++ r ∷ []) head small ring

-- Whether the next timer interrupt is the last of a time slice.
abbrev pub is_due : Kernel → Bool
is_due k = u32 (k.ticks + 1) % 20 == 0

switch-Runs :
    {k : Kernel} {r t : ℕ} {ts : List ℕ}
    → Runs k r (t ∷ ts)
    → Runs (run_next (make_ready (elem_of k.current_thread) k)) t (ts ++ r ∷ [])
unfolding run_next make_ready
switch-Runs {k} {r} {t} {ts} runs = rw runs.current (
    let (ready, current) = switch-IsReady k r t ts runs.ready runs.apart runs.small.1.0 in
    let ring = (runs.ready).1 in
    record {
      current = current;
      ready = ready;
      apart = ground (
        arith,
        elems-append ts (r ∷ []),
        has-append (elem_of t) (elems ts) (elem_of r ∷ []),
        ring.distinct,
        runs.apart,
      );
      small = (runs.small.1.0, All32-append ts (r ∷ []) runs.small.1.1 (runs.small.0, tt));
    })

abbrev pub ticked : Kernel → Kernel
ticked k = record k { ticks = u32 (k.ticks + 1) }

pub timer-due :
    (k : Kernel) (t : ℕ)
    → is_due k ≡ true
    → k.ready_list ≡ elem_of t
    → timer_handler k ≡ run_next (make_ready (elem_of k.current_thread) (ticked k))
unfolding timer_handler
timer-due k t due head =
    let some_ready : (k.ready_list == 0) ≡ false = ground arith in rw (due, some_ready)

run_next-ticks : (e : ℕ) (k : Kernel) → (run_next (make_ready e k)).ticks ≡ k.ticks
unfolding run_next make_ready
run_next-ticks e k = refl

Runs-ticked : {k : Kernel} {r : ℕ} {q : List ℕ} → Runs k r q → Runs (ticked k) r q
Runs-ticked {q = []} runs = absurd runs.ready
Runs-ticked {q = t ∷ ts} runs = record {
  current = runs.current;
  ready = runs.ready;
  apart = runs.apart;
  small = runs.small;
}

-- With a thread ready, a timer interrupt counts, and at the end of a slice of 20 it hands the
-- processor to the first thread of the queue and puts the running thread behind the others; else
-- nothing moves.
pub timer_handler-Runs :
    {k : Kernel} {r t : ℕ} {ts : List ℕ}
    → Runs k r (t ∷ ts)
    → ((timer_handler k).ticks ≡ u32 (k.ticks + 1))
      × Runs
          (timer_handler k)
          (if is_due k then t else r)
          (if is_due k then ts ++ r ∷ [] else t ∷ ts)
timer_handler-Runs {k} {r} {t} {ts} runs = elim (Bool-cases (is_due k)) [
  | inl due ↦
      rw (timer-due k t due runs.ready.0, due)
        (run_next-ticks (elem_of k.current_thread) (ticked k), switch-Runs (Runs-ticked runs))
  | inr not_due ↦ unfold timer_handler in rw not_due (refl, Runs-ticked runs)
]
