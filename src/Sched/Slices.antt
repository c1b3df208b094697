-- ===== src/Sched/Slices.antt =====
-- Whole time slices: every thread of the queue gets the processor in turn.
use Prim.Native.Nat.add
use mathlib.Core.List.{append_assoc}
use finux.Prelude.{
  ℕ, zero, suc, ◌+◌, ◌*◌, ◌%◌, ◌^◌, ◌<◌, ◌≡◌, refl, true, false, List, [], ◌∷◌, ◌++◌, arith, length,
}
use finux.Sched.{Kernel, timer_handler, timer_ticks}
use finux.Sched.Queue.{Runs}
use finux.Sched.Rotate.{is_due, timer_handler-Runs}

-- The counter stands at the start of a slice, and `n` more ticks do not wrap it.
pub record AtSlice (n : ℕ) (k : Kernel) : Type 0 where
  pub whole : k.ticks % 20 ≡ 0
  pub room : k.ticks + n < 2 ^ 32

timer_ticks-add : (a b : ℕ) (k : Kernel) → timer_ticks (a + b) k ≡ timer_ticks a (timer_ticks b k)
unfolding timer_ticks
timer_ticks-add zero b k = rw add.zero
timer_ticks-add (suc a) b k = rw (add.suc, timer_ticks-add a b k)

-- The kernel after `n` ticks.
pub record Ticked (n : ℕ) (k k' : Kernel) (r : ℕ) (q : List ℕ) : Type 0 where
  pub counted : k'.ticks ≡ k.ticks + n
  pub runs : Runs k' r q

-- Within a slice nothing moves.
inside_slice :
    (n : ℕ) {k : Kernel} {r t : ℕ} {ts : List ℕ}
    → n < 20
    → AtSlice n k
    → Runs k r (t ∷ ts)
    → Ticked n k (timer_ticks n k) r (t ∷ ts)
unfolding timer_ticks
inside_slice zero lt at runs = record { counted = omega arith; runs = runs }
inside_slice (suc n) {k} {r} {t} {ts} lt at runs =
    let before =
      inside_slice n (omega arith) (record { whole = at.whole; room = omega arith }) runs in
    let not_due : is_due (timer_ticks n k) ≡ false = ground (arith, before.counted) in
    let (counted, after) = timer_handler-Runs before.runs in
    record { counted = ground (arith, before.counted, counted); runs = rw not_due at after }

-- A slice of 20 ticks is one switch.
pub slice :
    {k : Kernel} {r t : ℕ} {ts : List ℕ}
    → AtSlice 20 k
    → Runs k r (t ∷ ts)
    → Ticked 20 k (timer_ticks 20 k) t (ts ++ r ∷ [])
slice {k} at runs =
    let before =
      inside_slice 19 (omega arith) (record { whole = at.whole; room = omega arith }) runs in
    let due : is_due (timer_ticks 19 k) ≡ true = ground (arith, before.counted, at.whole) in
    let (counted, after) = timer_handler-Runs before.runs in
    let last : timer_ticks 20 k ≡ timer_handler (timer_ticks 19 k) = unfold timer_ticks in refl in
    rw last (record {
      counted = ground (arith, before.counted, counted, at.room);
      runs = rw due at after;
    })

-- Round robin: if the tick counter stands at the start of a slice and does not wrap, then after as
-- many slices as there are threads up to `y` in the queue, `y` has the processor; those behind it
-- come next, then the thread that ran first, then those that had their slices since.
pub timer_ticks-Runs :
    (xs ys : List ℕ) {k : Kernel} {r y : ℕ}
    → AtSlice (20 * suc (length xs)) k
    → Runs k r (xs ++ y ∷ ys)
    → Runs (timer_ticks (20 * suc (length xs)) k) y (ys ++ r ∷ xs)
timer_ticks-Runs [] ys at runs =
    (slice (record { whole = at.whole; room = omega (arith, at.room) }) runs).runs
timer_ticks-Runs (x ∷ xs) ys {k} {r} {y} at runs =
    let first = slice (record { whole = at.whole; room = omega (arith, at.room) }) runs in
    let more : 20 * suc (suc (length xs)) ≡ 20 * suc (length xs) + 20 = omega arith in
    let queue = rw (append_assoc xs (y ∷ ys) (r ∷ [])) at first.runs in
    let at' : AtSlice (20 * suc (length xs)) (timer_ticks 20 k) = record {
      whole = omega (arith, first.counted, at.whole);
      room = omega (arith, first.counted, at.room);
    } in
    rw (more, timer_ticks-add (20 * suc (length xs)) 20 k)
      (rw (append_assoc ys (r ∷ []) (x ∷ xs)) at (timer_ticks-Runs xs (ys ++ r ∷ []) at' queue))
