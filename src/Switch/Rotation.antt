-- ===== src/Switch/Rotation.antt =====
-- The scheduler and the switch together: a timer interrupt goes on with the thread that the scheduler
-- chooses, and every other thread keeps its registers.
use finux.Prelude.{
  ℕ, ◌+◌, ◌-◌, ◌^◌, ◌≤◌, ◌<◌, ◌≡◌, ◌⊎◌, refl, ◌∙◌, inl, inr, arith, Bool, true, false, Bool-cases,
  List, [], ◌∷◌, ◌++◌, ◌==◌, ◌∈◌, if◌then◌else◌,
}
use finux.Sched.{Kernel, timer_handler}
use finux.Sched.Queue.{Runs}
use finux.Sched.Rotate.{is_due, timer_handler-Runs}
use finux.Switch.{Processor, take_interrupt, irq00_entry, lret, restore_registers, load_esp}
use finux.Switch.Frames.{Running, Saved, KeepsFrame, Saved-kept}
use finux.Switch.Interrupt.{interrupted, interrupted-Saved, irq00_entry-Switches}

-- What the threads go on as, and where their frames are, when `r` is interrupted as `c`.
module _ (r : ℕ) (c : Processor) (d : ℕ → Processor) (base : ℕ → ℕ) where
  abbrev pub goes_on : ℕ → Processor
  goes_on u = if u == r then c else d u

  abbrev pub frame_at : ℕ → ℕ
  frame_at u = if u == r then c.esp - 60 else base u

  abbrev pub AllSaved : List ℕ → (ℕ → ℕ) → Type 0
  AllSaved threads word = (u : ℕ) → u ∈ threads → Saved (goes_on u) u (frame_at u) word

-- The thread that the scheduler chooses is the running one or the first of the queue.
chosen : (r t : ℕ) (ts : List ℕ) (due : Bool) → (if due then t else r) ∈ (r ∷ t ∷ ts)
chosen r t ts true = ground arith
chosen r t ts false = ground arith

module _ (current_thread_at r t : ℕ) (ts : List ℕ) (k : Kernel) (c : Processor) (d : ℕ → Processor)
    (base : ℕ → ℕ) (runs : Runs k r (t ∷ ts)) (room : 60 ≤ c.esp) (small : c.esp < 2 ^ 32)
    (is_current : c.word current_thread_at ≡ r)
    (beside : (current_thread_at < c.esp - 60) ⊎ (c.esp ≤ current_thread_at))
    (beside_thread : (r < c.esp - 60) ⊎ (c.esp ≤ r)) where
  abbrev pub before_call : Processor
  before_call = interrupted current_thread_at r c room small is_current beside beside_thread

  -- What the C functions have to do: the current thread is the one that `timer_handler` chooses, and
  -- no frame changes.
  pub record Schedules (after : Processor) : Type 0 where
    pub picks : after.word current_thread_at ≡ (timer_handler k).current_thread
    pub keeps :
        (u : ℕ)
        → u ∈ (r ∷ t ∷ ts)
        → KeepsFrame u (frame_at r c d base u) before_call.word after.word

  before_call-AllSaved :
      ((u : ℕ) → u ∈ (t ∷ ts) → Saved (d u) u (base u) before_call.word)
      → AllSaved r c d base (r ∷ t ∷ ts) before_call.word
  before_call-AllSaved waiting u among = elim (Bool-cases (u == r)) [
    | inl same ↦
        let e : u ≡ r = ground arith in
        let own =
          interrupted-Saved current_thread_at r c room small is_current beside beside_thread in
        rw (same, e) own
    | inr other ↦ rw other (waiting u (ground (arith, among, other)))
  ]

  -- Let `r` run and be interrupted, with room on its stack and `current_thread` and its structure not
  -- on it, let every thread of the queue be in a frame, and let the C functions make the thread
  -- current that `timer_handler` chooses and leave the frames alone. Then the scheduler is where
  -- `timer_handler` leads it, the processor goes on with the registers of its running thread, as they
  -- were when that thread lost the processor, and every thread that was ready or running is still
  -- in a frame with its registers, `r` with those of the interrupt.
  pub irq00_entry-Rotates :
      (called : Processor → Processor)
      → ((u : ℕ) → u ∈ (t ∷ ts) → Saved (d u) u (base u) before_call.word)
      → Schedules (called before_call)
      → let final = irq00_entry current_thread_at called (take_interrupt c) in
        let next = if is_due k then t else r in
        Runs (timer_handler k) next (if is_due k then ts ++ r ∷ [] else t ∷ ts)
        × Running (goes_on r c d base next) (frame_at r c d base next + 56) final
        × AllSaved r c d base (r ∷ t ∷ ts) final.word
  irq00_entry-Rotates called waiting schedules =
      let next = if is_due k then t else r in
      let after : Processor = called before_call in
      let rotated = (timer_handler-Runs runs).1 in
      let saved : AllSaved r c d base (r ∷ t ∷ ts) after.word = λ u among.
        Saved-kept before_call.word after.word (schedules.keeps u among)
          (before_call-AllSaved waiting u among) in
      let own : frame_at r c d base r ≡ c.esp - 60 = ground arith in
      let (running, again) =
        irq00_entry-Switches current_thread_at r c room small is_current beside beside_thread called
          (goes_on r c d base next) next (frame_at r c d base next)
          (record {
            current = schedules.picks ∙ rotated.current;
            next = saved next (chosen r t ts (is_due k));
            kept = rw own at (schedules.keeps r (ground arith));
          }) in
      let final : Processor = irq00_entry current_thread_at called (take_interrupt c) in
      let same : final.word ≡ after.word =
        unfold irq00_entry lret restore_registers load_esp in refl in
      (rotated, running, rw same saved)
