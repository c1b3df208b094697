-- ===== src/Switch/Interrupt.antt =====
-- A switch by the timer interrupt, `irq00_handler`.
use finux.Prelude.{ℕ, ◌+◌, ◌-◌, ◌*◌, ◌^◌, ◌≤◌, ◌<◌, ◌≡◌, ◌∙◌, ap, ◌⊎◌, arith, [], ◌∷◌}
use finux.Switch.{Processor, push_all, save_registers, take_interrupt, store_esp, irq00_entry}
use finux.Switch.Stack.{Pushed, push_all-Pushed}
use finux.Switch.Frames.{Running, Saved, KeepsFrame, Saved-kept, stored-Saved}
use finux.Switch.Entries.{Switches, resumed}

-- What the processor has pushed.
pub took :
    (c : Processor)
    → 60 ≤ c.esp
    → c.esp < 2 ^ 32
    → Pushed (c.eflags ∷ c.cs ∷ c.eip ∷ []) c (take_interrupt c)
unfolding take_interrupt
took c room small = push_all-Pushed (c.eflags ∷ c.cs ∷ c.eip ∷ []) c (omega arith) small

-- The pushes leave the registers alone.
taken-Saved :
    (c : Processor) (thread base : ℕ) (word : ℕ → ℕ)
    → Saved (record (take_interrupt c) { eip = c.eip; cs = c.cs }) thread base word
    → Saved c thread base word
unfolding take_interrupt push_all
taken-Saved c thread base word saved = record {
  esp = saved.esp;
  room = saved.room;
  frame = record {
    gs = saved.frame.gs;
    fs = saved.frame.fs;
    es = saved.frame.es;
    ds = saved.frame.ds;
    edi = saved.frame.edi;
    esi = saved.frame.esi;
    ebp = saved.frame.ebp;
    ebx = saved.frame.ebx;
    edx = saved.frame.edx;
    ecx = saved.frame.ecx;
    eax = saved.frame.eax;
    eip = saved.frame.eip;
    cs = saved.frame.cs;
  };
}

module _ (current_thread_at thread : ℕ) (c : Processor) (room : 60 ≤ c.esp) (small : c.esp < 2 ^ 32)
    (is_current : c.word current_thread_at ≡ thread)
    (beside : (current_thread_at < c.esp - 60) ⊎ (c.esp ≤ current_thread_at))
    (beside_thread : (thread < c.esp - 60) ⊎ (c.esp ≤ thread)) where
  -- The state in which `EOI_master` is called.
  abbrev pub interrupted : Processor
  interrupted = store_esp current_thread_at (save_registers (take_interrupt c))

  pub interrupted-Saved : Saved c thread (c.esp - 60) interrupted.word
  interrupted-Saved =
      let pushed = took c room small in
      let taken : Processor = take_interrupt c in
      let e : taken.esp ≡ c.esp - 4 * (2 + 1) = pushed.esp in
      let e4 : taken.esp + 4 ≡ c.esp - 4 * (1 + 1) = omega (arith, e) in
      let at_eip : taken.word taken.esp ≡ c.eip = ap taken.word e ∙ pushed.words 2 (omega arith) in
      let at_cs : taken.word (taken.esp + 4) ≡ c.cs =
        ap taken.word e4 ∙ pushed.words 1 (omega arith) in
      let current : taken.word current_thread_at ≡ thread =
        pushed.outside current_thread_at (ground arith) ∙ is_current in
      let base : taken.esp - 48 ≡ c.esp - 60 = omega (arith, e) in
      let saved =
        stored-Saved taken c.eip c.cs (omega (arith, e)) (omega (arith, e)) at_eip at_cs
          current_thread_at thread current (ground (arith, e)) (ground (arith, e)) in
      taken-Saved c thread (c.esp - 60) interrupted.word (rw base at saved)

  -- A thread whose stack has 60 bytes of room, and whose stack holds neither `current_thread` nor its
  -- structure, is interrupted, and the C functions make a thread the current one whose frame the
  -- processor can go on with as `d`, leaving the frame of the first alone. Then the processor goes on
  -- with all registers of `d`, its stack pointer 56 bytes above that frame, and the first thread is
  -- kept in a frame from which it can go on in the same way.
  pub irq00_entry-Switches :
      (called : Processor → Processor) (d : Processor) (u base : ℕ)
      → Switches current_thread_at thread (c.esp - 60) u base d interrupted (called interrupted)
      → let final = irq00_entry current_thread_at called (take_interrupt c) in
        Running d (base + 56) final × Saved c thread (c.esp - 60) final.word
  unfolding irq00_entry
  irq00_entry-Switches called d u base switches =
      resumed current_thread_at thread (c.esp - 60) u base c d interrupted (called interrupted)
        switches interrupted-Saved

  -- When the thread stays the current one and its frame is left alone, all registers come back but the
  -- stack pointer, which is 4 less than when the interrupt came: `lret` leaves the pushed flags on
  -- the stack.
  pub irq00_entry-leaves_flags :
      (called : Processor → Processor)
      → (called interrupted).word current_thread_at ≡ thread
      → KeepsFrame thread (c.esp - 60) interrupted.word (called interrupted).word
      → let final = irq00_entry current_thread_at called (take_interrupt c) in
        Running c (c.esp - 4) final
  irq00_entry-leaves_flags called stays kept =
      let saved = Saved-kept interrupted.word (called interrupted).word kept interrupted-Saved in
      let (running, again) =
        irq00_entry-Switches called c thread (c.esp - 60)
          (record { current = stays; next = saved; kept = kept }) in
      let top : c.esp - 60 + 56 ≡ c.esp - 4 = omega arith in rw top at running
