-- ===== src/Switch/Yield.antt =====
-- A switch by `yield`.
use finux.Prelude.{ℕ, ◌+◌, ◌-◌, ◌^◌, ◌≤◌, ◌<◌, ◌≡◌, ◌∙◌, ap, ◌⊎◌, arith}
use finux.Prelude.Bits.{sub32}
use finux.Switch.{Processor, save_registers, store_esp, make_room, yield_entry}
use finux.Switch.Frames.{Running, Saved, stored-Saved}
use finux.Switch.Entries.{Switches, resumed}

made_room-Saved :
    (c : Processor) (eip cs thread base : ℕ) (word : ℕ → ℕ)
    → Saved (record (make_room c) { eip = eip; cs = cs }) thread base word
    → Saved (record c { eip = eip; cs = cs }) thread base word
unfolding make_room
made_room-Saved c eip cs thread base word saved = record {
  esp = saved.esp;
  room = saved.room;
  frame = record {
    gs = saved.frame.gs;
    fs = saved.frame.fs;
    es = saved.frame.es;
    ds = saved.frame.ds;
    edi = saved.frame.edi;
    esi = saved.frame.esi;
    ebp = saved.frame.ebp;
    ebx = saved.frame.ebx;
    edx = saved.frame.edx;
    ecx = saved.frame.ecx;
    eax = saved.frame.eax;
    eip = saved.frame.eip;
    cs = saved.frame.cs;
  };
}

-- What `make_room` does to the stack.
record Roomy (c after : Processor) : Type 0 where
  esp : after.esp ≡ c.esp - 4
  eip : after.word (c.esp - 4) ≡ c.word c.esp
  cs : after.word c.esp ≡ 0x20
  outside : (a : ℕ) → (a < c.esp - 4) ⊎ (c.esp < a) → after.word a ≡ c.word a

make_room-Roomy : (c : Processor) → 4 ≤ c.esp → c.esp < 2 ^ 32 → Roomy c (make_room c)
unfolding make_room
make_room-Roomy c room small =
    let lower : sub32 c.esp 4 ≡ c.esp - 4 = omega arith in
    record {
      esp = lower;
      eip = ground (arith, lower);
      cs = ground arith;
      outside = λ a h. ground (arith, lower);
    }

-- `yield` is a call: its return address is at the stack pointer.
module _ (current_thread_at thread : ℕ) (c : Processor) (room : 52 ≤ c.esp)
    (small : c.esp + 4 < 2 ^ 32) (is_current : c.word current_thread_at ≡ thread)
    (beside : (current_thread_at < c.esp - 52) ⊎ (c.esp + 4 ≤ current_thread_at))
    (beside_thread : (thread < c.esp - 52) ⊎ (c.esp + 4 ≤ thread)) where
  -- Where the caller goes on: behind the call, in the kernel's code segment.
  abbrev pub caller : Processor
  caller = record c { eip = c.word c.esp; cs = 0x20 }

  -- The state in which `yield_thread` is called.
  abbrev pub yielding : Processor
  yielding = store_esp current_thread_at (save_registers (make_room c))

  yielding-Saved : Saved caller thread (c.esp - 52) yielding.word
  yielding-Saved =
      let roomy = make_room-Roomy c (omega arith) (omega arith) in
      let roomed : Processor = make_room c in
      let e : roomed.esp ≡ c.esp - 4 = roomy.esp in
      let e4 : roomed.esp + 4 ≡ c.esp = omega (arith, e) in
      let current : roomed.word current_thread_at ≡ thread =
        roomy.outside current_thread_at (ground arith) ∙ is_current in
      let base : roomed.esp - 48 ≡ c.esp - 52 = omega (arith, e) in
      let saved =
        stored-Saved roomed (c.word c.esp) 0x20 (omega (arith, e)) (omega (arith, e))
          (ap roomed.word e ∙ roomy.eip) (ap roomed.word e4 ∙ roomy.cs) current_thread_at thread
          current (ground (arith, e)) (ground (arith, e)) in
      made_room-Saved c (c.word c.esp) 0x20 thread (c.esp - 52) yielding.word (rw base at saved)

  -- A thread calls `yield` with 52 bytes of room on its stack, which holds neither `current_thread`
  -- nor the thread's structure, and `yield_thread` makes a thread the current one whose frame the
  -- processor can go on with as `d`, leaving the frame of the first alone. Then the processor goes
  -- on with all registers of `d`, and the first thread is kept in a frame from which it goes on
  -- behind the call with the registers that it had; going on from there, its stack pointer is 4
  -- higher, as after a return.
  pub yield_entry-Switches :
      (called : Processor → Processor) (d : Processor) (u base : ℕ)
      → Switches current_thread_at thread (c.esp - 52) u base d yielding (called yielding)
      → let final = yield_entry current_thread_at called c in
        Running d (base + 56) final
        × Saved caller thread (c.esp - 52) final.word
        × (c.esp - 52 + 56 ≡ c.esp + 4)
  unfolding yield_entry
  yield_entry-Switches called d u base switches =
      let (running, saved) =
        resumed current_thread_at thread (c.esp - 52) u base caller d yielding (called yielding)
          switches yielding-Saved in
      (running, saved, omega arith)
