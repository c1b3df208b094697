-- ===== src/Switch/Begin.antt =====
-- How a thread that was created begins: the registers that `thread_creat` writes are a frame.
use finux.Prelude.{ℕ, ◌+◌, ◌^◌, ◌<◌, ◌≡◌}
use finux.Desc.{kernel_cs, kernel_ds, dis_gs}
use finux.Thread.{Registers, first_registers, kernel_stack_size}
use finux.Switch.{Processor, switch_to}
use finux.Switch.Frames.{Frame}
use finux.Switch.Entries.{switch_to-Running}

-- The words of a `struct registers`, but for the last three.
pub record Holds (regs : Registers) (base : ℕ) (word : ℕ → ℕ) : Type 0 where
  pub gs : word (base + 0) ≡ regs.gs
  pub fs : word (base + 4) ≡ regs.fs
  pub es : word (base + 8) ≡ regs.es
  pub ds : word (base + 12) ≡ regs.ds
  pub edi : word (base + 16) ≡ regs.edi
  pub esi : word (base + 20) ≡ regs.esi
  pub ebp : word (base + 24) ≡ regs.ebp
  pub ebx : word (base + 32) ≡ regs.ebx
  pub edx : word (base + 36) ≡ regs.edx
  pub ecx : word (base + 40) ≡ regs.ecx
  pub eax : word (base + 44) ≡ regs.eax
  pub eip : word (base + 48) ≡ regs.eip
  pub cs : word (base + 52) ≡ regs.cs

-- The processor as these registers say.
abbrev pub processor_of : Registers → Processor → Processor
processor_of regs c = record c {
  gs = regs.gs;
  fs = regs.fs;
  es = regs.es;
  ds = regs.ds;
  edi = regs.edi;
  esi = regs.esi;
  ebp = regs.ebp;
  ebx = regs.ebx;
  edx = regs.edx;
  ecx = regs.ecx;
  eax = regs.eax;
  eip = regs.eip;
  cs = regs.cs;
}

-- Where a thread begins.
pub record Begins (function stack : ℕ) (after : Processor) : Type 0 where
  pub eip : after.eip ≡ function
  pub cs : after.cs ≡ kernel_cs
  pub segment : after.ds ≡ kernel_ds
  pub extra : (after.es ≡ kernel_ds) × (after.fs ≡ kernel_ds)
  pub display : after.gs ≡ dis_gs
  pub esp : after.esp ≡ stack + kernel_stack_size + 56

-- Let the memory hold the registers that `thread_creat` fills in for a function at the end of the stack
-- of a thread, with room behind them, and let the thread's `esp` point to them. Then `switch_to` of
-- the thread begins the function in the kernel's segments, with a stack that ends behind the
-- return address in the registers; the stack pointer that `thread_creat` writes is not used.
pub switch_to-Begins :
    (function stack thread : ℕ) (regs : Registers) (c : Processor)
    → c.word thread ≡ stack + kernel_stack_size
    → c.eax ≡ c.word thread
    → stack + kernel_stack_size + 56 < 2 ^ 32
    → Holds (first_registers function stack regs) (stack + kernel_stack_size) c.word
    → Begins function stack (switch_to c)
switch_to-Begins function stack thread regs c at argument room holds =
    let d = processor_of (first_registers function stack regs) c in
    let frame : Frame d (stack + kernel_stack_size) c.word = record {
      gs = holds.gs;
      fs = holds.fs;
      es = holds.es;
      ds = holds.ds;
      edi = holds.edi;
      esi = holds.esi;
      ebp = holds.ebp;
      ebx = holds.ebx;
      edx = holds.edx;
      ecx = holds.ecx;
      eax = holds.eax;
      eip = holds.eip;
      cs = holds.cs;
    } in
    let running =
      switch_to-Running c d thread (stack + kernel_stack_size)
        (record { esp = at; room = room; frame = frame }) argument in
    record {
      eip = running.eip;
      cs = running.cs;
      segment = running.ds;
      extra = (running.es, running.fs);
      display = running.gs;
      esp = running.stack;
    }
