-- ===== src/Switch.antt =====
-- The switch between threads in assembly: irq00_handler of kernel/interrupt/interrupt.S, switch_to and
-- yield of kernel/switch.S, and sys_entry of kernel/syscall/sys_entry.S. Words of memory stand at their byte addresses. The C functions that
-- the entries call are a parameter.
pub mod Stack
pub mod Frames
pub mod Entries
pub mod Interrupt
pub mod Yield
pub mod Syscall
pub mod Begin
pub mod Rotation
use finux.Prelude.{ℕ, ◌+◌, ◌*◌, List, [], ◌∷◌, update}
use finux.Prelude.Bits.{u32, sub32}

-- The registers, and the memory by words.
pub record Processor : Type 0 where
  pub eax : ℕ
  pub ecx : ℕ
  pub edx : ℕ
  pub ebx : ℕ
  pub esp : ℕ
  pub ebp : ℕ
  pub esi : ℕ
  pub edi : ℕ
  pub ds : ℕ
  pub es : ℕ
  pub fs : ℕ
  pub gs : ℕ
  pub cs : ℕ
  pub eip : ℕ
  pub eflags : ℕ
  pub word : ℕ → ℕ

abbrev pub push : ℕ → Processor → Processor
push v c = record c { esp = sub32 c.esp 4; word = update c.word (sub32 c.esp 4) v }

unfoldable pub push_all : List ℕ → Processor → Processor
push_all [] c = c
push_all (v ∷ vs) c = push_all vs (push v c)

-- The word that the pop number `k` from now takes.
abbrev pub stack_at : ℕ → Processor → ℕ
stack_at k c = c.word (u32 (c.esp + 4 * k))

-- `pushal`, which pushes the `esp` from before it, and the four segment registers.
abbrev pub register_list : Processor → List ℕ
register_list c =
    c.eax ∷ c.ecx ∷ c.edx ∷ c.ebx ∷ c.esp ∷ c.ebp ∷ c.esi ∷ c.edi ∷ c.ds ∷ c.es ∷ c.fs ∷ c.gs ∷ []

unfoldable pub save_registers : Processor → Processor
save_registers c = push_all (register_list c) c

-- The pops of the segment registers, and `popal`, which skips the saved `esp`.
unfoldable pub restore_registers : Processor → Processor
restore_registers c = record c {
  gs = stack_at 0 c;
  fs = stack_at 1 c;
  es = stack_at 2 c;
  ds = stack_at 3 c;
  edi = stack_at 4 c;
  esi = stack_at 5 c;
  ebp = stack_at 6 c;
  ebx = stack_at 8 c;
  edx = stack_at 9 c;
  ecx = stack_at 10 c;
  eax = stack_at 11 c;
  esp = u32 (c.esp + 4 * 12);
}

unfoldable pub lret : Processor → Processor
lret c = record c { eip = stack_at 0 c; cs = stack_at 1 c; esp = u32 (c.esp + 4 * 2) }

-- `switch_to`, with the argument in `eax`.
unfoldable pub switch_to : Processor → Processor
switch_to c = lret (restore_registers (record c { esp = c.eax }))

-- What the processor pushes for an interrupt.
unfoldable pub take_interrupt : Processor → Processor
take_interrupt c = push_all (c.eflags ∷ c.cs ∷ c.eip ∷ []) c

-- The first six instructions of `yield`: the return address moves down, and 0x20 for `cs` takes
-- its place.
unfoldable pub make_room : Processor → Processor
make_room c =
    let ret = c.word c.esp in
    record c { esp = sub32 c.esp 4; word = update (update c.word (sub32 c.esp 4) ret) c.esp 0x20 }

-- The address of `current_thread`; `esp` is the first field of a thread.
module _ (current_thread_at : ℕ) where
  -- `movl (current_thread), %eax; movl %esp, (%eax)`
  unfoldable pub store_esp : Processor → Processor
  store_esp c =
      let thread = c.word current_thread_at in
      record c { eax = thread; word = update c.word thread c.esp }

  -- `movl (current_thread), %eax; movl (%eax), %esp`
  unfoldable pub load_esp : Processor → Processor
  load_esp c =
      let thread = c.word current_thread_at in record c { eax = thread; esp = c.word thread }

  -- The count on the screen is left out.
  unfoldable pub irq00_entry : (called : Processor → Processor) → Processor → Processor
  irq00_entry called c = lret (restore_registers (load_esp (called (store_esp (save_registers c)))))

  -- `sti` at the end sets the bit of the interrupt flag; it is left out.
  unfoldable pub yield_entry : (called : Processor → Processor) → Processor → Processor
  yield_entry called c =
      lret (restore_registers (load_esp (called (store_esp (save_registers (make_room c))))))

-- `sys_entry` of kernel/syscall/sys_entry.S: after the registers it pushes the arguments, and at its
-- end it moves the return address and the flags so that `popf` and `lret` can take them.
unfoldable pub rearrange : Processor → Processor
rearrange c =
    let eip = stack_at 0 c in
    let cs = stack_at 1 c in
    let flags = stack_at 2 c in
    record c {
      eax = eip;
      ebx = cs;
      ecx = flags;
      word =
          update (update (update c.word (u32 (c.esp + 4)) eip) (u32 (c.esp + 8)) cs)
            (u32 (c.esp + 0)) flags;
    }

unfoldable pub popf : Processor → Processor
popf c = record c { eflags = stack_at 0 c; esp = u32 (c.esp + 4) }

-- `sti` is left out.
unfoldable pub sys_entry : (called : Processor → Processor) → Processor → Processor
sys_entry called c =
    let c1 = save_registers c in
    let c2 = push_all (c1.edi ∷ c1.esi ∷ c1.edx ∷ c1.ecx ∷ c1.ebx ∷ c1.eax ∷ []) c1 in
    let c3 = called c2 in
    lret (popf (rearrange (restore_registers (record c3 { esp = u32 (c3.esp + 0x18) }))))
