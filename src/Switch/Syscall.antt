-- ===== src/Switch/Syscall.antt =====
-- What a system call leaves of the registers.
use finux.Prelude.{ℕ, ◌+◌, ◌-◌, ◌*◌, ◌^◌, ◌≤◌, ◌<◌, ◌≡◌, refl, ◌∙◌, ap, inr, arith, [], ◌∷◌, List}
use finux.Prelude.Bits.{u32}
use finux.Switch.{
  Processor, push_all, save_registers, restore_registers, take_interrupt, rearrange, popf, lret,
  sys_entry,
}
use finux.Switch.Stack.{push_all-Pushed}
use finux.Switch.Frames.{
  Running, Frame, Frame-kept, restored-Running, saved-Pushed, save_registers-Frame,
}
use finux.Switch.Interrupt.{took}

-- The end of the entry, when the three words behind the registers are at the stack pointer.
module _ (c : Processor) (eip cs flags : ℕ) (small : c.esp + 12 < 2 ^ 32)
    (at_eip : c.word c.esp ≡ eip) (at_cs : c.word (c.esp + 4) ≡ cs)
    (at_flags : c.word (c.esp + 8) ≡ flags) where
  rearranged :
      ((rearrange c).word c.esp ≡ flags)
      × ((rearrange c).word (c.esp + 4) ≡ eip)
      × ((rearrange c).word (c.esp + 8) ≡ cs)
  unfolding rearrange
  rearranged =
      let e0 : u32 (c.esp + 0) ≡ c.esp = omega arith in
      let e4 : u32 (c.esp + 4) ≡ c.esp + 4 = omega arith in
      let e8 : u32 (c.esp + 8) ≡ c.esp + 8 = omega arith in
      rw (e0, e4, e8, at_eip, at_cs, at_flags) (ground arith, ground arith, ground arith)

  abbrev left_entry : Processor
  left_entry = lret (popf (rearrange c))

  left_entry-words :
      (left_entry.eip ≡ eip)
      × (left_entry.cs ≡ cs)
      × (left_entry.eflags ≡ flags)
      × (left_entry.esp ≡ c.esp + 12)
  unfolding lret popf
  left_entry-words =
      let same : (rearrange c).esp ≡ c.esp = unfold rearrange in refl in
      let (on_top, second, third) = rearranged in
      let w = (rearrange c).word in
      let e0 : u32 ((rearrange c).esp + 0) ≡ c.esp = omega (arith, same) in
      let e4 : u32 (u32 ((rearrange c).esp + 4) + 0) ≡ c.esp + 4 = omega (arith, same) in
      let e8 : u32 (u32 ((rearrange c).esp + 4) + 4) ≡ c.esp + 8 = omega (arith, same) in
      (ap w e4 ∙ second, ap w e8 ∙ third, ap w e0 ∙ on_top, omega (arith, same))

  left_entry-clobbered : (left_entry.eax ≡ eip) × (left_entry.ebx ≡ cs) × (left_entry.ecx ≡ flags)
  unfolding lret popf rearrange
  left_entry-clobbered =
      let e0 : u32 (c.esp + 0) ≡ c.esp = omega arith in
      let e4 : u32 (c.esp + 4) ≡ c.esp + 4 = omega arith in
      let e8 : u32 (c.esp + 8) ≡ c.esp + 8 = omega arith in
      (ap c.word e0 ∙ at_eip, ap c.word e4 ∙ at_cs, ap c.word e8 ∙ at_flags)

-- What the caller finds after `int $0x80`: everything as before, but for three registers.
pub record Returned (c after : Processor) : Type 0 where
  pub eip : after.eip ≡ c.eip
  pub cs : after.cs ≡ c.cs
  pub eflags : after.eflags ≡ c.eflags
  pub esp : after.esp ≡ c.esp
  pub edx : after.edx ≡ c.edx
  pub ebp : after.ebp ≡ c.ebp
  pub esi : after.esi ≡ c.esi
  pub edi : after.edi ≡ c.edi
  pub ds : after.ds ≡ c.ds
  pub es : after.es ≡ c.es
  pub fs : after.fs ≡ c.fs
  pub gs : after.gs ≡ c.gs
  pub clobbered : (after.eax ≡ c.eip) × (after.ebx ≡ c.cs) × (after.ecx ≡ c.eflags)

abbrev arguments : Processor → List ℕ
arguments c = c.edi ∷ c.esi ∷ c.edx ∷ c.ecx ∷ c.ebx ∷ c.eax ∷ []

module _ (c : Processor) (room : 84 ≤ c.esp) (small : c.esp < 2 ^ 32) where
  abbrev saved : Processor
  saved = save_registers (take_interrupt c)

  -- The state in which `syscall_handler` is called.
  abbrev pub entered : Processor
  entered = push_all (arguments saved) saved

  -- What stands on the stack when the arguments are pushed.
  record Laid : Type 0 where
    esp : entered.esp ≡ c.esp - 84
    frame : Frame (record (take_interrupt c) { eip = c.eip; cs = c.cs }) (c.esp - 60) entered.word
    flags : entered.word (c.esp - 4) ≡ c.eflags

  entered-Laid : Laid
  entered-Laid =
      let pushed = took c (omega arith) small in
      let taken : Processor = take_interrupt c in
      let e : taken.esp ≡ c.esp - 4 * (2 + 1) = pushed.esp in
      let e4 : taken.esp + 4 ≡ c.esp - 4 * (1 + 1) = omega (arith, e) in
      let at_eip : taken.word taken.esp ≡ c.eip = ap taken.word e ∙ pushed.words 2 (omega arith) in
      let at_cs : taken.word (taken.esp + 4) ≡ c.cs =
        ap taken.word e4 ∙ pushed.words 1 (omega arith) in
      let r : 48 ≤ taken.esp = omega (arith, e) in
      let s : taken.esp + 8 < 2 ^ 32 = omega (arith, e) in
      let first = saved-Pushed taken c.eip c.cs r s at_eip at_cs in
      let e1 : saved.esp ≡ c.esp - 60 = omega (arith, first.esp, e) in
      let second =
        push_all-Pushed (arguments saved) saved (omega (arith, e1)) (omega (arith, e1)) in
      let base : taken.esp - 48 ≡ c.esp - 60 = omega (arith, e) in
      let frame = save_registers-Frame taken c.eip c.cs r s at_eip at_cs in
      record {
        esp = omega (arith, second.esp, e1);
        frame =
            Frame-kept saved.word entered.word
              (λ a low high. second.outside a (inr (omega (arith, e1)))) (rw base at frame);
        flags =
            second.outside (c.esp - 4) (inr (omega (arith, e1)))
            ∙ first.outside (c.esp - 4) (inr (omega (arith, e)))
            ∙ pushed.words 0 (omega arith);
      }

  -- The pushes leave the registers alone, and so does the end of the entry but for three.
  returned :
      (last : Processor)
      → let d = record (take_interrupt c) { eip = c.eip; cs = c.cs } in
        let final = lret (popf (rearrange (restore_registers last))) in
        Running d (c.esp - 4) (lret (restore_registers last))
        → (final.eip ≡ c.eip) × (final.cs ≡ c.cs) × (final.eflags ≡ c.eflags) × (final.esp ≡ c.esp)
        → (final.eax ≡ c.eip) × (final.ebx ≡ c.cs) × (final.ecx ≡ c.eflags)
        → Returned c final
  unfolding lret popf rearrange take_interrupt push_all
  returned last running (eip, cs, eflags, esp) clobbered = record {
    eip = eip;
    cs = cs;
    eflags = eflags;
    esp = esp;
    edx = running.edx;
    ebp = running.ebp;
    esi = running.esi;
    edi = running.edi;
    ds = running.ds;
    es = running.es;
    fs = running.fs;
    gs = running.gs;
    clobbered = clobbered;
  }

  -- A system call comes with 84 bytes of room on the stack, and the C function returns to the entry
  -- with the stack as it was. Then the caller finds its place, its flags, its stack pointer and its
  -- registers as they were, but for `eax`, `ebx` and `ecx`: they hold the return address, the code
  -- segment and the flags.
  pub sys_entry-Returned :
      (called : Processor → Processor)
      → (called entered).esp ≡ entered.esp
      → ((a : ℕ) → c.esp - 60 ≤ a → a < c.esp → (called entered).word a ≡ entered.word a)
      → Returned c (sys_entry called (take_interrupt c))
  unfolding sys_entry
  sys_entry-Returned called same_esp same_stack =
      let laid = entered-Laid in
      let after : Processor = called entered in
      let last : Processor = record after { esp = u32 (after.esp + 0x18) } in
      let d : Processor = record (take_interrupt c) { eip = c.eip; cs = c.cs } in
      let base = c.esp - 60 in
      let here : u32 (after.esp + 0x18) ≡ base = omega (arith, same_esp, laid.esp) in
      let frame =
        Frame-kept entered.word after.word (λ a low high. same_stack a low (omega arith))
          laid.frame in
      let top : base + 56 ≡ c.esp - 4 = omega arith in
      let running = rw top at (restored-Running d base last (omega arith) here frame) in
      let restored : Processor = restore_registers last in
      let e : restored.esp ≡ c.esp - 12 = unfold restore_registers in omega (arith, here) in
      let e0 : c.esp - 12 ≡ base + 48 = omega arith in
      let w : restored.word ≡ after.word = unfold restore_registers in refl in
      let at_eip : restored.word restored.esp ≡ c.eip = rw (w, e, e0) frame.eip in
      let e4 : restored.esp + 4 ≡ base + 52 = omega (arith, e) in
      let at_cs : restored.word (restored.esp + 4) ≡ c.cs = rw (w, e4) frame.cs in
      let e8 : restored.esp + 8 ≡ c.esp - 4 = omega (arith, e) in
      let at_flags : restored.word (restored.esp + 8) ≡ c.eflags =
        rw (w, e8) (same_stack (c.esp - 4) (omega arith) (omega arith) ∙ laid.flags) in
      let small_enough : restored.esp + 12 < 2 ^ 32 = omega (arith, e) in
      let (place, segment, flags, stack) =
        left_entry-words restored c.eip c.cs c.eflags small_enough at_eip at_cs at_flags in
      let clobbered =
        left_entry-clobbered restored c.eip c.cs c.eflags small_enough at_eip at_cs at_flags in
      let esp : restored.esp + 12 ≡ c.esp = omega (arith, e) in
      returned last running (place, segment, flags, stack ∙ esp) clobbered
