-- ===== src/Idt.antt =====
-- The interrupt descriptor table: kernel/desc/idt.c with the numbers of include/sys/idt.h, and
-- `init_timer` of kernel/interrupt/timer.c. Where the linker puts the handlers is a parameter.
pub mod Vectors
pub mod Timer
use finux.Prelude.{ℕ, ◌+◌, ◌*◌, ◌-◌, update, List, [], ◌∷◌, true}
use finux.Prelude.Bits.{◌<<<◌}
use finux.Desc.{Desc, DescPtr, set_gate, kcs_local}
use finux.Exception.{
  Exception, vector, divide_error, single_step_exception, nmi, breakpoint_exception, overflow,
  bounds_check, inval_opcode, copr_not_available, double_fault, copr_seg_overrun, inval_tss,
  segment_not_present, stack_exception, general_protection, page_fault, copr_error, float_error,
  alignment_check,
}
use finux.Pic.{Ports, Cpu, enable_irq}

abbrev pub idtnum : ℕ
idtnum = 256

abbrev pub irq_vector : ℕ
irq_vector = 0x30

abbrev pub irq_timer : ℕ
irq_timer = 0

abbrev pub sys_call_num : ℕ
sys_call_num = 0x80

abbrev pub gate_interrupt : ℕ
gate_interrupt = 0xe

abbrev pub gate_exception : ℕ
gate_exception = 0xf

-- The addresses of the handlers.
pub record Handlers : Type 0 where
  pub exception : Exception → ℕ
  pub sys_entry : ℕ
  pub irq00_handler : ℕ
  pub timer_address : ℕ

-- The table, its register, and the processor with the interrupt controllers.
pub record IdtState (ports : Ports) : Type 0 where
  pub idt : ℕ → Desc
  pub idtr : DescPtr
  pub cpu : Cpu ports
  -- `interrupt[]` of kernel/interrupt/interrupt.S
  pub interrupt : ℕ → ℕ

-- The exceptions in the order in which their gates are set.
abbrev pub exceptions : List Exception
exceptions =
    divide_error ∷ single_step_exception ∷ nmi ∷ breakpoint_exception ∷ overflow ∷ bounds_check
    ∷ inval_opcode ∷ copr_not_available ∷ double_fault ∷ copr_seg_overrun ∷ inval_tss
    ∷ segment_not_present ∷ stack_exception ∷ general_protection ∷ page_fault ∷ copr_error
    ∷ float_error ∷ alignment_check ∷ []

-- One `set_gate` for each exception.
unfoldable pub set_gates : (Exception → ℕ) → List Exception → (ℕ → Desc) → ℕ → Desc
set_gates address [] idt = idt
set_gates address (e ∷ es) idt =
    set_gates address es
      (update idt (vector e) (set_gate gate_exception (address e) 0x0 (kcs_local <<< 3)))

unfoldable pub set_exception_gate : Handlers → (ℕ → Desc) → ℕ → Desc
set_exception_gate handlers idt =
    update (set_gates handlers.exception exceptions idt) sys_call_num
      (set_gate gate_interrupt handlers.sys_entry 0x0 (kcs_local <<< 3))

module _ (ports : Ports) where
  -- The address of the table is a parameter; interrupts are on before the gates are set.
  unfoldable pub load_idt : Handlers → ℕ → IdtState ports → IdtState ports
  load_idt handlers idt_address s = record s {
    idt = set_exception_gate handlers s.idt;
    idtr = record { size = idtnum * 8 - 1; address = idt_address };
    cpu = record (s.cpu) { interrupts = true };
  }

  unfoldable pub set_intr_gate : ℕ → ℕ → IdtState ports → IdtState ports
  set_intr_gate irq handler s = record s {
    idt = update s.idt (irq + irq_vector) (set_gate gate_interrupt handler 0x0 (kcs_local <<< 3));
    cpu = enable_irq ports irq s.cpu;
  }

  unfoldable pub init_timer : Handlers → IdtState ports → IdtState ports
  init_timer handlers s =
      let s1 = record s { interrupt = update s.interrupt 0 handlers.timer_address } in
      let s2 = set_intr_gate 0 handlers.irq00_handler s1 in
      record s2 { cpu = enable_irq ports irq_timer s2.cpu }
