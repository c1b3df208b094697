-- ===== src/Idt/Vectors.antt =====
-- Where the gates of the table lead.
use finux.Prelude.{ℕ, ◌^◌, ◌≤◌, ◌<◌, ◌≡◌, ◌≢◌, refl, ◌∙◌, true, false, List, [], ◌∷◌, arith, ◌==◌}
use finux.Desc.{Desc, set_gate, kernel_cs}
use finux.Desc.Fields.{Gate, read_gate, set_gate-read_gate}
use finux.Exception.{
  Exception, vector, divide_error, single_step_exception, nmi, breakpoint_exception, overflow,
  bounds_check, inval_opcode, copr_not_available, double_fault, copr_seg_overrun, inval_tss,
  segment_not_present, stack_exception, general_protection, page_fault, copr_error, float_error,
  alignment_check,
}
use finux.Pic.{Ports}
use finux.Idt.{
  Handlers, IdtState, exceptions, set_gates, set_exception_gate, load_idt, sys_call_num,
  gate_exception,
}

-- A gate of the kernel, with privilege level 0.
abbrev pub kernel_gate : ℕ → ℕ → Gate
kernel_gate type offset = record {
  offset = offset;
  selector = kernel_cs;
  type = type;
  dpl = 0;
  present = 1;
}

-- The vectors of the exceptions, which the set gates stand at.
gate_of :
    (address : Exception → ℕ) (e : Exception) (idt : ℕ → Desc)
    → set_gates address exceptions idt (vector e) ≡ set_gate gate_exception (address e) 0 kernel_cs
unfolding set_gates vector
gate_of address divide_error idt = refl
gate_of address single_step_exception idt = refl
gate_of address nmi idt = refl
gate_of address breakpoint_exception idt = refl
gate_of address overflow idt = refl
gate_of address bounds_check idt = refl
gate_of address inval_opcode idt = refl
gate_of address copr_not_available idt = refl
gate_of address double_fault idt = refl
gate_of address copr_seg_overrun idt = refl
gate_of address inval_tss idt = refl
gate_of address segment_not_present idt = refl
gate_of address stack_exception idt = refl
gate_of address general_protection idt = refl
gate_of address page_fault idt = refl
gate_of address copr_error idt = refl
gate_of address float_error idt = refl
gate_of address alignment_check idt = refl

pub vector-lt : (e : Exception) → vector e < 18
unfolding vector
vector-lt divide_error = omega arith
vector-lt _ = omega arith

outside_gates :
    (address : Exception → ℕ) (es : List Exception) (idt : ℕ → Desc) (n : ℕ)
    → 18 ≤ n
    → set_gates address es idt n ≡ idt n
unfolding set_gates
outside_gates address [] idt n out = refl
outside_gates address (e ∷ es) idt n out =
    outside_gates address es _ n out ∙ ground (arith, vector-lt e)

-- What the table holds after `load_idt`.
pub record Vectors (handlers : Handlers) (before after : ℕ → Desc) : Type 0 where
  pub exception :
      (e : Exception) → read_gate (after (vector e)) ≡ kernel_gate 0xf (handlers.exception e)
  pub syscall : read_gate (after sys_call_num) ≡ kernel_gate 0xe handlers.sys_entry
  pub others : (n : ℕ) → 18 ≤ n → n ≢ sys_call_num → after n ≡ before n

-- After `load_idt` every exception's vector is a trap gate that leads to its own handler, the
-- vector of the system calls is an interrupt gate that leads to `sys_entry`, all for privilege
-- level 0 and in the kernel's code segment, no other entry moved, and interrupts are on. The
-- handlers have 32-bit addresses.
pub load_idt-Vectors :
    (ports : Ports) (handlers : Handlers) (idt_address : ℕ) (s : IdtState ports)
    → ((e : Exception) → handlers.exception e < 2 ^ 32)
    → handlers.sys_entry < 2 ^ 32
    → Vectors handlers s.idt (load_idt ports handlers idt_address s).idt
      × ((load_idt ports handlers idt_address s).cpu.interrupts ≡ true)
unfolding load_idt set_exception_gate
load_idt-Vectors ports handlers idt_address s words word = (
  record {
    exception = λ e.
        let low : (vector e == sys_call_num) ≡ false = ground (arith, vector-lt e) in
        rw (low, gate_of handlers.exception e s.idt)
          (set_gate-read_gate 0xf (handlers.exception e) 0 kernel_cs (omega arith) (words e)
            (omega arith) (omega arith));
    syscall =
        set_gate-read_gate 0xe handlers.sys_entry 0 kernel_cs (omega arith) word (omega arith)
          (omega arith);
    others =
        λ n high other. ground (arith, outside_gates handlers.exception exceptions s.idt n high);
  },
  refl,
)
