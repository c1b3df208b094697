-- ===== src/Exception.antt =====
-- The exception handlers of kernel/interrupt/exception.c, and PANIC of kernel/debug.h.
pub mod Report
use finux.Prelude.{ℕ, Bool, false, List}
use finux.Display.{Screen, literal, dis_str}

-- The processor's exceptions that have a handler.
pub data Exception : Type 0 where
  divide_error single_step_exception nmi breakpoint_exception overflow bounds_check : Exception
  inval_opcode copr_not_available double_fault copr_seg_overrun inval_tss : Exception
  segment_not_present stack_exception general_protection page_fault copr_error : Exception
  float_error alignment_check : Exception

-- `for(;;)`: the processor stays here, with this on the screen. The vector number is the handler's
-- first argument, which it does not use.
pub record Halted : Type 0 where
  pub vec_num : ℕ
  pub screen : Screen

unfoldable pub exception_handler : ℕ → List ℕ → Screen → Halted
exception_handler vec_num func_name screen =
    let screen1 = (dis_str (literal "EXCEPTION:") 0xa 0 0 screen).1 in
    let screen2 = (dis_str func_name 0xa 0 10 screen1).1 in
    record { vec_num = vec_num; screen = screen2 }

-- The handlers, one to a clause.
unfoldable pub handle : Exception → Screen → Halted
handle divide_error = exception_handler 0 (literal "divide_error")
handle single_step_exception = exception_handler 1 (literal "single_step_exception")
handle nmi = exception_handler 2 (literal "nmi")
handle breakpoint_exception = exception_handler 3 (literal "breakpoint_exception")
handle overflow = exception_handler 4 (literal "overflow")
handle bounds_check = exception_handler 5 (literal "bounds_check")
handle inval_opcode = exception_handler 6 (literal "inval_opcode")
handle copr_not_available = exception_handler 7 (literal "copr_not_available")
handle double_fault = exception_handler 8 (literal "double_fault")
handle copr_seg_overrun = exception_handler 9 (literal "copr_seg_overrun")
handle inval_tss = exception_handler 10 (literal "inval_tss")
handle segment_not_present = exception_handler 11 (literal "segment_not_present")
handle stack_exception = exception_handler 12 (literal "stack_exception")
handle general_protection = exception_handler 13 (literal "general_protection")
handle page_fault = exception_handler 14 (literal "page_fault")
handle copr_error = exception_handler 15 (literal "copr_error")
handle float_error = exception_handler 16 (literal "float_error")
handle alignment_check = exception_handler 17 (literal "alignment_check")

-- The vectors of include/sys/idt.h.
unfoldable pub vector : Exception → ℕ
vector divide_error = 0x0
vector single_step_exception = 0x1
vector nmi = 0x2
vector breakpoint_exception = 0x3
vector overflow = 0x4
vector bounds_check = 0x5
vector inval_opcode = 0x6
vector copr_not_available = 0x7
vector double_fault = 0x8
vector copr_seg_overrun = 0x9
vector inval_tss = 0xa
vector segment_not_present = 0xb
vector stack_exception = 0xc
vector general_protection = 0xd
vector page_fault = 0xe
vector copr_error = 0xf
vector float_error = 0x10
vector alignment_check = 0x11

-- `PANIC(str)`: interrupts off, the text on the screen, and no return.
pub record Panicked : Type 0 where
  pub interrupts : Bool
  pub screen : Screen

unfoldable pub panic : List ℕ → Screen → Panicked
panic str screen =
    let screen1 = (dis_str (literal "PANIC:") 0x9 0 0 screen).1 in
    record { interrupts = false; screen = (dis_str str 0xa 0 0 screen1).1 }
