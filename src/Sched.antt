-- ===== src/Sched.antt =====
-- The scheduler: the timer interrupt of kernel/interrupt/timer.c and the yield of
-- kernel/syscall/sys_call.c with its system call, over the ready list of kernel/thread/init.c.
pub mod Queue
pub mod Rotate
pub mod Slices
pub mod Yield
use finux.Prelude.{ℕ, zero, suc, ◌+◌, ◌%◌, ◌^◌, Bool, true, List, not, ◌&&◌, ◌==◌, if◌then◌else◌}
use finux.Prelude.Bits.{u32, sub32}
use finux.Display.{Screen, literal, dis_str}
use finux.Links.{Links, list_add_tail, list_del}

-- The offset of `elem` in `struct thread`.
abbrev pub elem_offset : ℕ
elem_offset = 32

-- `&thread->elem`
abbrev pub elem_of : ℕ → ℕ
elem_of thread = thread + elem_offset

-- `list_entry(ptr, struct thread, elem)`
abbrev pub list_entry : ℕ → ℕ
list_entry ptr = sub32 ptr elem_offset

-- The globals that the kernel's threads share. `interrupts` is the interrupt flag, `screen` what
-- `dis_str` writes to.
pub record Kernel : Type 0 where
  pub links : Links
  pub ready_list : ℕ
  pub ready_thread : ℕ
  pub current_thread : ℕ
  pub ticks : ℕ
  pub interrupts : Bool
  pub screen : Screen

-- What both functions do with the head of the ready list.
unfoldable pub run_next : Kernel → Kernel
run_next k =
    let thread = list_entry k.ready_list in
    record k {
      ready_thread = thread;
      ready_list = k.links.next k.ready_list;
      links = list_del (elem_of thread) k.links;
      current_thread = thread;
    }

-- `list_add_tail(&thread->elem, READY_LIST->prev)`
unfoldable pub make_ready : ℕ → Kernel → Kernel
make_ready elem k = record k { links = list_add_tail elem (k.links.prev k.ready_list) k.links }

unfoldable pub timer_handler : Kernel → Kernel
timer_handler k =
    let k1 = record k { ticks = u32 (k.ticks + 1) } in
    if k1.ticks % 20 == 0 && not (k1.ready_list == 0)
    then run_next (make_ready (elem_of k1.current_thread) k1)
    else k1

unfoldable pub yield_thread : Kernel → Kernel
yield_thread k = run_next k

-- `n` timer interrupts.
unfoldable pub timer_ticks : ℕ → Kernel → Kernel
timer_ticks zero k = k
timer_ticks (suc n) k = timer_handler (timer_ticks n k)

abbrev pub syscall_text : List ℕ
syscall_text = literal "In the syscall_handler function."

-- `THREAD_YIELD`
abbrev pub thread_yield_num : ℕ
thread_yield_num = 1

-- `yield` of kernel/switch.S, without the registers that it saves and restores.
unfoldable pub yield : Kernel → Kernel
yield k = record (yield_thread k) { interrupts = true }

unfoldable pub syscall_handler : (syscall_num para1 para2 para3 para4 para5 : ℕ) → Kernel → Kernel
unfolding yield
syscall_handler syscall_num para1 para2 para3 para4 para5 k =
    let k1 = record k { screen = (dis_str syscall_text 0xc 0 0 k.screen).1 } in
    if syscall_num == thread_yield_num then yield k1 else k1

-- `int $0x80` with 1 in `%eax`; the other registers hold anything. `sys_entry` sets the flag.
unfoldable pub thread_yield : Kernel → Kernel
thread_yield k = syscall_handler 1 0 0 0 0 0 (record k { interrupts = true })
