-- ===== src/Thread.antt =====
-- Threads: kernel/thread/init.c with the structures of kernel/thread/init.h, and `schedule` of
-- kernel/schedule.c. A thread is the address of its `struct thread`; the list nodes in it are
-- those of Links. Names have at most 16 bytes, as all names in the source have, so that copying
-- one stays within `thread_name`.
pub mod Start
pub mod Creation
pub mod Bodies
use finux.Prelude.{ℕ, zero, suc, ◌+◌, true, update, List, [], ◌∷◌, Option, none, some, ◌>>=◌}
use finux.Prelude.Bits.{u32}
use finux.Display.{literal, dis_str}
use finux.Desc.{kernel_cs, kernel_ds, dis_gs}
use finux.Links.{init_list_head, list_add_tail}
use finux.Page.{Pages, Got, got, panicked, get_pages}
use finux.Sched.{Kernel, elem_of, list_entry}
use finux.Sync.{Lock, get_lock}

-- `struct registers`
pub record Registers : Type 0 where
  pub gs : ℕ
  pub fs : ℕ
  pub es : ℕ
  pub ds : ℕ
  pub edi : ℕ
  pub esi : ℕ
  pub ebp : ℕ
  pub kernel_esp : ℕ
  pub ebx : ℕ
  pub edx : ℕ
  pub ecx : ℕ
  pub eax : ℕ
  pub eip : ℕ
  pub cs : ℕ
  pub esp : ℕ
  pub ss : ℕ
  pub eflags : ℕ

-- `struct thread`, without its list node.
pub record Thread : Type 0 where
  pub esp : ℕ
  pub pid : ℕ
  pub function : ℕ
  pub thread_name : ℕ → ℕ
  pub stack : ℕ

-- The registers stand behind the stack in a `struct thread_union`.
abbrev pub kernel_stack_size : ℕ
kernel_stack_size = 0x8000

-- The addresses that the linker chooses.
pub record Globals : Type 0 where
  pub init_struct : ℕ
  pub init_stack : ℕ
  pub init_thread : ℕ
  pub test_lock1 : ℕ
  pub test_lock2 : ℕ

-- The kernel, the allocator, the threads by their addresses, the saved registers by theirs, the
-- `thread_struct` fields by the addresses of their unions, and the lock that is tested. The structures,
-- the registers and the fields are written as the machine does while they stand apart.
pub record Threads : Type 0 where
  pub kernel : Kernel
  pub pages : Pages
  pub thread : ℕ → Thread
  pub regs : ℕ → Registers
  pub thread_struct : ℕ → ℕ
  pub max_pid : ℕ
  pub test_lock : Lock

-- `max_pid = pid++` stores the old value; the new one is returned.
unfoldable pub get_pid : Threads → ℕ × Threads
get_pid s = (u32 (s.max_pid + 1), record s { max_pid = s.max_pid })

-- `memcpy` of a name, without a NUL behind it, to the bytes from `i` on.
unfoldable pub set_name : List ℕ → ℕ → (ℕ → ℕ) → ℕ → ℕ
set_name [] i thread_name = thread_name
set_name (c ∷ cs) i thread_name = set_name cs (i + 1) (update thread_name i c)

-- The registers that both functions set; the others stay.
abbrev pub first_registers : (function stack : ℕ) → Registers → Registers
first_registers function stack regs = record regs {
  ds = kernel_ds;
  cs = kernel_cs;
  es = kernel_ds;
  fs = kernel_ds;
  ss = kernel_ds;
  gs = dis_gs;
  eip = function;
  esp = stack;
  eflags = 0x1202;
}

-- What both functions write to the two structures.
unfoldable pub fill_thread : (thread stack pid : ℕ) → List ℕ → ℕ → ℕ → Threads → Threads
fill_thread thread stack pid name function owner s = record s {
  thread = update s.thread thread (record {
    esp = stack + kernel_stack_size;
    pid = pid;
    function = function;
    thread_name = set_name name 0 (s.thread thread).thread_name;
    stack = stack;
  });
  regs =
      update s.regs (stack + kernel_stack_size)
        (first_registers function stack (s.regs (stack + kernel_stack_size)));
  thread_struct = update s.thread_struct stack owner;
}

-- `INIT_LIST_HEAD(&thread->elem)`
abbrev pub init_elem : ℕ → Threads → Threads
init_elem thread s = record s {
  kernel = record (s.kernel) { links = init_list_head (elem_of thread) s.kernel.links };
}

module _ (globals : Globals) where
  open globals use {init_struct, init_stack}

  abbrev pub set_current : Threads → Threads
  set_current s = record s { kernel = record (s.kernel) { current_thread = init_struct } }

  -- With the pages that it got. The owner of every union is `init_struct`.
  unfoldable pub fill_creat :
      (name : List ℕ) (function thread_struct stack_union : ℕ) → Threads → Threads
  fill_creat name function thread_struct stack_union s =
      let s1 = init_elem thread_struct s in
      let (pid, s2) = get_pid s1 in
      set_current (fill_thread thread_struct stack_union pid name function init_struct s2)

  -- With the pages for the stack.
  unfoldable pub with_stack : List ℕ → ℕ → ℕ → Threads → Got → Option (ℕ × Threads)
  with_stack name function thread_struct s panicked = none
  with_stack name function thread_struct s (got stack_union pages) = some (
    thread_struct,
    fill_creat name function thread_struct stack_union (record s { pages = pages }),
  )

  -- With the page for the thread.
  unfoldable pub with_thread : List ℕ → ℕ → Threads → Got → Option (ℕ × Threads)
  with_thread name function s panicked = none
  with_thread name function s (got thread_struct pages) =
      with_stack name function thread_struct s (get_pages 3 pages)

  -- The address of the thread, or `none` for PANIC.
  unfoldable pub thread_creat : (name : List ℕ) (function : ℕ) → Threads → Option (ℕ × Threads)
  unfolding with_thread with_stack
  thread_creat name function s = with_thread name function s (get_pages 1 s.pages)

  -- What `init_thread` does between the creation of the threads and its endless loop.
  unfoldable pub start_threads : (test_LOCK1 test_LOCK2 : ℕ) → Threads → Threads
  start_threads test_LOCK1 test_LOCK2 s =
      let (lock, k1) = get_lock s.test_lock s.kernel in
      let ready_list = elem_of test_LOCK1 in
      let links = list_add_tail (elem_of test_LOCK2) (k1.links.prev ready_list) k1.links in
      record s {
        test_lock = lock;
        kernel = record k1 {
          links = links;
          ready_list = ready_list;
          current_thread = init_struct;
          ready_thread = list_entry ready_list;
          interrupts = true;
        };
      }

  abbrev pub running_text : List ℕ
  running_text = literal "Init thread running."

  unfoldable pub init_thread : Threads → Option Threads
  init_thread s = do
    (test_LOCK1, s1) ← thread_creat (literal "test_LOCK1") globals.test_lock1 (record s {
      kernel = record (s.kernel) { screen = (dis_str running_text 0xb 0 0 s.kernel.screen).1 };
    })
    (test_LOCK2, s2) ← thread_creat (literal "test_LOCK2") globals.test_lock2 s1
    some (start_threads test_LOCK1 test_LOCK2 s2)

  -- Up to the call of `schedule`.
  unfoldable pub creat_init : Threads → Threads
  creat_init s =
      let s1 =
        fill_thread init_struct init_stack 0 (literal "init_thread") globals.init_thread init_struct
          s in
      set_current (init_elem init_struct s1)

-- `schedule` and `switch_to` of kernel/switch.S take the registers from where `esp` points.
unfoldable pub schedule : ℕ → Threads → Registers
schedule thread_ready s = s.regs (s.thread thread_ready).esp
