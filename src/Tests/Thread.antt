-- ===== src/Tests/Thread.antt =====
-- The first threads of a machine whose page map has just been set up.
use finux.Prelude.{ℕ, ◌≡◌, refl, true, some, update, arith, inl, inr, ◌∈◌, [], ◌∷◌}
use finux.Prelude.Int.{pos}
use finux.Display.{literal}
use finux.Page.{Pages, get_pages, select_mask, scan_map, scan_byte}
use finux.Sched.{Kernel}
use finux.Thread.{Globals, Threads, Registers, thread_creat, init_thread}
use finux.Thread.Creation.{Created, ApartFrom, SameThread, thread_creat-Created}
use finux.Thread.Start.{Allocates, Started, init_thread-Started}

abbrev pub globals : Globals
globals = record {
  init_struct = 0x204000;
  init_stack = 0x208000;
  init_thread = 0x201000;
  test_lock1 = 0x201100;
  test_lock2 = 0x201200;
}

-- The first byte of the map, which has two bytes.
abbrev map : ℕ → Pages
map b = record { bit_map = update (λ a. 0) 0 b; page_cnt = 16; page_bit_map_cnt = 2 }

abbrev marked : ℕ → Pages → Pages
marked b s = record s { bit_map = update s.bit_map 0 b }

abbrev no_registers : Registers
no_registers = record {
  gs = 0;
  fs = 0;
  es = 0;
  ds = 0;
  edi = 0;
  esi = 0;
  ebp = 0;
  kernel_esp = 0;
  ebx = 0;
  edx = 0;
  ecx = 0;
  eax = 0;
  eip = 0;
  cs = 0;
  esp = 0;
  ss = 0;
  eflags = 0;
}

abbrev kernel : Kernel
kernel = record {
  links = record { next = λ a. 0; prev = λ a. 0 };
  ready_list = 0;
  ready_thread = 0;
  current_thread = 0x204000;
  ticks = 1;
  interrupts = true;
  screen = λ a. 0;
}

abbrev pub fresh : Threads
fresh = record {
  kernel = kernel;
  pages = map 0x80;
  thread = λ t. record { esp = 0; pid = 0; function = 0; thread_name = λ i. 0; stack = 0 };
  regs = λ a. no_registers;
  thread_struct = λ a. 0;
  max_pid = 0;
  test_lock = record { value = pos 0; list = 0x203004 };
}

-- The second stack comes from a byte that has no three free pages, and is not marked.
fresh-Allocates : Allocates fresh 0x507000 0x504000 0x503000 0x50a000
unfolding get_pages select_mask scan_map scan_byte
fresh-Allocates = record {
  pages1 = marked 0x81 (map 0x80);
  pages2 = marked 0x8f (marked 0x81 (map 0x80));
  pages3 = marked 0x9f (marked 0x8f (marked 0x81 (map 0x80)));
  pages4 = marked 0x9f (marked 0x9f (marked 0x8f (marked 0x81 (map 0x80))));
  first_thread = refl;
  first_stack = refl;
  second_thread = refl;
  second_stack = refl;
}

init_thread-Started_example :
    (s' : Threads) × (init_thread globals fresh ≡ some s')
    × Started globals 0x203004 0x507000 0x503000 s'
init_thread-Started_example =
    init_thread-Started globals fresh 0x507000 0x504000 0x503000 0x50a000 fresh-Allocates
      (refl, (refl, (refl, (refl, tt)))) (omega arith) (omega arith) (omega arith)

-- The init thread, which is there before.
init-ApartFrom : (a : ℕ) → a ∈ (0x204000 ∷ []) → ApartFrom 0x507000 0x504000 a fresh
init-ApartFrom a i =
    let at : a ≡ 0x204000 = ground (arith, i) in
    record {
      structs = inr (omega (arith, at));
      struct_frame = inr (omega arith);
      frame_struct = inr (omega (arith, at));
      frames = inr (omega arith);
    }

thread_creat-Created_example :
    (s' : Threads) × (thread_creat globals (literal "test") 0x201300 fresh ≡ some (0x507000, s'))
    × Created (literal "test") 0x201300 1 0x507000 0x504000 fresh s'
    × ((a : ℕ) → a ∈ (0x204000 ∷ []) → SameThread a fresh s')
    × (s'.max_pid ≡ 0)
thread_creat-Created_example =
    thread_creat-Created globals (literal "test") 0x201300 fresh 0x507000 0x504000
      fresh-Allocates.pages1 fresh-Allocates.pages2 (0x204000 ∷ []) fresh-Allocates.first_thread
      fresh-Allocates.first_stack (inl (omega arith)) init-ApartFrom
