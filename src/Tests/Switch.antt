-- ===== src/Tests/Switch.antt =====
-- A switch from thread 1000 to thread 2000, whose addresses are small.
use finux.Prelude.{
  ℕ, ◌+◌, ◌-◌, ◌≤◌, ◌≡◌, ◌≢◌, refl, sym, inl, inr, arith, ◌==◌, if◌then◌else◌, update, [], ◌∷◌, ◌∈◌,
}
use finux.Sched.{Kernel, timer_handler}
use finux.Sched.Queue.{Runs}
use finux.Sched.Rotate.{timer_handler-Runs}
use finux.Tests.Mutex.{two_threads, two_threads-Runs}
use finux.Desc.{kernel_cs, kernel_ds, dis_gs}
use finux.Thread.{Registers}
use finux.Switch.{
  Processor, push_all, take_interrupt, save_registers, store_esp, irq00_entry, make_room,
  yield_entry, sys_entry, switch_to,
}
use finux.Switch.Frames.{Running, Saved, KeepsFrame}
use finux.Switch.Entries.{Switches}
use finux.Switch.Interrupt.{interrupted, irq00_entry-leaves_flags}
use finux.Switch.Syscall.{Returned, sys_entry-Returned}
use finux.Switch.Begin.{Begins, switch_to-Begins}
use finux.Switch.Rotation.{Schedules, AllSaved, irq00_entry-Rotates}
use finux.Switch.Yield.{yielding, yield_entry-Switches}

-- `current_thread` is at 100, and the frame of thread 2000 at 0x5000.
abbrev words : ℕ → ℕ
words a =
    if a == 100
    then 1000
    else if a == 2000
    then 0x5000
    else if a == 0x5030
    then 0x300
    else if a == 0x5034
    then 0x20
    else 0

abbrev running : Processor
running = record {
  eax = 1;
  ecx = 2;
  edx = 3;
  ebx = 4;
  esp = 0x8000;
  ebp = 5;
  esi = 6;
  edi = 7;
  ds = 0x28;
  es = 0x28;
  fs = 0x28;
  gs = 0x48;
  cs = 0x20;
  eip = 0x200;
  eflags = 0x202;
  word = words;
}

-- What thread 2000 goes on as.
abbrev waiting : Processor
waiting = record running {
  eax = 0;
  ecx = 0;
  edx = 0;
  ebx = 0;
  ebp = 0;
  esi = 0;
  edi = 0;
  ds = 0;
  es = 0;
  fs = 0;
  gs = 0;
  eip = 0x300;
}

abbrev called : Processor → Processor
called p = record p { word = update p.word 100 2000 }

called-KeepsFrame :
    (thread base : ℕ) (p : Processor)
    → thread ≢ 100
    → 0x5000 ≤ base
    → KeepsFrame thread base p.word (called p).word
called-KeepsFrame thread base p other high a (inl e) = ground (arith, e)
called-KeepsFrame thread base p other high a (inr (low, below)) = ground arith

abbrev here : Processor
here =
    interrupted 100 1000 running (omega arith) (omega arith) refl (inl (omega arith))
      (inl (omega arith))

here-current : here.word 100 ≡ 1000
unfolding store_esp save_registers take_interrupt push_all
here-current = refl

-- The handler leaves the thread alone.
irq00_entry-leaves_flags_example :
    Running running 0x7ffc (irq00_entry 100 (λ p. p) (take_interrupt running))
irq00_entry-leaves_flags_example =
    irq00_entry-leaves_flags 100 1000 running (omega arith) (omega arith) refl (inl (omega arith))
      (inl (omega arith)) (λ p. p) here-current (λ a h. refl)

-- The thread calls `yield`; its return address is 0x204.
abbrev calling : Processor
calling = record running { word = update words 0x8000 0x204 }

abbrev there : Processor
there =
    yielding 100 1000 calling (omega arith) (omega arith) refl (inl (omega arith))
      (inl (omega arith))

there-Switches : Switches 100 1000 0x7fcc 2000 0x5000 waiting there (called there)
unfolding store_esp save_registers make_room push_all
there-Switches = record {
  current = refl;
  next = record {
    esp = refl;
    room = omega arith;
    frame = record {
      gs = refl;
      fs = refl;
      es = refl;
      ds = refl;
      edi = refl;
      esi = refl;
      ebp = refl;
      ebx = refl;
      edx = refl;
      ecx = refl;
      eax = refl;
      eip = refl;
      cs = refl;
    };
  };
  kept = called-KeepsFrame 1000 0x7fcc there (omega arith) (omega arith);
}

yield_entry-Switches_example :
    let final = yield_entry 100 called calling in
    Running waiting 0x5038 final
    × Saved (record calling { eip = 0x204; cs = 0x20 }) 1000 0x7fcc final.word
    × (0x8000 - 52 + 56 ≡ 0x8000 + 4)
yield_entry-Switches_example =
    yield_entry-Switches 100 1000 calling (omega arith) (omega arith) refl (inl (omega arith))
      (inl (omega arith)) called waiting 2000 0x5000 there-Switches

-- A system call whose handler does nothing.
sys_entry-Returned_example : Returned running (sys_entry (λ p. p) (take_interrupt running))
sys_entry-Returned_example =
    sys_entry-Returned running (omega arith) (omega arith) (λ p. p) refl (λ a low high. refl)

-- A thread at 1000 with the stack at 0x2000, whose function is at 0x300.
abbrev new_words : ℕ → ℕ
new_words a =
    if a == 1000
    then 0xa000
    else if a == 0xa000
    then dis_gs
    else if a == 0xa004
    then kernel_ds
    else if a == 0xa008
    then kernel_ds
    else if a == 0xa00c
    then kernel_ds
    else if a == 0xa030
    then 0x300
    else if a == 0xa034
    then kernel_cs
    else 0

abbrev no_registers : Registers
no_registers = record {
  gs = 0;
  fs = 0;
  es = 0;
  ds = 0;
  edi = 0;
  esi = 0;
  ebp = 0;
  kernel_esp = 0;
  ebx = 0;
  edx = 0;
  ecx = 0;
  eax = 0;
  eip = 0;
  cs = 0;
  esp = 0;
  ss = 0;
  eflags = 0;
}

abbrev scheduling : Processor
scheduling = record running { eax = 0xa000; word = new_words }

switch_to-Begins_example : Begins 0x300 0x2000 (switch_to scheduling)
switch_to-Begins_example =
    switch_to-Begins 0x300 0x2000 1000 no_registers scheduling refl refl (omega arith) (record {
      gs = refl;
      fs = refl;
      es = refl;
      ds = refl;
      edi = refl;
      esi = refl;
      ebp = refl;
      ebx = refl;
      edx = refl;
      ecx = refl;
      eax = refl;
      eip = refl;
      cs = refl;
    })

-- The end of a time slice: thread 1000 runs and thread 2000 is ready.
abbrev due_threads : Kernel
due_threads = record two_threads { ticks = 19 }

due_threads-Runs : Runs due_threads 1000 (2000 ∷ [])
due_threads-Runs = record {
  current = two_threads-Runs.current;
  ready = two_threads-Runs.ready;
  apart = two_threads-Runs.apart;
  small = two_threads-Runs.small;
}

here-Saved : Saved waiting 2000 0x5000 here.word
unfolding store_esp save_registers take_interrupt push_all
here-Saved = record {
  esp = refl;
  room = omega arith;
  frame = record {
    gs = refl;
    fs = refl;
    es = refl;
    ds = refl;
    edi = refl;
    esi = refl;
    ebp = refl;
    ebx = refl;
    edx = refl;
    ecx = refl;
    eax = refl;
    eip = refl;
    cs = refl;
  };
}

one_waiting : (u : ℕ) → u ∈ (2000 ∷ []) → Saved waiting u 0x5000 here.word
one_waiting u among = let e : u ≡ 2000 = ground (arith, among) in rw e here-Saved

here-Schedules :
    Schedules 100 1000 2000 [] due_threads running
      (λ u. waiting)
      (λ u. 0x5000)
      due_threads-Runs
      (omega arith)
      (omega arith)
      refl
      (inl (omega arith))
      (inl (omega arith))
      (called here)
here-Schedules = record {
  picks = sym (timer_handler-Runs due_threads-Runs).1.current;
  keeps = λ u among. called-KeepsFrame u _ here (ground (arith, among)) (ground arith);
}

irq00_entry-Rotates_example :
    let final = irq00_entry 100 called (take_interrupt running) in
    Runs (timer_handler due_threads) 2000 (1000 ∷ [])
    × Running waiting 0x5038 final
    × AllSaved 1000 running (λ u. waiting) (λ u. 0x5000) (1000 ∷ 2000 ∷ []) final.word
irq00_entry-Rotates_example =
    irq00_entry-Rotates 100 1000 2000 [] due_threads running (λ u. waiting) (λ u. 0x5000)
      due_threads-Runs (omega arith) (omega arith) refl (inl (omega arith)) (inl (omega arith))
      called one_waiting here-Schedules
