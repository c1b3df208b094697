-- ===== src/Thread/Creation.antt =====
-- A thread that `thread_creat` has made.
use finux.Prelude.{
  ℕ, ◌+◌, ◌≡◌, ◌≢◌, refl, ◌⊎◌, arith, List, [], ◌∷◌, some, ◌==◌, ==_iff, true, update, length,
  get_or, ◌<◌, ◌≤◌, inl, zero, suc, ◌∙◌, ap, ◌∈◌,
}
use finux.Prelude.Bits.{u32}
use finux.Desc.{kernel_cs, kernel_ds, dis_gs}
use finux.Links.{init_list_head}
use finux.Links.Ring.{last, IsRing, SameOutside}
use finux.Prelude.Regions.{Apart}
use finux.Page.{Pages, get_pages, got}
use finux.Sched.{elem_of}
use finux.Thread.{
  Globals, Threads, get_pid, set_name, fill_thread, fill_creat, with_thread, with_stack,
  thread_creat, schedule, kernel_stack_size, set_current, init_elem, creat_init,
}
use finux.Display.{literal}

pub thread_creat_got :
    (globals : Globals) (name : List ℕ) (function : ℕ) (s : Threads) {t u : ℕ}
    {pages1 pages2 : Pages}
    → get_pages 1 s.pages ≡ got t pages1
    → get_pages 3 pages1 ≡ got u pages2
    → thread_creat globals name function s
      ≡ some (t, fill_creat globals name function t u (record s { pages = pages2 }))
unfolding thread_creat with_thread with_stack
thread_creat_got globals name function s thread stack = rw (thread, stack)

set_name_lem :
    (cs : List ℕ) (i k : ℕ) (thread_name : ℕ → ℕ)
    → ((k < length cs) → set_name cs i thread_name (i + k) ≡ get_or cs k 0)
      × ((a : ℕ) → (a < i) ⊎ (i + length cs ≤ a) → set_name cs i thread_name a ≡ thread_name a)
unfolding set_name
set_name_lem [] i k thread_name = (λ low. absurd (omega (arith, low)), λ a out. refl)
set_name_lem (c ∷ cs) i zero thread_name =
    let at : i + 0 ≡ i = omega arith in
    let (inside, outside) = set_name_lem cs (i + 1) 0 (update thread_name i c) in
    (
      λ low. rw at (outside i (inl (omega arith)) ∙ ground arith),
      λ a out. outside a (ground arith) ∙ ground arith,
    )
set_name_lem (c ∷ cs) i (suc k) thread_name =
    let at : i + 1 + k ≡ i + suc k = omega arith in
    let (inside, outside) = set_name_lem cs (i + 1) k (update thread_name i c) in
    (
      λ low. rw at at (inside (omega (arith, low))),
      λ a out. outside a (ground arith) ∙ ground arith,
    )

-- The thread `t` runs `function` when it is scheduled, under its name and with the stack `u`.
pub record Created (text : List ℕ) (function number t u : ℕ) (before after : Threads) : Type 0 where
  pub eip : (schedule t after).eip ≡ function
  pub segments :
      ((schedule t after).cs ≡ kernel_cs)
      × ((schedule t after).ds ≡ kernel_ds)
      × ((schedule t after).es ≡ kernel_ds)
      × ((schedule t after).fs ≡ kernel_ds)
      × ((schedule t after).gs ≡ dis_gs)
  pub pid : (after.thread t).pid ≡ number
  pub name : (k : ℕ) → k < length text → (after.thread t).thread_name k ≡ get_or text k 0
  pub alone : IsRing after.kernel.links (elem_of t) []
  pub others : (a : ℕ) → a ≢ t → after.thread a ≡ before.thread a
  pub frames : (a : ℕ) → a ≢ u + kernel_stack_size → after.regs a ≡ before.regs a
  pub links : SameOutside (elem_of t ∷ []) before.kernel.links after.kernel.links

filled-Created :
    (globals : Globals) (t u number : ℕ) (name : List ℕ) (function owner : ℕ) (s : Threads)
    → Created name function number t u s
        (set_current globals (fill_thread t u number name function owner (init_elem t s)))
unfolding fill_thread schedule init_list_head
filled-Created globals t u number name function owner s =
    let self_t : (t == t) ≡ true = (==_iff t t).1 refl in
    let self_u : (u + kernel_stack_size == u + kernel_stack_size) ≡ true =
      (==_iff (u + kernel_stack_size) (u + kernel_stack_size)).1 refl in
    record {
      eip = rw (self_t, self_u) refl;
      segments = rw (self_t, self_u) (refl, refl, refl, refl, refl);
      pid = rw self_t refl;
      name = λ k low.
          let at : 0 + k ≡ k = omega arith in
          rw self_t (rw at at ((set_name_lem name 0 k (s.thread t).thread_name).0 low));
      alone = record { chain = last (ground arith); distinct = (refl, tt) };
      others = λ a other. ground arith;
      frames = λ a other. ground arith;
      links = record { next = λ a out. ground arith; prev = λ a out. ground arith };
    }

-- The bytes of a `struct thread`, of its saved registers, and of these with the pointer behind them.
abbrev thread_bytes : ℕ
thread_bytes = 40

abbrev frame_bytes : ℕ
frame_bytes = 68

abbrev frame_end_bytes : ℕ
frame_end_bytes = 72

-- What is written for a thread `t` with the stack `u` stands apart from the structure of thread `a`
-- and from the registers that are saved for it.
pub record ApartFrom (t u a : ℕ) (s : Threads) : Type 0 where
  pub structs : Apart t thread_bytes a thread_bytes
  pub struct_frame : Apart t thread_bytes (s.thread a).esp frame_bytes
  pub frame_struct : Apart (u + kernel_stack_size) frame_end_bytes a thread_bytes
  pub frames : Apart (u + kernel_stack_size) frame_end_bytes (s.thread a).esp frame_bytes

-- Thread `a` is as before: its structure, what it goes on with when it is scheduled, and its place in
-- the lists.
pub record SameThread (a : ℕ) (before after : Threads) : Type 0 where
  pub struct : after.thread a ≡ before.thread a
  pub frame : schedule a after ≡ schedule a before
  pub next : after.kernel.links.next (elem_of a) ≡ before.kernel.links.next (elem_of a)
  pub prev : after.kernel.links.prev (elem_of a) ≡ before.kernel.links.prev (elem_of a)

Created-SameThread :
    {text : List ℕ} {function number t u : ℕ} {before after : Threads} (a : ℕ)
    → Created text function number t u before after
    → ApartFrom t u a before
    → SameThread a before after
unfolding schedule
Created-SameThread {t} {u} {before} {after} a created apart =
    let other : a ≢ t = ground (arith, apart.structs) in
    let struct = created.others a other in
    let outside : elem_of a ≢ elem_of t = omega (arith, other) in
    record {
      struct = struct;
      frame =
          ap (λ thread. after.regs thread.esp) struct
          ∙ created.frames (before.thread a).esp (ground (arith, apart.frames));
      next = created.links.next (elem_of a) (ground (arith, outside));
      prev = created.links.prev (elem_of a) (ground (arith, outside));
    }

-- If the allocator has the pages, `thread_creat` returns a thread that will start at `function` in
-- the kernel's segments, with a pid one above the counter and its list node alone. The other threads
-- that are given, with their saved registers and their places in the lists, are as before, when what
-- is written stands apart from them: the registers are written 8 pages from the start of the stack,
-- behind the 3 pages that the allocator gave. The new structure and the new registers stand apart as
-- well. The counter is not moved.
pub thread_creat-Created :
    (globals : Globals) (name : List ℕ) (function : ℕ) (s : Threads) (t u : ℕ)
    (pages1 pages2 : Pages) (others : List ℕ)
    → get_pages 1 s.pages ≡ got t pages1
    → get_pages 3 pages1 ≡ got u pages2
    → Apart t thread_bytes (u + kernel_stack_size) frame_end_bytes
    → ((a : ℕ) → a ∈ others → ApartFrom t u a s)
    → (s' : Threads) × (thread_creat globals name function s ≡ some (t, s'))
      × Created name function (u32 (s.max_pid + 1)) t u s s'
      × ((a : ℕ) → a ∈ others → SameThread a s s')
      × (s'.max_pid ≡ s.max_pid)
unfolding fill_creat fill_thread get_pid schedule
thread_creat-Created globals name function s t u pages1 pages2 others thread stack separate apart =
    let created =
      filled-Created globals t u (u32 (s.max_pid + 1)) name function globals.init_struct s in
    let made : Created name function (u32 (s.max_pid + 1)) t u s
        (fill_creat globals name function t u (record s { pages = pages2 })) =
      record {
        eip = created.eip;
        segments = created.segments;
        pid = created.pid;
        name = created.name;
        alone = created.alone;
        others = created.others;
        frames = created.frames;
        links = created.links;
      } in
    (
      fill_creat globals name function t u (record s { pages = pages2 }),
      thread_creat_got globals name function s thread stack,
      made,
      λ a i. Created-SameThread a made (apart a i),
      refl,
    )

-- `creat_init` leaves the thread `init_struct` current; when it is scheduled it will start at
-- `init_thread` in the kernel's segments, with pid 0 and its list node alone, and the other threads,
-- frames and list nodes are as before.
pub creat_init-Created :
    (globals : Globals) (s : Threads)
    → Created
        (literal "init_thread")
        globals.init_thread
        0
        globals.init_struct
        globals.init_stack
        s
        (creat_init globals s)
      × ((creat_init globals s).kernel.current_thread ≡ globals.init_struct)
unfolding creat_init fill_thread schedule
creat_init-Created globals s =
    let created =
      filled-Created globals globals.init_struct globals.init_stack 0 (literal "init_thread")
        globals.init_thread globals.init_struct s in
    (
      record {
        eip = created.eip;
        segments = created.segments;
        pid = created.pid;
        name = created.name;
        alone = created.alone;
        others = created.others;
        frames = created.frames;
        links = created.links;
      },
      refl,
    )
