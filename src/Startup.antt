-- ===== src/Startup.antt =====
-- The start of the kernel, kernel/kernel.c: the calls of `start_kernel`, up to the first thread. The
-- addresses that the linker chooses are parameters.
pub mod Up
use finux.Prelude.{ℕ}
use finux.MemInfo.{MemInfo, get_memory_info}
use finux.Paging.{Machine, set_page}
use finux.Desc.{GdtState, change_gdt, load_tss}
use finux.Pic.{Ports, disable_irqs}
use finux.Idt.{Handlers, IdtState, load_idt, init_timer}
use finux.Thread.{Globals, Threads, creat_init}

-- The addresses of the tables, of the handlers and of the first thread.
pub record Linked : Type 0 where
  pub tss_address : ℕ
  pub gdt_address : ℕ
  pub idt_address : ℕ
  pub handlers : Handlers
  pub globals : Globals

module _ (ports : Ports) where
  -- The state of all components; the page map is that of `paging`, and the threads' from there on.
  pub record Computer : Type 0 where
    pub gdt : GdtState
    pub info : MemInfo
    pub paging : Machine
    pub idt : IdtState ports
    pub threads : Threads

  -- `disable_irqs`, on the device of the processor.
  abbrev pub irqs_disabled : IdtState ports → IdtState ports
  irqs_disabled s = record s {
    cpu = record { device = disable_irqs ports s.cpu.device; interrupts = s.cpu.interrupts };
  }

  unfoldable pub start_kernel : Linked → Computer → Computer
  start_kernel linked c =
      let gdt = load_tss c.gdt in
      let info = get_memory_info c.paging.word c.info in
      let paging = set_page info c.paging in
      let idt1 = irqs_disabled c.idt in
      let idt2 = load_idt ports linked.handlers linked.idt_address idt1 in
      let idt3 = init_timer ports linked.handlers idt2 in
      record {
        gdt = gdt;
        info = info;
        paging = paging;
        idt = idt3;
        threads = creat_init linked.globals (record c.threads { pages = paging.pages });
      }

  -- `change_gdt` ends in the jump to `start_kernel`.
  unfoldable pub kernel_start : Linked → Computer → Computer
  kernel_start linked c =
      start_kernel linked
        (record c { gdt = change_gdt linked.tss_address linked.gdt_address c.gdt })
