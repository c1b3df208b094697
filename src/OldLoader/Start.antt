-- ===== src/OldLoader/Start.antt =====
-- The start of the first loader, boot/bak/loader.c: the descriptors, the task, the interrupts and the
-- command to the drive. `KCS_SELECTOR` and the words of the code and data segments are parameters,
-- since no header defines them any more.
pub mod Segments
pub mod Vectors
pub mod Command
use finux.Prelude.{
  ℕ, zero, suc, ◌+◌, ◌-◌, ◌*◌, ◌^◌, List, true, update, Option, some, ◌>>=◌, bit_and, bit_or,
}
use finux.Prelude.Bits.{u8, u16, u32, ◌<<<◌}
use finux.Display.{Screen, literal, dis_loop}
use finux.Desc.{
  Desc, DescPtr, TssStruct, gdt_entry_init, gdtnum, kcs_local, kds_local, ucs_local, uds_local,
  tss_local, dis_local, kernel_cs, kernel_ds, kernel_tss, dis_gs,
}
use finux.Pic.{Ports, Cpu, outb_pic}
use finux.Disk.{HdCmd, reg_drive, ata_identify, wait_ready}
use finux.OldLoader.{Paged, old_set_page}

-- The constants of the lost header, and the addresses of the globals and functions.
pub record OldNames : Type 0 where
  pub kernel_code : Desc
  pub kernel_date : Desc
  pub user_code : Desc
  pub user_date : Desc
  pub kcs_selector : ℕ
  pub gdt_at : ℕ
  pub tss_at : ℕ
  pub idt_at : ℕ
  pub idt_test : ℕ
  pub test_call_hd : ℕ
  pub call_gate_test : ℕ

-- The tables and registers of the segments, with the task's.
pub record OldSegments : Type 0 where
  pub gdt : ℕ → Desc
  pub gdtr : DescPtr
  pub tss : TssStruct
  pub tr : ℕ
  pub cs : ℕ
  pub ds : ℕ
  pub ss : ℕ
  pub gs : ℕ
  pub esp : ℕ

-- The `strlen` bytes from `straddr` on are given as a list.
unfoldable pub old_dis_str : List ℕ → (color local : ℕ) → Screen → ℕ × Screen
old_dis_str straddr color local screen = dis_loop color straddr 0 local screen

-- A gate with these five bits and privilege level above the type.
abbrev pub old_gate : (kcs_selector flags handler : ℕ) → Desc
old_gate kcs_selector flags handler = record {
  a = u32 (bit_or (kcs_selector <<< 16) (bit_and handler 0xffff));
  b = bit_or (bit_and handler 0xffff0000) flags;
}

module _ (names : OldNames) where
  open names use {kcs_selector}

  -- The far jump at the end loads `cs`.
  unfoldable pub old_cstart : OldSegments → OldSegments
  old_cstart s =
      let gdt1 = update s.gdt 0 (record { a = 0; b = 0 }) in
      let gdt2 = update gdt1 kcs_local names.kernel_code in
      let gdt3 = update gdt2 kds_local names.kernel_date in
      let gdt4 = update gdt3 ucs_local names.user_code in
      let gdt5 = update gdt4 uds_local names.user_date in
      let gdt6 = update gdt5 dis_local (gdt_entry_init 0x92 0xb8000 0xffff) in
      record s {
        gdt = gdt6;
        gdtr = record { size = u16 (gdtnum * 8 - 1); address = names.gdt_at };
        cs = 0x20;
        ds = 0x28;
        gs = 0x48;
      }

  -- `GDT_Changed` up to `ltr`.
  unfoldable pub set_task : OldSegments → OldSegments
  set_task s = record s {
    ss = s.ds;
    esp = 0x7bff;
    tss = record {
      sp0 = 0x7bff;
      ss0 = kernel_ds;
      io_bitmap_base = 109;
      io_map_end = 0xff;
      tss_len = 105;
    };
    gdt = update s.gdt tss_local (gdt_entry_init 0x89 names.tss_at (105 - 1));
    tr = kernel_tss;
  }

  -- `Call_Gate`, up to the call; nothing calls it.
  unfoldable pub call_gate : (ℕ → Desc) → ℕ → Desc
  call_gate gdt = update gdt 3 (old_gate kcs_selector 0xec00 names.call_gate_test)

  -- The loop of `init_idt`.
  unfoldable pub fill_idt : (left i : ℕ) → (ℕ → Desc) → ℕ → Desc
  fill_idt zero i idt = idt
  fill_idt (suc left) i idt =
      fill_idt left (i + 1) (update idt i (old_gate kcs_selector 0xee00 names.idt_test))

  module _ (ports : Ports) where
    pub record OldInterrupts : Type 0 where
      pub idt : ℕ → Desc
      pub idtr : DescPtr
      pub cpu : Cpu ports

    unfoldable pub old_init_idt : OldInterrupts → OldInterrupts
    old_init_idt s = record {
      idt = update (fill_idt 256 0 s.idt) 0x3e (old_gate kcs_selector 0xee00 names.test_call_hd);
      idtr = record { size = 256 * 8 - 1; address = names.idt_at };
      cpu = record (s.cpu) { interrupts = true };
    }

module _ (ports : Ports) where
  open ports use {State}

  unfoldable pub old_init_8259a : State → State
  unfolding outb_pic
  old_init_8259a s =
      let s1 = outb_pic ports 0x11 0x20 s in
      let s2 = outb_pic ports 0x11 0xa0 s1 in
      let s3 = outb_pic ports 0x30 0x21 s2 in
      let s4 = outb_pic ports 0x38 0xa1 s3 in
      let s5 = outb_pic ports 0x4 0x21 s4 in
      let s6 = outb_pic ports 0x2 0xa1 s5 in
      let s7 = outb_pic ports 0x1 0x21 s6 in
      let s8 = outb_pic ports 0x1 0xa1 s7 in
      let s9 = outb_pic ports 0xfb 0x21 s8 in outb_pic ports 0xbf 0xa1 s9

  -- The polls of the status have fuel, the same for each.
  unfoldable pub old_hd_cmd_out : ℕ → HdCmd → State → Option State
  old_hd_cmd_out fuel cmd s = do
    s1 ← wait_ready ports fuel s
    s2 ← wait_ready ports fuel (outb_pic ports 0 0x3f6 s1)
    s3 ← wait_ready ports fuel (outb_pic ports cmd.features 0x1f1 s2)
    s4 ← wait_ready ports fuel (outb_pic ports cmd.sector_count 0x1f2 s3)
    s5 ← wait_ready ports fuel (outb_pic ports cmd.lba_low 0x1f3 s4)
    s6 ← wait_ready ports fuel (outb_pic ports cmd.lba_mid 0x1f4 s5)
    s7 ← wait_ready ports fuel (outb_pic ports cmd.lba_hig 0x1f5 s6)
    s8 ← wait_ready ports fuel (outb_pic ports cmd.device 0x1f6 s7)
    wait_ready ports fuel (outb_pic ports cmd.command 0x1f7 s8)

  -- The other fields of the local `cmd` hold what the stack does.
  unfoldable pub old_hd_identify : ℕ → HdCmd → State → Option State
  old_hd_identify fuel cmd s =
      old_hd_cmd_out fuel (record cmd { device = u8 (reg_drive 0 0 0); command = ata_identify }) s

  -- The whole machine in `GDT_Changed`.
  pub record OldMachine (names : OldNames) : Type 0 where
    pub segments : OldSegments
    pub paged : Paged
    pub screen : Screen
    pub interrupts : OldInterrupts names ports

  -- `GDT_Changed` up to `hd_identify`, which is the last call.
  unfoldable pub gdt_changed : (names : OldNames) → ℕ → OldMachine names → OldMachine names
  gdt_changed names detect_count s =
      let screen1 = (old_dis_str (literal "get detect memory map ok.") 0xc 0x0 s.screen).1 in
      let screen2 = (old_dis_str (literal "set page ok.") 0xc 80 screen1).1 in
      let screen3 = (old_dis_str (literal "init the 8259A ok.") 0xc 160 screen2).1 in
      let cpu = record (s.interrupts.cpu) { device = old_init_8259a s.interrupts.cpu.device } in
      record {
        segments = set_task names s.segments;
        paged = old_set_page detect_count s.paged;
        screen = screen3;
        interrupts = old_init_idt names ports (record (s.interrupts) { cpu = cpu });
      }
