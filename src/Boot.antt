-- ===== src/Boot.antt =====
-- The interrupts of the loader and its set-up of the devices: boot/interrupt.c, boot/timer.c,
-- boot/init_idt.c and the first half of `Cstart`, boot/loader.c. `set_intr_gate` and `init_hd` are
-- those of Disk.Setup.
pub mod Master
pub mod Ticks
pub mod Ready
use Prim.Native.String.{String}
use finux.Prelude.{ℕ, ◌+◌, ◌-◌, ◌*◌, Bool, true, ◌==◌, if◌then◌else◌, update, bit_and, bit_or, List}
use finux.Prelude.Bits.{u8, ◌<<<◌}
use finux.Display.{Screen, literal, dis_str, put_cell}
use finux.Pic.{Ports, Cpu, init_8259a, enable_irq}
use finux.Idt.{IdtState, idtnum}
use finux.Disk.Setup.{boot_intr_gate, init_hd}

-- `%bl` with `1 << irq` in `%ebx`.
abbrev pub line_bit : ℕ → ℕ
line_bit irq = u8 (1 <<< irq)

-- What `boot_timer_handler` keeps and writes to.
pub record Ticking : Type 0 where
  pub ticks : ℕ
  pub screen : Screen

-- Where the handlers and the table are.
pub record BootHandlers : Type 0 where
  pub timer_at : ℕ
  pub irq00_handler : ℕ
  pub hd_handler_at : ℕ
  pub irq14_handler : ℕ
  pub idt_address : ℕ

module _ (ports : Ports) where
  open ports use {State, inb, outb}

  -- The first `asm` of `interrupt_master`: the line is masked, and the master may go on.
  unfoldable pub enter_irq : ℕ → Cpu ports → Cpu ports
  enter_irq irq c =
      let (now, s1) = inb 0x21 c.device in
      let s2 = outb (bit_or now (line_bit irq)) 0x21 s1 in
      record { device = outb 0x20 0x20 s2; interrupts = true }

  -- The third one and the end; `iret` gives back flags that had interrupts on.
  unfoldable pub leave_irq : ℕ → Cpu ports → Cpu ports
  leave_irq irq c =
      let (now, s1) = inb 0x21 c.device in
      record { device = outb (bit_and now (255 - line_bit irq)) 0x21 s1; interrupts = true }

  module _ {S : Type 0} (call : ℕ → S → Cpu ports → S × Cpu ports) (interrupt : ℕ → ℕ) where
    -- What the code at an address does is a parameter. The registers are left out.
    unfoldable pub interrupt_master : ℕ → S → Cpu ports → S × Cpu ports
    interrupt_master irq s c =
        let (s1, c1) = call (interrupt irq) s (enter_irq irq c) in (s1, leave_irq irq c1)

    unfoldable pub irq00_handler : S → Cpu ports → S × Cpu ports
    irq00_handler s c = interrupt_master 0 s c

    unfoldable pub irq14_handler : S → Cpu ports → S × Cpu ports
    irq14_handler s c = interrupt_master 14 s c

  -- `char ticks` never has its sign bit set; it counts on after it is shown.
  unfoldable pub boot_timer_handler : Ticking → Cpu ports → Ticking × Cpu ports
  boot_timer_handler t c =
      let ticks = if t.ticks == 0x7a then 0x41 else t.ticks in
      (
        record { ticks = u8 (ticks + 1); screen = put_cell 0xc ticks (24 * 160) t.screen },
        record c { device = outb 0x20 0x20 c.device },
      )

  unfoldable pub init_idt : ℕ → IdtState ports → IdtState ports
  init_idt idt_address s = record s {
    idtr = record { size = idtnum * 8 - 1; address = idt_address };
    cpu = record (s.cpu) { interrupts = true };
  }

  unfoldable pub boot_init_timer : (timer_at irq00_handler : ℕ) → IdtState ports → IdtState ports
  boot_init_timer timer_at irq00_handler s =
      let s1 = record s { interrupt = update s.interrupt 0 timer_at } in
      let s2 = boot_intr_gate ports 0 irq00_handler s1 in
      record s2 { cpu = enable_irq ports 0 s2.cpu }

  -- The machine and the screen, while `Cstart` sets up the devices.
  pub record Booting : Type 0 where
    pub machine : IdtState ports
    pub shown : Screen

  -- `dis_str(text, 0xc, row, 0)`
  abbrev pub announce : String → ℕ → Booting → Booting
  announce text row s = record s { shown = (dis_str (literal text) 0xc row 0 s.shown).1 }

  abbrev pub with_machine : (IdtState ports → IdtState ports) → Booting → Booting
  with_machine step s = record s { machine = step s.machine }

  -- `Init_8259A()` on the whole machine.
  abbrev pub with_chips : IdtState ports → IdtState ports
  with_chips s = record s { cpu = record (s.cpu) { device = init_8259a ports s.cpu.device } }

  -- `Cstart` up to `hd_identify`.
  unfoldable pub set_up_devices : BootHandlers → Booting → Booting
  set_up_devices h s =
      let s1 = with_machine with_chips (announce "Initing the 8259A..." 0 s) in
      let s2 = with_machine (init_idt h.idt_address) (announce "Initing the idt..." 1 s1) in
      let s3 =
        with_machine (boot_init_timer h.timer_at h.irq00_handler)
          (announce "Initing the timer..." 2 s2) in
      with_machine (init_hd ports h.hd_handler_at h.irq14_handler)
        (announce "Initing AT disk..." 3 s3)
