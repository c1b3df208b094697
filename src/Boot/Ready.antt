-- ===== src/Boot/Ready.antt =====
-- The interrupts when `Cstart` turns to the disk.
use finux.Prelude.{ℕ, ◌^◌, ◌<◌, ◌≡◌, refl, ◌∙◌, ap, arith, true}
use finux.Desc.Fields.{read_gate, set_gate-read_gate}
use finux.Pic.{Ports, Cpu, master_8259a_imr, slave_8259a_imr, enable_irq, init_8259a}
use finux.Pic.Mask.{ReadsMasks}
use finux.Pic.Irq.{Masks, enable_irq-Masks}
use finux.Pic.Setup.{Initialises, init_8259a-Chip}
use finux.Idt.{IdtState}
use finux.Idt.Vectors.{kernel_gate}
use finux.Disk.Setup.{init_hd, boot_intr_gate}
use finux.Boot.{BootHandlers, Booting, boot_init_timer, init_idt, set_up_devices}

-- That both descriptions of the controllers are of the same ones: the masks can be read when no
-- initialisation word is awaited, and they are the controllers'.
pub record Controllers (ports : Ports) : Type 1 where
  pub reads : ReadsMasks ports
  pub chips : Initialises ports
  pub ready :
      (s : ports.State)
      → (chips.chip 0x20 s).stage ≡ 0
      → (chips.chip 0xa0 s).stage ≡ 0
      → reads.Ready s
  pub same_masks :
      (s : ports.State)
      → reads.Ready s
      → (reads.imr master_8259a_imr s ≡ (chips.chip 0x20 s).mask)
        × (reads.imr slave_8259a_imr s ≡ (chips.chip 0xa0 s).mask)

module _ (ports : Ports) (controllers : Controllers ports) where
  open controllers use {reads, chips, ready, same_masks}

  init_8259a-Masks : (s : ports.State) → Masks ports reads (init_8259a ports s) 0xff 0xff
  init_8259a-Masks s =
      let (master, slave) = init_8259a-Chip ports chips s in
      let is_ready =
        ready (init_8259a ports s) (ap (λ c. c.stage) master) (ap (λ c. c.stage) slave) in
      let (of_master, of_slave) = same_masks (init_8259a ports s) is_ready in
      record {
        ready = is_ready;
        on_master = of_master ∙ ap (λ c. c.mask) master;
        on_slave = of_slave ∙ ap (λ c. c.mask) slave;
      }

  -- `boot_intr_gate` enables the line, and its caller does so again.
  abbrev twice : ℕ → Cpu ports → Cpu ports
  twice irq c = enable_irq ports irq (enable_irq ports irq c)

  lines-Masks :
      (c : Cpu ports)
      → Masks ports reads c.device 0xff 0xff
      → Masks ports reads (twice 14 (twice 0 c)).device 0xfa 0xbf
  lines-Masks c masks =
      let enabled = enable_irq-Masks ports reads in
      let c1 = enable_irq ports 0 c in
      let timer = enabled 0 0xfe 0xff c1 (enabled 0 0xff 0xff c masks) in
      let c2 = enable_irq ports 0 c1 in
      enabled 14 0xfa 0xbf (enable_irq ports 14 c2) (enabled 14 0xfe 0xff c2 timer)

  enable_irq-interrupts : (irq : ℕ) (c : Cpu ports) → (enable_irq ports irq c).interrupts ≡ true
  unfolding enable_irq
  enable_irq-interrupts irq c = refl

  -- What the loader has set up.
  pub record IsReady (h : BootHandlers) (s : IdtState ports) : Type 0 where
    pub timer_gate :
        read_gate (s.idt 0x30) ≡ record (kernel_gate 0xe h.irq00_handler) { selector = 8 }
    pub disk_gate :
        read_gate (s.idt 0x3e) ≡ record (kernel_gate 0xe h.irq14_handler) { selector = 8 }
    pub timer_slot : s.interrupt 0 ≡ h.timer_at
    pub disk_slot : s.interrupt 14 ≡ h.hd_handler_at
    pub table : s.idtr ≡ record { size = 2047; address = h.idt_address }
    pub masks : Masks ports reads s.cpu.device 0xfa 0xbf
    pub interrupts : s.cpu.interrupts ≡ true

  -- Whatever the controllers and the table held before, and with 32-bit addresses of the handlers:
  -- when `Cstart` has set up the devices, the gates at 0x30 and 0x3e lead to `irq00_handler` and
  -- `irq14_handler` through the boot code segment, the slots 0 and 14 to the timer's and the disk's
  -- handler, the table is loaded, the masks let through exactly lines 0 and 2 of the master and
  -- line 6 of the slave, and interrupts are on.
  pub set_up_devices-IsReady :
      (h : BootHandlers) (s : Booting ports)
      → h.irq00_handler < 2 ^ 32
      → h.irq14_handler < 2 ^ 32
      → IsReady h (set_up_devices ports h s).machine
  unfolding set_up_devices init_idt boot_init_timer init_hd boot_intr_gate
  set_up_devices-IsReady h s timer_word disk_word =
      let blank = init_8259a-Masks s.machine.cpu.device in
      let c : Cpu ports = record {
        device = init_8259a ports s.machine.cpu.device;
        interrupts = true;
      } in
      record {
        timer_gate =
            set_gate-read_gate 0xe h.irq00_handler 0 8 (omega arith) timer_word (omega arith)
              (omega arith);
        disk_gate =
            set_gate-read_gate 0xe h.irq14_handler 0 8 (omega arith) disk_word (omega arith)
              (omega arith);
        timer_slot = refl;
        disk_slot = refl;
        table = refl;
        masks = lines-Masks c blank;
        interrupts = enable_irq-interrupts 14 (enable_irq ports 14 (twice 0 c));
      }
