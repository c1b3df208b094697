-- ===== src/Disk/Setup.antt =====
-- `init_hd` of boot/hd.c, with `set_intr_gate` of boot/init_idt.c and the vector numbers of
-- include/sys/idt.h. The table and the controllers are those of the kernel's modules, and the
-- addresses of the handlers are parameters.
pub mod Line
use finux.Prelude.{ℕ, ◌+◌, update}
use finux.Prelude.Bits.{◌<<<◌}
use finux.Desc.{set_gate}
use finux.Pic.{Ports, enable_irq}
use finux.Idt.{IdtState, irq_vector, gate_interrupt}

abbrev pub irq_at_hd : ℕ
irq_at_hd = 0xe

abbrev pub kcs_boot_selec : ℕ
kcs_boot_selec = 1 <<< 3

module _ (ports : Ports) where
  unfoldable pub boot_intr_gate : ℕ → ℕ → IdtState ports → IdtState ports
  boot_intr_gate irq handler s = record s {
    idt = update s.idt (irq + irq_vector) (set_gate gate_interrupt handler 0x0 kcs_boot_selec);
    cpu = enable_irq ports irq s.cpu;
  }

  unfoldable pub init_hd : (hd_handler_at irq14_handler : ℕ) → IdtState ports → IdtState ports
  init_hd hd_handler_at irq14_handler s =
      let s1 = record s { interrupt = update s.interrupt 14 hd_handler_at } in
      let s2 = boot_intr_gate irq_at_hd irq14_handler s1 in
      record s2 { cpu = enable_irq ports irq_at_hd s2.cpu }
