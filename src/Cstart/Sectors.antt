-- ===== src/Cstart/Sectors.antt =====
-- The sectors of the drive while `Cstart` sets up the devices and identifies it.
use finux.Prelude.{ℕ, ◌-◌, ◌≡◌, refl, ◌∙◌, Bool-cases, inl, inr, ltb, not, ◌&&◌, ◌==◌}
use finux.Pic.{
  Cpu, master_8259a_imr, slave_8259a_imr, outb_pic, inb_pic, init_8259a, cleared, enable_master,
  enable_slave, enable_irq,
}
use finux.Disk.Setup.{boot_intr_gate, init_hd}
use finux.Disk.Transfer.{DataPorts}
use finux.Disk.Transfer.Traffic.{Kept}
use finux.Boot.{BootHandlers, Booting, boot_init_timer, init_idt, set_up_devices}

-- What the ATA documentation says of the sectors that a drive holds: reading any port, writing to the
-- ports by bytes, waiting, and taking data from the data port do not change them.
pub record Holds (drive : DataPorts) (sectors : drive.ports.State → ℕ → ℕ → ℕ) : Type 0 where
  pub sectors_in : (s : drive.ports.State) (p : ℕ) → sectors (drive.ports.inb p s).1 ≡ sectors s
  pub sectors_out : (s : drive.ports.State) (v p : ℕ) → sectors (drive.ports.outb v p s) ≡ sectors s
  pub sectors_delay : (s : drive.ports.State) → sectors (drive.ports.io_delay s) ≡ sectors s
  pub sectors_data : (s : drive.ports.State) → sectors (drive.insw 0x1f0 256 s).1 ≡ sectors s

module _ (drive : DataPorts) (sectors : drive.ports.State → ℕ → ℕ → ℕ)
    (holds : Holds drive sectors) where
  open drive use {ports}
  open holds use {sectors_in, sectors_out, sectors_delay, sectors_data}

  pub sectors-Kept : (disk : ℕ → ℕ → ℕ) → Kept drive (λ s. sectors s ≡ disk)
  sectors-Kept disk = record {
    status = λ s same. sectors_in s 0x1f7 ∙ same;
    sent = λ s byte port is_sent same. sectors_out s byte port ∙ same;
    data_taken = λ s same. sectors_data s ∙ same;
    delay = λ s same. sectors_delay s ∙ same;
  }

  outb_pic-sectors : (s : ports.State) (v p : ℕ) → sectors (outb_pic ports v p s) ≡ sectors s
  unfolding outb_pic
  outb_pic-sectors s v p = sectors_delay (ports.outb v p s) ∙ sectors_out s v p

  inb_pic-sectors : (s : ports.State) (p : ℕ) → sectors (inb_pic ports p s).1 ≡ sectors s
  unfolding inb_pic
  inb_pic-sectors s p = sectors_delay (ports.inb p s).1 ∙ sectors_in s p

  init_8259a-sectors : (s : ports.State) → sectors (init_8259a ports s) ≡ sectors s
  unfolding init_8259a
  init_8259a-sectors s = simp outb_pic-sectors refl

  enable_master-sectors :
      (irq m : ℕ) (s : ports.State) → sectors (enable_master ports irq m s) ≡ sectors s
  unfolding enable_master
  enable_master-sectors irq m s = elim (Bool-cases (ltb irq 8 && not (irq == 2))) [
    | inl writes ↦ rw writes (outb_pic-sectors s (cleared ports irq m) master_8259a_imr)
    | inr skips ↦ rw skips refl
  ]

  enable_slave-sectors :
      (irq m l : ℕ) (s : ports.State) → sectors (enable_slave ports irq m l s) ≡ sectors s
  unfolding enable_slave
  enable_slave-sectors irq m l s = elim (Bool-cases (ltb 8 irq && ltb irq 16)) [
    | inl writes ↦ rw writes (
        outb_pic-sectors _ (cleared ports (irq - 8) l) slave_8259a_imr
        ∙ outb_pic-sectors s (cleared ports 2 m) master_8259a_imr)
    | inr skips ↦ rw skips refl
  ]

  enable_irq-sectors :
      (irq : ℕ) (c : Cpu ports) → sectors (enable_irq ports irq c).device ≡ sectors c.device
  unfolding enable_irq
  enable_irq-sectors irq c =
      enable_slave-sectors irq _ _ _
      ∙ enable_master-sectors irq _ _
      ∙ inb_pic-sectors _ slave_8259a_imr
      ∙ inb_pic-sectors c.device master_8259a_imr

  -- The set-up writes to the controllers alone.
  pub set_up_devices-sectors :
      (h : BootHandlers) (s : Booting ports)
      → sectors (set_up_devices ports h s).machine.cpu.device ≡ sectors s.machine.cpu.device
  unfolding set_up_devices init_idt boot_init_timer init_hd boot_intr_gate
  set_up_devices-sectors h s =
      enable_irq-sectors 14 _
      ∙ enable_irq-sectors 14 _
      ∙ enable_irq-sectors 0 _
      ∙ enable_irq-sectors 0 _
      ∙ init_8259a-sectors s.machine.cpu.device
