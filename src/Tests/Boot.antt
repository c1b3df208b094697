-- ===== src/Tests/Boot.antt =====
-- The loader's interrupts on a pair of controllers.
use finux.Prelude.{ℕ, ◌≡◌, ◌⊎◌, refl, arith, inl, inr, true, ◌==◌, if◌then◌else◌}
use finux.Pic.{Cpu}
use finux.Pic.Mask.{ReadsMasks}
use finux.Pic.Irq.{Masks}
use finux.Pic.Setup.{Chip}
use finux.Boot.{Ticking, BootHandlers, enter_irq, interrupt_master, boot_timer_handler}
use finux.Boot.Master.{Ends, Handled, interrupt_master-Handled}
use finux.Boot.Ticks.{Ticked, interrupts_of_timer, interrupts_of_timer-Ticked}
use finux.Tests.Machine.{chip_ports}

abbrev pub mask_at : ℕ → (ℕ → Chip) → ℕ
mask_at q s = if q == 0x21 then (s 0x20).mask else if q == 0xa1 then (s 0xa0).mask else 0

abbrev pub Idle : (ℕ → Chip) → Type 0
Idle s = ((s 0x20).stage ≡ 0) × ((s 0xa0).stage ≡ 0)

pub reads_mask :
    (s : ℕ → Chip) (p : ℕ)
    → Idle s
    → (p ≡ 0x21) ⊎ (p ≡ 0xa1)
    → ((chip_ports.inb p s).0 ≡ mask_at p s)
      × Idle (chip_ports.inb p s).1
      × ((q : ℕ) → mask_at q (chip_ports.inb p s).1 ≡ mask_at q s)
reads_mask s p idle (inl e) = rw e (refl, idle, λ q. refl)
reads_mask s p idle (inr e) = rw e (refl, idle, λ q. refl)

pub writes_mask :
    (s : ℕ → Chip) (p v : ℕ)
    → Idle s
    → (p ≡ 0x21) ⊎ (p ≡ 0xa1)
    → Idle (chip_ports.outb v p s)
      × ((q : ℕ) → mask_at q (chip_ports.outb v p s) ≡ (if q == p then v else mask_at q s))
writes_mask s p v (im, is) (inl e) = rw (e, im, is) ((refl, refl), λ q. ground arith)
writes_mask s p v (im, is) (inr e) = rw (e, im, is) ((refl, refl), λ q. ground arith)

abbrev chip_reads : ReadsMasks chip_ports
chip_reads = record {
  Ready = Idle;
  imr = mask_at;
  in_mask = reads_mask;
  out_mask = writes_mask;
  delay = λ s ready. (ready, λ q. refl);
}

abbrev chip_ends : Ends chip_ports chip_reads
chip_ends = record { ends = λ s ready. (ready, λ q. refl) }

abbrev pub boot_handlers : BootHandlers
boot_handlers = record {
  timer_at = 0x9100;
  irq00_handler = 0x9200;
  hd_handler_at = 0x9300;
  irq14_handler = 0x9400;
  idt_address = 0xa000;
}

-- The masks that `Cstart` leaves.
abbrev running : Cpu chip_ports
running = record {
  device = λ c. record {
    stage = 0;
    vector_base = 0x30;
    cascade = 0;
    mode = 1;
    mask = if c == 0x20 then 0xfa else 0xbf;
  };
  interrupts = true;
}

abbrev running-Masks : Masks chip_ports chip_reads running.device 0xfa 0xbf
running-Masks = record { ready = (refl, refl); on_master = refl; on_slave = refl }

abbrev run_timer : ℕ → Ticking → Cpu chip_ports → Ticking × Cpu chip_ports
run_timer at t c = boot_timer_handler chip_ports t c

abbrev no_ticks : Ticking
no_ticks = record { ticks = 0x41; screen = λ p. 0 }

-- After 57 interrupts the letter is 'y'.
interrupts_of_timer-Ticked_example :
    let after =
      interrupts_of_timer chip_ports chip_reads chip_ends run_timer
        (λ n. 0x9100)
        57
        no_ticks
        running in
    Ticked 56 no_ticks after.0 × Masks chip_ports chip_reads after.1.device 0xfa 0xbf
interrupts_of_timer-Ticked_example =
    interrupts_of_timer-Ticked chip_ports chip_reads chip_ends run_timer (λ n. 0x9100) 56 0xfa 0xbf
      no_ticks running (λ t c. refl) refl running-Masks (omega arith) refl

-- The disk's line.
interrupt_master-Handled_example :
    let after =
      (interrupt_master chip_ports (λ handler s c. (s, c)) (λ n. 0x9300) 14 no_ticks running).1 in
    Handled chip_ports chip_reads chip_ends 14 0xfa 0xbf
      (enter_irq chip_ports 14 running).device
      after.device
    × (after.interrupts ≡ true)
interrupt_master-Handled_example =
    interrupt_master-Handled chip_ports chip_reads chip_ends (λ handler s c. (s, c)) (λ n. 0x9300)
      14 0xfa 0xbf no_ticks running running-Masks (omega arith) (omega arith) refl
      (λ n l s c masks. masks)
