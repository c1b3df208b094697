-- ===== src/Tests/Machine.antt =====
-- Descriptors, the screen, the exceptions and the interrupt controllers.
use finux.Prelude.{
  ℕ, ◌+◌, ◌-◌, ◌==◌, if◌then◌else◌, ◌≢◌, ◌%◌, ◌^◌, ◌≤◌, ◌<◌, ◌≡◌, ◌⊎◌, refl, false, update, arith,
}
use finux.Prelude.Bits.{sub32}
use finux.Desc.{GdtState, change_gdt}
use finux.Desc.Gdt.{HasSegments, Selects, change_gdt-HasSegments}
use finux.Pic.Setup.{Chip, data_written, Initialises}
use finux.Pic.{Ports, Cpu}
use finux.Pic.Mask.{ReadsMasks}
use finux.Pic.Irq.{Masks}

abbrev pub booted : GdtState
booted = record {
  gdt = λ n. record { a = 0; b = 0 };
  gdt_ptr = record { size = 0; address = 0 };
  tss = record { sp0 = 0; ss0 = 0; io_bitmap_base = 0; io_map_end = 0; tss_len = 0 };
  gdtr = record { size = 0; address = 0 };
  tr = 0;
  cs = 0;
  ds = 0;
  es = 0;
  fs = 0;
  ss = 0;
  gs = 0;
}

change_gdt-HasSegments_example :
    HasSegments 0x203000 (sub32 booted.tss.tss_len 1 % 2 ^ 20) (change_gdt 0x203000 0x202000 booted)
    × Selects (change_gdt 0x203000 0x202000 booted)
    × ((n : ℕ) → (n < 4) ⊎ (10 ≤ n) → (change_gdt 0x203000 0x202000 booted).gdt n ≡ booted.gdt n)
change_gdt-HasSegments_example = change_gdt-HasSegments 0x203000 0x202000 booted (omega arith)

-- Ports that are memory.
abbrev pub plain : Ports
plain = record {
  State = ℕ → ℕ;
  inb = λ p s. (s p, s);
  outb = λ v p s. update s p v;
  io_delay = λ s. s;
}

abbrev pub plain_reads : ReadsMasks plain
plain_reads = record {
  Ready = λ s. Unit;
  imr = λ p s. s p;
  in_mask = λ s p ready port. (refl, tt, λ q. refl);
  out_mask = λ s p v ready port. (tt, λ q. refl);
  delay = λ s ready. (tt, λ q. refl);
}

-- All lines are masked.
abbrev pub all_masked : Cpu plain
all_masked = record { device = λ p. 0xff; interrupts = false }

pub all_masked-Masks : Masks plain plain_reads all_masked.device 0xff 0xff
all_masked-Masks = record { ready = tt; on_master = refl; on_slave = refl }

-- A pair of controllers, as their registers.
abbrev pub chip_ports : Ports
chip_ports = record {
  State = ℕ → Chip;
  inb = λ p s. ((s (p - 1)).mask, s);
  outb = λ v p s c.
      if p == c + 1
      then data_written v (s c)
      else if p == c
      then (if v == 0x11 then record (s c) { stage = 1; mask = 0 } else s c)
      else s c;
  io_delay = λ s. s;
}

pub chip_starts :
    (c : ℕ) (s : ℕ → Chip) → chip_ports.outb 0x11 c s c ≡ record (s c) { stage = 1; mask = 0 }
chip_starts c s = ground arith

pub chip_takes : (c v : ℕ) (s : ℕ → Chip) → chip_ports.outb v (c + 1) s c ≡ data_written v (s c)
chip_takes c v s = ground arith

pub chip_others : (c p v : ℕ) (s : ℕ → Chip) → p ≢ c → p ≢ c + 1 → chip_ports.outb v p s c ≡ s c
chip_others c p v s other other_data = ground arith

abbrev pub plain_chips : Initialises chip_ports
plain_chips = record {
  chip = λ c s. s c;
  starts = chip_starts;
  takes = chip_takes;
  others = chip_others;
  delay = λ c s. refl;
}
