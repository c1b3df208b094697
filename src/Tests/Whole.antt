-- ===== src/Tests/Whole.antt =====
-- The whole of `Cstart` on two controllers and a drive that stays busy for three polls.
use finux.Prelude.{
  ℕ, ◌+◌, ◌%◌, ◌-◌, ◌<◌, ◌≡◌, ◌⊎◌, refl, arith, inl, inr, false, ◌==◌, if◌then◌else◌, update,
}
use finux.Pic.{Ports}
use finux.Pic.Mask.{ReadsMasks}
use finux.Pic.Setup.{Chip, Initialises}
use finux.Disk.{HdCmd}
use finux.Disk.Command.{Drive}
use finux.Disk.Transfer.{DataPorts, HdPlaces, HdStatus}
use finux.Fs.{Loader}
use finux.Boot.{Booting}
use finux.Boot.Ready.{Controllers}
use finux.Tests.Machine.{chip_ports, chip_starts, chip_takes, chip_others}
use finux.Tests.Boot.{mask_at, Idle, writes_mask}
use finux.Tests.Blank.{blank_loader, zeros}

-- The controllers, what the drive was given, and the polls to go.
abbrev Devices : Type 0
Devices = (ℕ → Chip) × (ℕ → ℕ) × ℕ

abbrev both : Ports
both = record {
  State = Devices;
  inb = λ p s.
      if p == 0x1f7
      then (if s.2 == 0 then 0x50 else 0xd0, (s.0, s.1, s.2 - 1))
      else (mask_at p s.0, s);
  outb = λ v p s. (chip_ports.outb v p s.0, update s.1 p v, s.2);
  io_delay = λ s. s;
}

both_in :
    (s : Devices) (p : ℕ)
    → Idle s.0
    → (p ≡ 0x21) ⊎ (p ≡ 0xa1)
    → ((both.inb p s).0 ≡ mask_at p s.0)
      × Idle (both.inb p s).1.0
      × ((q : ℕ) → mask_at q (both.inb p s).1.0 ≡ mask_at q s.0)
both_in s p idle (inl e) = rw e (refl, idle, λ q. refl)
both_in s p idle (inr e) = rw e (refl, idle, λ q. refl)

abbrev both_reads : ReadsMasks both
both_reads = record {
  Ready = λ s. Idle s.0;
  imr = λ q s. mask_at q s.0;
  in_mask = both_in;
  out_mask = λ s p v ready port. writes_mask s.0 p v ready port;
  delay = λ s ready. (ready, λ q. refl);
}

abbrev both_chips : Initialises both
both_chips = record {
  chip = λ c s. s.0 c;
  starts = λ c s. chip_starts c s.0;
  takes = λ c v s. chip_takes c v s.0;
  others = λ c p v s other other_data. chip_others c p v s.0 other other_data;
  delay = λ c s. refl;
}

abbrev both_controllers : Controllers both
both_controllers = record {
  reads = both_reads;
  chips = both_chips;
  ready = λ s im is. (im, is);
  same_masks = λ s ready. (refl, refl);
}

both_status : (s : Devices) → s.2 ≡ 0 → (both.inb 0x1f7 s).0 < 0x80
both_status s ready = ground arith

abbrev both_drive : Drive both
both_drive = record {
  written = λ q s. s.1 q;
  busy = λ s. s.2;
  status = both_status;
  status_busy = λ s. omega arith;
  status_written = λ s q. refl;
  out_written = λ s v p q. refl;
  delay_busy = λ s. omega arith;
  delay_written = λ s q. refl;
}

abbrev attached : DataPorts
attached = record {
  ports = both;
  insw = λ port words s. (zeros, s);
  outsw = λ bytes port words s. s;
}

abbrev hd_places : HdPlaces
hd_places = record { hdbuf = 5000; port_read_at = 100; port_write_at = 200 }

abbrev powered_on : Booting both
powered_on = record {
  machine = record {
    idt = λ n. record { a = 0; b = 0 };
    idtr = record { size = 0x3ff; address = 0 };
    cpu = record {
      device = (
        λ c. record { stage = 0; vector_base = 8; cascade = 4; mode = 1; mask = 0xb8 },
        zeros,
        3,
      );
      interrupts = false;
    };
    interrupt = zeros;
  };
  shown = zeros;
}

abbrev no_status : HdStatus
no_status = record { cmdnow = 0; handler = 0; buf = 0; bufsize = 0; port = 0; sectorcnt = 0 }

abbrev no_cmd : HdCmd
no_cmd = record {
  features = 0;
  sector_count = 0;
  lba_low = 0;
  lba_mid = 0;
  lba_hig = 0;
  device = 0;
  command = 0;
}

abbrev powered_loader : Loader
powered_loader = blank_loader (λ l. zeros)

-- The drive holds the bytes 0 to 255, again and again.
abbrev counted_disk : Devices → ℕ → ℕ → ℕ
counted_disk s l j = (l + j) % 256
