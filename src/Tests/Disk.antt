-- ===== src/Tests/Disk.antt =====
-- A drive that is busy for three polls.
use finux.Prelude.{
  ℕ, ◌-◌, ◌<◌, ◌≡◌, refl, ◌==◌, if◌then◌else◌, some, update, arith, zero, suc, ◌+◌, ◌*◌, ◌%◌, ◌^◌,
  inl, true, false, [], ◌∷◌,
}
use finux.Pic.{Ports}
use finux.Tests.Blank.{blank_loader}
use finux.Fs.{Loader}
use finux.Disk.Transfer.{DataPorts, HdPlaces, HdMachine, io_delays, hd_read}
use finux.Disk.Transfer.Sector.{Delivers, ReadAs, hd_read-ReadAs}
use finux.Disk.Command.{Drive}

-- What was written, and the polls to go.
abbrev disk_ports : Ports
disk_ports = record {
  State = (ℕ → ℕ) × ℕ;
  inb = λ p s. (if s.1 == 0 then 0x50 else 0xd0, (s.0, s.1 - 1));
  outb = λ v p s. (update s.0 p v, s.1);
  io_delay = λ s. s;
}

disk_status : (s : (ℕ → ℕ) × ℕ) → s.1 ≡ 0 → (disk_ports.inb 0x1f7 s).0 < 0x80
disk_status s ready = ground arith

abbrev disk : Drive disk_ports
disk = record {
  written = λ q s. s.0 q;
  busy = λ s. s.1;
  status = disk_status;
  status_busy = λ s. omega arith;
  status_written = λ s q. refl;
  out_written = λ s v p q. refl;
  delay_busy = λ s. omega arith;
  delay_written = λ s q. refl;
}

abbrev waiting : (ℕ → ℕ) × ℕ
waiting = (λ p. 0, 3)

-- A drive whose data port gives the sector that the registers name.
abbrev numbered : ℕ → ℕ → ℕ
numbered l j = (l + j) % 256

abbrev reading : DataPorts
reading = record {
  ports = disk_ports;
  insw = λ port words s. (
    numbered (s.0 0x1f3 + s.0 0x1f4 * 2 ^ 8 + s.0 0x1f5 * 2 ^ 16 + s.0 0x1f6 % 2 ^ 4 * 2 ^ 24),
    s,
  );
  outsw = λ bytes port words s. s;
}

abbrev hd_places : HdPlaces
hd_places = record { hdbuf = 5000; port_read_at = 100; port_write_at = 200 }

delays-same : (n : ℕ) (s : (ℕ → ℕ) × ℕ) → io_delays reading hd_places n s ≡ s
unfolding io_delays
delays-same zero s = refl
delays-same (suc n) s = delays-same n s

delivers : Delivers reading disk hd_places numbered
delivers = record {
  sector = λ device lba j told low. rw (delays-same 1000 device, told.block) refl;
}

abbrev loader : Loader
loader = blank_loader numbered

abbrev machine : HdMachine reading hd_places
machine = record {
  cpu = record { device = waiting; interrupts = false };
  hd = record { cmdnow = 0; handler = 0; buf = 0; bufsize = 0; port = 0; sectorcnt = 0 };
  memory = λ a. 0;
}

hd_read-ReadAs_example :
    (after : HdMachine reading hd_places) × (hd_read reading hd_places 4
        (false ∷ false ∷ true ∷ [])
        70
        1
        1000
        machine
      ≡ some after)
    × ReadAs reading disk hd_places 70 1000 loader after
hd_read-ReadAs_example =
    hd_read-ReadAs reading disk hd_places 4 70 1000 2 [] machine loader delivers (λ a. refl)
      (omega arith) (omega arith) (omega arith) (omega arith) (inl (omega arith))
