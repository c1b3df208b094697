-- ===== src/Tests/Write.antt =====
-- A drive that stores what is written to the sector that its registers name.
use finux.Prelude.{ℕ, ◌+◌, ◌*◌, ◌%◌, ◌^◌, refl, arith, false, update}
use finux.Pic.{Ports}
use finux.Tests.Blank.{zeros}
use finux.Disk.Command.{Drive}
use finux.Disk.Transfer.{DataPorts, HdPlaces, HdMachine}
use finux.Disk.Transfer.Write.{Stores}

abbrev store_ports : Ports
store_ports = record {
  State = (ℕ → ℕ) × (ℕ → ℕ → ℕ);
  inb = λ p s. (0x58, s);
  outb = λ v p s. (update s.0 p v, s.1);
  io_delay = λ s. s;
}

abbrev store_drive : Drive store_ports
store_drive = record {
  written = λ q s. s.0 q;
  busy = λ s. 0;
  status = λ s ready. omega arith;
  status_busy = λ s. omega arith;
  status_written = λ s q. refl;
  out_written = λ s v p q. refl;
  delay_busy = λ s. omega arith;
  delay_written = λ s q. refl;
}

-- The block that the registers name.
abbrev named : (ℕ → ℕ) → ℕ
named regs = regs 0x1f3 + regs 0x1f4 * 2 ^ 8 + regs 0x1f5 * 2 ^ 16 + regs 0x1f6 % 2 ^ 4 * 2 ^ 24

abbrev storing : DataPorts
storing = record {
  ports = store_ports;
  insw = λ port words s. (s.1 (named s.0), s);
  outsw = λ bytes port words s. (s.0, update s.1 (named s.0) bytes);
}

abbrev stores : Stores storing store_drive
stores = record {
  stored = λ s. s.1;
  pending = λ s. 0;
  stored_in = λ s p. refl;
  stored_out = λ s v p. refl;
  stored_delay = λ s. refl;
  asks = λ s ready. omega arith;
  pending_in = λ s. omega arith;
  pending_delay = λ s. omega arith;
  takes = λ s bytes lba l j told low. rw told.block refl;
}

abbrev hd_places : HdPlaces
hd_places = record { hdbuf = 5000; port_read_at = 100; port_write_at = 200 }

abbrev numbered : ℕ → ℕ → ℕ
numbered l j = (l + j) % 256

abbrev machine : HdMachine storing hd_places
machine = record {
  cpu = record { device = (zeros, numbered); interrupts = false };
  hd = record { cmdnow = 0; handler = 0; buf = 0; bufsize = 0; port = 0; sectorcnt = 0 };
  memory = λ a. a % 7;
}
