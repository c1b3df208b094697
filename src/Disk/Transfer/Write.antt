-- ===== src/Disk/Transfer/Write.antt =====
-- `hd_write` of one sector does what the file system takes it for.
use finux.Prelude.{ℕ, ◌-◌, ◌≤◌, ◌<◌, ◌≡◌, ◌≢◌, Option, update, bit_and}
use finux.Disk.Command.{Drive, Told}
use finux.Disk.Transfer.{DataPorts, HdPlaces, HdMachine, with_device, port_write}
use finux.Fs.{Loader}
use finux.Fs.Format.{write_sector}

-- What the ATA documentation says of a drive that stores sectors: only the data port changes them, and
-- after the command 0x30 with the count 1, once it asks for data with bit 3 of the status, the sector
-- that the registers name takes the bytes. `pending` is how many more polls it takes to ask.
pub record Stores (drive : DataPorts) (ata : Drive drive.ports) : Type 1 where
  pub stored : drive.ports.State → ℕ → ℕ → ℕ
  pub pending : drive.ports.State → ℕ
  pub stored_in : (s : drive.ports.State) (p : ℕ) → stored (drive.ports.inb p s).1 ≡ stored s
  pub stored_out : (s : drive.ports.State) (v p : ℕ) → stored (drive.ports.outb v p s) ≡ stored s
  pub stored_delay : (s : drive.ports.State) → stored (drive.ports.io_delay s) ≡ stored s
  pub asks : (s : drive.ports.State) → pending s ≡ 0 → bit_and (drive.ports.inb 0x1f7 s).0 0x8 ≢ 0
  pub pending_in : (s : drive.ports.State) → pending (drive.ports.inb 0x1f7 s).1 ≤ pending s - 1
  pub pending_delay : (s : drive.ports.State) → pending (drive.ports.io_delay s) ≤ pending s
  pub takes :
      (s : drive.ports.State) (bytes : ℕ → ℕ) (lba l j : ℕ)
      → Told drive.ports ata 0x30 lba 1 s
      → j < 512
      → stored (drive.outsw bytes 0x1f0 256 s) l j ≡ update (stored s) lba bytes l j

module _ (drive : DataPorts) (ata : Drive drive.ports) (stores : Stores drive ata)
    (places : HdPlaces) where
  open drive use {ports, outsw}
  open stores use {
    stored, pending, stored_in, stored_out, stored_delay, asks, pending_in, pending_delay,
  }

  -- The states that polls of the status leave.
  data Polled (s : ports.State) : ports.State → Type 0 where
    no_poll : Polled s s
    poll : {t : ports.State} → Polled s t → Polled s (ports.io_delay (ports.inb 0x1f7 t).1)

  -- The machine has written a sector as the loader's file system writes one.
  pub record WrittenAs (lba : ℕ) (bytes : ℕ → ℕ) (m : HdMachine drive places) (s : Loader)
      (after : HdMachine drive places) : Type 0 where
    pub disk :
        (l j : ℕ) → j < 512 → stored after.cpu.device l j ≡ (write_sector lba bytes s).disk l j
    pub memory : after.memory ≡ m.memory
    pub finished : after.hd.cmdnow ≡ 0

  -- The state in which the data port has taken the bytes.
  abbrev sent_data : (lba buf : ℕ) → HdMachine drive places → ports.State → HdMachine drive places
  sent_data lba buf m device = port_write drive places buf 0x1f0 512 (
      with_device drive places device (record m {
        hd = record m.hd {
          cmdnow = 0x30;
          handler = places.port_write_at;
          buf = buf;
          bufsize = 512;
          port = 0x1f0;
        };
      }))
