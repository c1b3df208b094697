-- ===== src/Cstart/Whole.antt =====
-- The whole of `Cstart`, boot/loader.c, up to the jump to the kernel.
use finux.Prelude.{ℕ, ◌+◌, ◌≤◌, ◌<◌, ◌≡◌, ◌⊎◌, Bool, List, Option, ◌>>=◌}
use finux.Disk.{HdCmd}
use finux.Disk.Transfer.{DataPorts, HdPlaces, HdMachine, HdStatus, hd_identify}
use finux.Disk.Transfer.Traffic.{Kept}
use finux.Fs.{Loader, LoaderGlobals}
use finux.Pic.Irq.{Masks}
use finux.Idt.{IdtState}
use finux.Boot.{BootHandlers, Booting, set_up_devices}
use finux.Boot.Ready.{Controllers, IsReady}
use finux.Cstart.{Stacks, Start, start_kernel_from_disk}

module _ (drive : DataPorts) (places : HdPlaces) (handlers : BootHandlers) (globals : LoaderGlobals)
    (stacks : Stacks) (sectors : drive.ports.State → ℕ → ℕ → ℕ) where
  open drive use {ports}

  -- The state that the first half leaves to the second. The disk is what the drive then holds; its
  -- sectors are a parameter, and the second half reads and writes them.
  abbrev pub to_disk : Booting ports → HdMachine drive places → Loader → Loader
  to_disk b m s = record s { disk = sectors m.cpu.device; memory = m.memory; screen = b.shown }

  abbrev pub to_drive : Booting ports → HdStatus → Loader → HdMachine drive places
  to_drive b hd s = record { cpu = b.machine.cpu; hd = hd; memory = s.memory }

  -- `cmd` and `buf` are the locals of `hd_identify`.
  unfoldable pub cstart :
      (polls : ℕ) (events : List Bool) (cmd : HdCmd) (buf part_fuel fuel detect_count : ℕ)
      → Booting ports
      → HdStatus
      → Loader
      → Option Start
  cstart polls events cmd buf part_fuel fuel detect_count b hd s =
      let b1 = set_up_devices ports handlers b in
      hd_identify drive places polls events cmd buf (to_drive b1 hd s) >>= λ m.
      start_kernel_from_disk globals stacks part_fuel fuel detect_count (to_disk b1 m s)

  -- The machine at that point: the table of the first half, and the controllers after the drive.
  abbrev pub machine_of : Booting ports → HdMachine drive places → IdtState ports
  machine_of b m = record (b.machine) { cpu = m.cpu }

  module _ (controllers : Controllers ports) where
    -- What the documentation of the controllers says of the accesses to the drive, and of the ends of
    -- interrupt: they do not change the masks.
    pub record Quiet : Type 1 where
      pub masks :
          (master slave : ℕ) → Kept drive (λ s. Masks ports controllers.reads s master slave)

    -- What the second half begins with.
    pub record ComesToDisk (buf : ℕ) (b : Booting ports) (m : HdMachine drive places)
        (s s1 : Loader) : Type 0 where
      pub ready :
          IsReady ports controllers handlers (machine_of (set_up_devices ports handlers b) m)
      pub disk : s1.disk ≡ sectors b.machine.cpu.device
      pub memory :
          (a : ℕ)
          → (a < buf) ⊎ (buf + 512 ≤ a)
          → (a < places.hdbuf) ⊎ (places.hdbuf + 512 ≤ a)
          → s1.memory a ≡ s.memory a
