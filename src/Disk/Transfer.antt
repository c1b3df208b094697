-- ===== src/Disk/Transfer.antt =====
-- The transfer of data of boot/hd.c: the interrupt handler, and the functions that wait for it. The
-- string instructions are a parameter, like those of the ports. When the interrupt comes is told by a
-- list of events, one for each test of a waiting loop; it comes before that test, or not.
pub mod Read
pub mod Sector
pub mod Write
pub mod Traffic
pub mod Identify
use finux.Prelude.{
  ℕ, zero, suc, ◌+◌, ◌-◌, ◌*◌, ◌/◌, Bool, true, false, ◌&&◌, ◌||◌, ◌==◌, ltb, leb, if◌then◌else◌,
  List, [], ◌∷◌, Option, none, some, ◌>>=◌, bit_and,
}
use finux.Prelude.Bits.{u32, ◌>>>◌}
use finux.Pic.{Ports, Cpu, inb_pic, eoi_slave}
use finux.Strings.{memcpy}
use finux.Disk.{
  HdCmd, read_cmd, write_cmd, identify_cmd, hd_cmd_out, ata_identify, ata_read, ata_write,
}

abbrev pub ata_none : ℕ
ata_none = 0

abbrev pub com_data : ℕ
com_data = 0x1f0

-- `rep insw` gives bytes, two for each word, and `rep outsw` takes them.
pub record DataPorts : Type 1 where
  pub ports : Ports
  pub insw : (port words : ℕ) → ports.State → (ℕ → ℕ) × ports.State
  pub outsw : (bytes : ℕ → ℕ) (port words : ℕ) → ports.State → ports.State

-- The addresses of `HD.hdbuf` and of the functions that `HD.handler` is set to.
pub record HdPlaces : Type 0 where
  pub hdbuf : ℕ
  pub port_read_at : ℕ
  pub port_write_at : ℕ

-- `struct hd_status`, but for the buffer at its end, which is memory.
pub record HdStatus : Type 0 where
  pub cmdnow : ℕ
  pub handler : ℕ
  pub buf : ℕ
  pub bufsize : ℕ
  pub port : ℕ
  pub sectorcnt : ℕ

module _ (drive : DataPorts) (places : HdPlaces) where
  open drive use {ports, insw, outsw}

  pub record HdMachine : Type 0 where
    pub cpu : Cpu ports
    pub hd : HdStatus
    pub memory : ℕ → ℕ

  abbrev pub with_device : ports.State → HdMachine → HdMachine
  with_device device m = record m {
    cpu = record { device = device; interrupts = m.cpu.interrupts };
  }

  unfoldable pub port_read : (buf port size : ℕ) → HdMachine → HdMachine
  port_read buf port size m =
      let (bytes, device) = insw port (size >>> 1) m.cpu.device in
      record (with_device device m) {
        memory = λ a.
            if leb buf a && ltb a (buf + 2 * (size >>> 1)) then bytes (a - buf) else m.memory a;
      }

  unfoldable pub port_write : (buf port size : ℕ) → HdMachine → HdMachine
  port_write buf port size m =
      with_device (outsw (λ i. m.memory (buf + i)) port (size >>> 1) m.cpu.device) m

  -- The switch of `hd_handler`.
  abbrev pub handle_command : HdMachine → HdMachine
  handle_command m =
      if (m.hd.cmdnow == ata_identify) || (m.hd.cmdnow == ata_read)
      then port_read places.hdbuf m.hd.port m.hd.bufsize m
      else m

  unfoldable pub hd_handler : HdMachine → HdMachine
  hd_handler m =
      let m1 = handle_command m in
      record m1 { hd = record m1.hd { cmdnow = ata_none }; cpu = eoi_slave ports m1.cpu }

  -- `while (HD.cmdnow == cmd.command);`
  unfoldable pub wait_handler : (command : ℕ) → List Bool → HdMachine → Option HdMachine
  wait_handler command [] m = none
  wait_handler command (event ∷ events) m =
      let m1 = if event then hd_handler m else m in
      let rest = wait_handler command events m1 in if m1.hd.cmdnow == command then rest else some m1

  unfoldable pub io_delays : ℕ → ports.State → ports.State
  io_delays zero s = s
  io_delays (suc n) s = io_delays n (ports.io_delay s)

  unfoldable pub hd_read :
      (fuel : ℕ) → List Bool → (lba sectorcnt buf : ℕ) → HdMachine → Option HdMachine
  hd_read fuel events lba sectorcnt buf m =
      let status : HdStatus = record {
        cmdnow = ata_read;
        handler = places.port_read_at;
        buf = buf;
        bufsize = u32 (sectorcnt * 512);
        port = com_data;
        sectorcnt = sectorcnt;
      } in
      hd_cmd_out ports fuel (read_cmd lba sectorcnt) m.cpu.device >>= λ device.
      wait_handler ata_read events (with_device (io_delays 1000 device) (record m { hd = status }))
      >>= λ m1. some (record m1 { memory = (memcpy buf places.hdbuf m1.hd.bufsize m1.memory).1 })

  -- `while(!(inb_pic(COM_Status) & 0x8));`
  unfoldable pub wait_data : (fuel : ℕ) → ports.State → Option ports.State
  wait_data zero s = none
  wait_data (suc fuel) s =
      let (status, s1) = inb_pic ports 0x1f7 s in
      let rest = wait_data fuel s1 in if bit_and status 0x8 == 0 then rest else some s1

  -- The number of sectors is kept as it was.
  unfoldable pub hd_write :
      (fuel : ℕ) → List Bool → (lba sectorcnt buf : ℕ) → HdMachine → Option HdMachine
  hd_write fuel events lba sectorcnt buf m =
      let status : HdStatus = record m.hd {
        cmdnow = ata_write;
        handler = places.port_write_at;
        buf = buf;
        bufsize = u32 (sectorcnt * 512);
        port = com_data;
      } in
      hd_cmd_out ports fuel (write_cmd lba sectorcnt) m.cpu.device >>= λ device.
      wait_data fuel device >>= λ device. wait_handler ata_write events (
        port_write buf com_data (u32 (sectorcnt * 512))
          (with_device device (record m { hd = status })))

  -- `buf` and `cmd` are locals; `cmd` holds what the stack does.
  unfoldable pub hd_identify :
      (fuel : ℕ) → List Bool → (cmd : HdCmd) → (buf : ℕ) → HdMachine → Option HdMachine
  hd_identify fuel events cmd buf m =
      let status : HdStatus = record {
        cmdnow = ata_identify;
        handler = places.port_read_at;
        buf = buf;
        bufsize = 512;
        port = com_data;
        sectorcnt = 1;
      } in
      hd_cmd_out ports fuel (identify_cmd cmd) m.cpu.device >>= λ device.
      wait_handler ata_identify events (with_device device (record m { hd = status })) >>= λ m1.
      some (record m1 { memory = (memcpy buf places.hdbuf m1.hd.bufsize m1.memory).1 })
