-- ===== src/Disk.antt =====
-- The commands of the disk driver, boot/hd.c and boot/hd.h: how they are built, and how they are
-- given to the drive through the port instructions, which are a parameter. Polling has fuel.
pub mod Command
pub mod Transfer
pub mod Setup
use finux.Prelude.{
  ℕ, zero, suc, ◌+◌, ◌*◌, ◌/◌, ◌^◌, leb, if◌then◌else◌, Option, none, some, ◌>>=◌, bit_and, bit_or,
}
use finux.Prelude.Bits.{u8, ◌<<<◌, ◌>>>◌}
use finux.Pic.{Ports, outb_pic, inb_pic}

-- `struct hd_cmd`
pub record HdCmd : Type 0 where
  pub features : ℕ
  pub sector_count : ℕ
  pub lba_low : ℕ
  pub lba_mid : ℕ
  pub lba_hig : ℕ
  pub device : ℕ
  pub command : ℕ

-- `REG_Drive`
abbrev pub reg_drive : (lba drv lba_h : ℕ) → ℕ
reg_drive lba drv lba_h = bit_or (bit_or (bit_or (lba <<< 6) (drv <<< 4)) (bit_and lba_h 0xf)) 0xa0

abbrev pub ata_identify : ℕ
ata_identify = 0xec

abbrev pub ata_read : ℕ
ata_read = 0x20

abbrev pub ata_write : ℕ
ata_write = 0x30

-- The command with the block address `lba` that `hd_read` and `hd_write` build.
abbrev pub lba_cmd : (command lba sectorcnt : ℕ) → HdCmd
lba_cmd command lba sectorcnt = record {
  features = 0;
  sector_count = u8 sectorcnt;
  lba_low = bit_and lba 0xff;
  lba_mid = bit_and (lba >>> 8) 0xff;
  lba_hig = bit_and (lba >>> 16) 0xff;
  device = u8 (reg_drive 1 0 (bit_and (lba >>> 24) 0xf));
  command = command;
}

unfoldable pub read_cmd : (lba sectorcnt : ℕ) → HdCmd
read_cmd lba sectorcnt = lba_cmd ata_read lba sectorcnt

unfoldable pub write_cmd : (lba sectorcnt : ℕ) → HdCmd
write_cmd lba sectorcnt = lba_cmd ata_write lba sectorcnt

-- The other fields keep what the stack holds.
unfoldable pub identify_cmd : HdCmd → HdCmd
identify_cmd cmd = record cmd { device = u8 (reg_drive 1 0 0); command = ata_identify }

module _ (ports : Ports) where
  open ports use {State}

  -- `while(inb_pic(0x1f7) >= 0x80);`
  unfoldable pub wait_ready : ℕ → State → Option State
  wait_ready zero s = none
  wait_ready (suc fuel) s =
      let (status, s1) = inb_pic ports 0x1f7 s in
      let rest = wait_ready fuel s1 in if leb 0x80 status then rest else some s1

  -- The writes of `hd_cmd_out`.
  unfoldable pub write_cmd_block : HdCmd → State → State
  write_cmd_block cmd s =
      let s1 = outb_pic ports 0 0x3f6 s in
      let s2 = outb_pic ports cmd.features 0x1f1 s1 in
      let s3 = outb_pic ports cmd.sector_count 0x1f2 s2 in
      let s4 = outb_pic ports cmd.lba_low 0x1f3 s3 in
      let s5 = outb_pic ports cmd.lba_mid 0x1f4 s4 in
      let s6 = outb_pic ports cmd.lba_hig 0x1f5 s5 in
      let s7 = outb_pic ports cmd.device 0x1f6 s6 in outb_pic ports cmd.command 0x1f7 s7

  unfoldable pub hd_cmd_out : ℕ → HdCmd → State → Option State
  hd_cmd_out fuel cmd s = wait_ready fuel s >>= λ s1. some (write_cmd_block cmd s1)
